-- ===== src/VmallocTest/Calls.antt =====
-- What the calls of drgn_vmalloc_test/drgn_vmalloc_test.c have taken, and the calls that give it
-- back.
use kernel_stuff.Common.{
  ℕ, zero, suc, ◌≡◌, refl, ap, Bool, true, false, Option, none, some, List, [], ◌∷◌, ◌++◌, map,
  replicate,
}
use kernel_stuff.VmallocTest.{npage, Call, alloc_page, vm_map_ram, vm_unmap_ram, free_pages}

-- The entries that are not `NULL`.
abbrev pub held : List (Option ℕ) → List ℕ
held [] = []
held (none ∷ ps) = held ps
held (some p ∷ ps) = p ∷ held ps

-- The pages that calls have given, and the addresses of the mappings.
abbrev pub allocated : List Call → List ℕ
allocated [] = []
allocated (alloc_page (some p) ∷ calls) = p ∷ allocated calls
allocated (call ∷ calls) = allocated calls

abbrev pub mapped : List Call → List ℕ
mapped [] = []
mapped (vm_map_ram (some at) ∷ calls) = at ∷ mapped calls
mapped (call ∷ calls) = mapped calls

-- No call gives anything back.
abbrev pub only_takes : List Call → Bool
only_takes [] = true
only_takes (alloc_page p ∷ calls) = only_takes calls
only_takes (vm_map_ram at ∷ calls) = only_takes calls
only_takes (call ∷ calls) = false

-- The mappings are removed, then the pages are freed.
abbrev pub teardown : List ℕ → List ℕ → List Call
teardown ats ps = map (λ at. vm_unmap_ram at npage) ats ++ map (λ p. free_pages p 0) ps

pub held-append : (ps qs : List (Option ℕ)) → held (ps ++ qs) ≡ held ps ++ held qs
held-append [] qs = refl
held-append (none ∷ ps) qs = held-append ps qs
held-append (some p ∷ ps) qs = ap (λ r. p ∷ r) (held-append ps qs)

pub held-none : (n : ℕ) → held (replicate n none) ≡ []
held-none zero = refl
held-none (suc n) = held-none n

pub allocated-append : (cs ds : List Call) → allocated (cs ++ ds) ≡ allocated cs ++ allocated ds
allocated-append [] ds = refl
allocated-append (alloc_page none ∷ cs) ds = allocated-append cs ds
allocated-append (alloc_page (some p) ∷ cs) ds = ap (λ r. p ∷ r) (allocated-append cs ds)
allocated-append (vm_map_ram at ∷ cs) ds = allocated-append cs ds
allocated-append (vm_unmap_ram at n ∷ cs) ds = allocated-append cs ds
allocated-append (free_pages p n ∷ cs) ds = allocated-append cs ds

pub mapped-append : (cs ds : List Call) → mapped (cs ++ ds) ≡ mapped cs ++ mapped ds
mapped-append [] ds = refl
mapped-append (alloc_page p ∷ cs) ds = mapped-append cs ds
mapped-append (vm_map_ram none ∷ cs) ds = mapped-append cs ds
mapped-append (vm_map_ram (some at) ∷ cs) ds = ap (λ r. at ∷ r) (mapped-append cs ds)
mapped-append (vm_unmap_ram at n ∷ cs) ds = mapped-append cs ds
mapped-append (free_pages p n ∷ cs) ds = mapped-append cs ds

pub only_takes-append :
    (cs ds : List Call) → only_takes cs ≡ true → only_takes ds ≡ true → only_takes (cs ++ ds) ≡ true
only_takes-append [] ds h h' = h'
only_takes-append (alloc_page p ∷ cs) ds h h' = only_takes-append cs ds h h'
only_takes-append (vm_map_ram at ∷ cs) ds h h' = only_takes-append cs ds h h'
only_takes-append (vm_unmap_ram at n ∷ cs) ds h h' = absurd (cc)
only_takes-append (free_pages p n ∷ cs) ds h h' = absurd (cc)
