-- ===== src/VmallocTest/Holding.antt =====
-- The variables of drgn_vmalloc_test/drgn_vmalloc_test.c hold what its calls have taken.
use kernel_stuff.Common.{
  ℕ, zero, suc, ◌+◌, ◌≡◌, refl, sym, ap, ◌∙◌, Bool, true, Option, none, some, List, [], ◌∷◌, ◌++◌,
  map, append-nil, append_assoc, length, arith, get_elem?-of_drop, drop, replicate, length-append,
  length-replicate, overwrite, overwrite-one,
}
use kernel_stuff.Common.Run.{ok}
use kernel_stuff.VmallocTest.{
  npage, Kernel, alloc_page, vm_map_ram, vm_unmap_ram, free_pages, TestModule, called, free_loop,
  cleanup, alloc_loop,
}
use kernel_stuff.VmallocTest.Calls.{
  held, allocated, mapped, only_takes, teardown, held-append, held-none, allocated-append,
  mapped-append, only_takes-append,
}

-- The variables hold what the calls have given, and nothing was given back.
pub record IsHolding (m : TestModule) : Type 0 where
  pub all_pages : length m.pages ≡ npage
  pub pages_held : allocated m.calls ≡ held m.pages
  pub addr_held : mapped m.calls ≡ held (m.addr ∷ [])
  pub takes : only_takes m.calls ≡ true

free_loop_lem :
    (rounds i : ℕ) (m : TestModule) (qs : List (Option ℕ))
    → drop i m.pages ≡ qs
    → length qs ≡ rounds
    → free_loop rounds m i
      ≡ ok (record m { calls = m.calls ++ map (λ p. free_pages p 0) (held qs) })
unfolding free_loop
free_loop_lem zero i m [] e h = ap (λ cs. ok (record m { calls = cs })) (sym (append-nil m.calls))
free_loop_lem zero i m (q ∷ qs) e h = absurd (omega arith)
free_loop_lem (suc rounds) i m [] e h = absurd (omega arith)
free_loop_lem (suc rounds) i m (none ∷ qs) e h =
    let (here, next) = get_elem?-of_drop i m.pages none qs e in
    rw (here, free_loop) (free_loop_lem rounds (i + 1) m qs next (omega arith))
free_loop_lem (suc rounds) i m (some p ∷ qs) e h =
    let (here, next) = get_elem?-of_drop i m.pages (some p) qs e in
    rw (here, free_loop)
      (free_loop_lem rounds (i + 1) (called m (free_pages p 0)) qs next (omega arith)
        ∙ ap (λ cs. ok (record m { calls = cs }))
            (append_assoc m.calls (free_pages p 0 ∷ []) (map (λ p. free_pages p 0) (held qs))))

-- What `cleanup` adds to the calls of a module that holds what it was given.
pub cleanup_lem :
    (m : TestModule)
    → IsHolding m
    → cleanup m ≡ ok (record m { calls = m.calls ++ teardown (mapped m.calls) (allocated m.calls) })
unfolding cleanup
cleanup_lem m h = rw (h.pages_held, h.addr_held) (by_addr m.addr refl)
  where
    by_addr :
        (at : Option ℕ)
        → m.addr ≡ at
        → (free_loop npage
            (elim at as (λ _. TestModule) [ none ↦ m | some at ↦ called m (vm_unmap_ram at npage) ])
            0)
          ≡ ok (record m { calls = m.calls ++ teardown (held (at ∷ [])) (held m.pages) })
    by_addr none e = free_loop_lem npage 0 m m.pages refl h.all_pages
    by_addr (some at) e =
        free_loop_lem npage 0 (called m (vm_unmap_ram at npage)) m.pages refl h.all_pages
        ∙ ap (λ cs. ok (record m { calls = cs }))
            (append_assoc m.calls (vm_unmap_ram at npage ∷ [])
              (map (λ p. free_pages p 0) (held m.pages)))

-- `m` when `alloc_page` has given `got` for the entry `i`.
abbrev with_page : TestModule → ℕ → Option ℕ → TestModule
with_page m i got = record (called m (alloc_page got)) { pages = overwrite m.pages i (got ∷ []) }

held-here : (ps : List (Option ℕ)) (n : ℕ) → held (ps ++ replicate n none) ≡ held ps
held-here ps n =
    held-append ps (replicate n none) ∙ ap (λ r. held ps ++ r) (held-none n) ∙ append-nil (held ps)

given : (got : Option ℕ) → allocated (alloc_page got ∷ []) ≡ held (got ∷ [])
given none = refl
given (some p) = refl

module _ (m : TestModule) (i rounds : ℕ) (ps : List (Option ℕ)) (got : Option ℕ)
    (count : length ps ≡ i) (pages : m.pages ≡ ps ++ replicate (suc rounds) none) where
  with_page-pages : overwrite m.pages i (got ∷ []) ≡ (ps ++ (got ∷ [])) ++ replicate rounds none
  with_page-pages =
      ap (λ l. overwrite l i (got ∷ [])) pages
      ∙ overwrite-one ps none (replicate rounds none) got i count

  with_page-IsHolding : i + suc rounds ≡ npage → IsHolding m → IsHolding (with_page m i got)
  with_page-IsHolding all h = record {
    all_pages =
        ap length with_page-pages
        ∙ omega (
          arith,
          count,
          length-append (ps ++ (got ∷ [])) (replicate rounds none),
          length-append ps (got ∷ []),
          length-replicate {A = Option ℕ} rounds none,
        );
    pages_held =
        allocated-append m.calls (alloc_page got ∷ [])
        ∙ ap (λ r. r ++ allocated (alloc_page got ∷ []))
            (h.pages_held ∙ ap held pages ∙ held-here ps (suc rounds))
        ∙ ap (λ r. held ps ++ r) (given got)
        ∙ sym (
            ap held with_page-pages
            ∙ held-here (ps ++ (got ∷ [])) rounds
            ∙ held-append ps (got ∷ []));
    addr_held =
        mapped-append m.calls (alloc_page got ∷ []) ∙ append-nil (mapped m.calls) ∙ h.addr_held;
    takes = only_takes-append m.calls (alloc_page got ∷ []) h.takes refl;
  }

pub alloc_loop-IsHolding :
    (k : Kernel) (rounds i : ℕ) (m : TestModule) (ps : List (Option ℕ))
    → length ps ≡ i
    → i + rounds ≡ npage
    → m.pages ≡ ps ++ replicate rounds none
    → IsHolding m
    → IsHolding (alloc_loop k rounds m i).1 × ((alloc_loop k rounds m i).1.addr ≡ m.addr)
unfolding alloc_loop
alloc_loop-IsHolding k zero i m ps count all pages h = (h, refl)
alloc_loop-IsHolding k (suc rounds) i m ps count all pages h =
    let got = k.alloc_page i in
    let now = with_page-IsHolding m i rounds ps got count pages all h in
    by_page got _ _ (now, refl)
      (alloc_loop-IsHolding k rounds (i + 1) (with_page m i got) (ps ++ (got ∷ []))
        (omega (arith, length-append ps (got ∷ []))) (omega arith)
        (with_page-pages m i rounds ps got count pages) now)
  where
    Holds : Bool × TestModule → Type 0
    Holds r = IsHolding r.1 × (r.1.addr ≡ m.addr)

    by_page :
        (got : Option ℕ) (stopped rest : Bool × TestModule)
        → Holds stopped
        → Holds rest
        → Holds (elim got as (λ _. Bool × TestModule) [ none ↦ stopped | some page ↦ rest ])
    by_page none stopped rest a b = a
    by_page (some page) stopped rest a b = b

-- The `none` after a failure, and what a mapping changes.
pub failed-IsHolding :
    (m : TestModule)
    → IsHolding m
    → m.addr ≡ none
    → IsHolding (record (called m (vm_map_ram none)) { addr = none })
failed-IsHolding m h e = record {
  all_pages = h.all_pages;
  pages_held =
      allocated-append m.calls (vm_map_ram none ∷ [])
      ∙ append-nil (allocated m.calls)
      ∙ h.pages_held;
  addr_held =
      mapped-append m.calls (vm_map_ram none ∷ [])
      ∙ append-nil (mapped m.calls)
      ∙ h.addr_held
      ∙ ap (λ at. held (at ∷ [])) e;
  takes = only_takes-append m.calls (vm_map_ram none ∷ []) h.takes refl;
}

pub mapped-IsHolding :
    (m : TestModule) (at : ℕ) (words : List ℕ)
    → IsHolding m
    → m.addr ≡ none
    → IsHolding (record (called m (vm_map_ram (some at))) { addr = some at; words = words })
mapped-IsHolding m at words h e = record {
  all_pages = h.all_pages;
  pages_held =
      allocated-append m.calls (vm_map_ram (some at) ∷ [])
      ∙ append-nil (allocated m.calls)
      ∙ h.pages_held;
  addr_held =
      mapped-append m.calls (vm_map_ram (some at) ∷ [])
      ∙ ap (λ r. r ++ (at ∷ [])) (h.addr_held ∙ ap (λ a. held (a ∷ [])) e);
  takes = only_takes-append m.calls (vm_map_ram (some at) ∷ []) h.takes refl;
}
