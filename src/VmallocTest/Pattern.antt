-- ===== src/VmallocTest/Pattern.antt =====
-- The pattern that drgn_vmalloc_test/drgn_vmalloc_test.c writes to its mapping.
use kernel_stuff.Common.{
  ℕ, zero, suc, ◌+◌, ◌*◌, ◌/◌, ◌%◌, ◌^◌, ◌<◌, ◌≡◌, refl, ap, ◌∙◌, true, Option, some, List, [], ◌∷◌,
  ◌++◌, map, append_assoc, ltb, length, arith, get_elem?, length-append, overwrite-one,
}
use kernel_stuff.Common.Run.{ok}
use kernel_stuff.VmallocTest.{
  npage, page_size, Mapping, Kernel, alloc_page, vm_map_ram, TestModule, loaded, fill_loop,
  map_pages, alloc_loop, init_dentryref,
}

-- The numbers from `val` on.
abbrev pub ascending : ℕ → ℕ → List ℕ
ascending val zero = []
ascending val (suc n) = val ∷ ascending (val + 1) n

pub get_elem?-ascending : (n val j : ℕ) → j < n → get_elem? (ascending val n) j ≡ some (val + j)
get_elem?-ascending zero val j h = absurd (omega arith)
get_elem?-ascending (suc n) val zero h = ap some (omega arith)
get_elem?-ascending (suc n) val (suc j) h =
    get_elem?-ascending n (val + 1) j (omega arith) ∙ ap some (omega arith)

-- The loop leaves the words before its first, and writes the numbers from `val` on to the others.
pub fill_loop_lem :
    (rounds val i : ℕ) (before rest : List ℕ)
    → length before ≡ i
    → length rest ≡ rounds
    → val + rounds < 2 ^ 32
    → fill_loop rounds (before ++ rest) val i ≡ ok (before ++ ascending val rounds)
unfolding fill_loop
fill_loop_lem zero val i before [] h h' u = refl
fill_loop_lem zero val i before (w ∷ rest) h h' u = absurd (omega arith)
fill_loop_lem (suc rounds) val i before [] h h' u = absurd (omega arith)
fill_loop_lem (suc rounds) val i before (w ∷ rest) h h' u =
    let inside : ltb i (length (before ++ (w ∷ rest))) ≡ true =
      ground (arith, length-append before (w ∷ rest)) in
    let no_wrap : (val + 1) % 2 ^ 32 ≡ val + 1 = omega arith in
    let now : length (before ++ (val ∷ [])) ≡ i + 1 =
      omega (arith, length-append before (val ∷ [])) in
    rw (inside, overwrite-one before w rest val i h, no_wrap)
      (fill_loop_lem rounds (val + 1) (i + 1) (before ++ (val ∷ [])) rest now (omega arith)
          (omega arith)
        ∙ ap ok (append_assoc before (val ∷ []) (ascending (val + 1) rounds)))

-- If four pages and a mapping of their size are given, `init_dentryref` returns 0, `addr` and `pages`
-- are what was given, and each word of the mapping holds its index.
pub init_dentryref-pattern :
    (k : Kernel) (p q r s : ℕ) (at : Mapping) (j : ℕ)
    → k.alloc_page 0 ≡ some p
    → k.alloc_page 1 ≡ some q
    → k.alloc_page 2 ≡ some r
    → k.alloc_page 3 ≡ some s
    → k.vm_map_ram (some p ∷ some q ∷ some r ∷ some s ∷ []) ≡ some at
    → length at.words ≡ npage * page_size / 4
    → j < npage * page_size / 4
    → (m : TestModule) × (init_dentryref k loaded ≡ ok (true, m))
      × (m.addr ≡ some at.address)
      × (m.pages ≡ some p ∷ some q ∷ some r ∷ some s ∷ [])
      × (get_elem? m.words j ≡ some j)
unfolding init_dentryref map_pages alloc_loop
init_dentryref-pattern k p q r s at j a b c d mapping fits h =
    let fill = fill_loop_lem (npage * page_size / 4) 0 0 [] at.words refl fits (omega arith) in
    let given = k.alloc_page 0 ∷ k.alloc_page 1 ∷ k.alloc_page 2 ∷ k.alloc_page 3 ∷ [] in
    let pages : given ≡ some p ∷ some q ∷ some r ∷ some s ∷ [] = rw (a, b, c, d) refl in
    let at_given : k.vm_map_ram given ≡ some at = ap k.vm_map_ram pages ∙ mapping in
    let left : List (Option ℕ) → TestModule = (λ ps. record {
      addr = some at.address;
      pages = ps;
      words = ascending 0 (npage * page_size / 4);
      calls = map alloc_page ps ++ (vm_map_ram (some at.address) ∷ []);
    }) in
    (
      left (some p ∷ some q ∷ some r ∷ some s ∷ []),
      rw (a, b, c, d) (rw (map_pages, at_given, fill) (ap (λ ps. ok (true, left ps)) pages)),
      refl,
      refl,
      get_elem?-ascending (npage * page_size / 4) 0 j h ∙ ap some (omega arith),
    )
