-- ===== src/VmallocTest/Tests.antt =====
-- The module of drgn_vmalloc_test/drgn_vmalloc_test.c on a few kernels.
use kernel_stuff.Common.{
  ℕ, ◌+◌, ◌*◌, ◌/◌, ◌≡◌, refl, sym, ap, ◌∙◌, true, false, Option, none, some, List, [], ◌∷◌, ◌++◌,
  ◌==◌, if◌then◌else◌, length, arith, get_elem?, replicate, length-replicate,
}
use kernel_stuff.Common.Run.{ok}
use kernel_stuff.VmallocTest.{
  npage, page_size, Mapping, Kernel, Call, alloc_page, free_pages, TestModule, loaded, free_loop,
  cleanup, alloc_loop, map_pages, init_dentryref, lifetime,
}
use kernel_stuff.VmallocTest.Pattern.{init_dentryref-pattern}
use kernel_stuff.VmallocTest.Calls.{allocated, mapped, only_takes, teardown}
use kernel_stuff.VmallocTest.Lifetime.{lifetime_lem}

abbrev cleared : Mapping
cleared = record { address = 99; words = replicate (npage * page_size / 4) 0 }

-- A kernel with enough memory, one without a third page, and one without a mapping.
abbrev roomy : Kernel
roomy = record { alloc_page = λ i. some (10 + i); vm_map_ram = λ ps. some cleared }

abbrev two_pages : Kernel
two_pages = record {
  alloc_page = λ i. if i == 2 then none else some (10 + i);
  vm_map_ram = λ ps. some cleared;
}

abbrev no_mapping : Kernel
no_mapping = record { alloc_page = λ i. some (10 + i); vm_map_ram = λ ps. none }

-- The two pages are freed, and the module is not loaded.
short_of_pages :
    init_dentryref two_pages loaded
    ≡ ok (
      false,
      record {
        addr = none;
        pages = some 10 ∷ some 11 ∷ none ∷ none ∷ [];
        words = [];
        calls =
            alloc_page (some 10)
            ∷ alloc_page (some 11)
            ∷ alloc_page none
            ∷ free_pages 10 0
            ∷ free_pages 11 0
            ∷ [];
      },
    )
unfolding init_dentryref alloc_loop cleanup free_loop
short_of_pages = refl

-- All the pages are freed.
short_of_mappings :
    (m : TestModule) × (init_dentryref no_mapping loaded ≡ ok (false, m)) × (length m.calls ≡ 9)
unfolding init_dentryref alloc_loop map_pages cleanup free_loop
short_of_mappings = (_, refl, refl)

cleared-length : length cleared.words ≡ npage * page_size / 4
cleared-length = length-replicate {A = ℕ} (npage * page_size / 4) 0

init_dentryref-pattern_example :
    (m : TestModule) × (init_dentryref roomy loaded ≡ ok (true, m))
    × (m.addr ≡ some 99)
    × (m.pages ≡ some 10 ∷ some 11 ∷ some 12 ∷ some 13 ∷ [])
    × (get_elem? m.words 4095 ≡ some 4095)
init_dentryref-pattern_example =
    init_dentryref-pattern roomy 10 11 12 13 cleared 4095 refl refl refl refl refl cleared-length
      (omega arith)

roomy-fits :
    (ps : List (Option ℕ)) (at : Mapping)
    → roomy.vm_map_ram ps ≡ some at
    → length at.words ≡ npage * page_size / 4
roomy-fits ps at e = ap length (ap words_of (sym e)) ∙ cleared-length
  where
    words_of : Option Mapping → List ℕ
    words_of none = []
    words_of (some m) = m.words

lifetime_lem_example :
    (end : TestModule) × (taking : List Call) × (lifetime roomy ≡ ok end)
    × (only_takes taking ≡ true)
    × (end.calls ≡ taking ++ teardown (mapped taking) (allocated taking))
lifetime_lem_example = lifetime_lem roomy roomy-fits
