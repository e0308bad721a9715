-- ===== src/VmallocTest/Lifetime.antt =====
-- Loading and unloading the module of drgn_vmalloc_test/drgn_vmalloc_test.c.
use kernel_stuff.Common.{
  ℕ, ◌*◌, ◌/◌, ◌≡◌, refl, inl, inr, Bool, true, false, Option, none, some, List, [], ◌++◌,
  if◌then◌else◌, length, arith, Option-cases,
}
use kernel_stuff.Common.Run.{Run, ok, ◌>>=◌}
use kernel_stuff.VmallocTest.{
  npage, page_size, Mapping, Kernel, Call, TestModule, loaded, cleanup, alloc_loop, map_pages,
  init_dentryref, lifetime,
}
use kernel_stuff.VmallocTest.Calls.{allocated, mapped, only_takes, teardown}
use kernel_stuff.VmallocTest.Holding.{
  IsHolding, cleanup_lem, alloc_loop-IsHolding, failed-IsHolding, mapped-IsHolding,
}
use kernel_stuff.VmallocTest.Pattern.{ascending, fill_loop_lem}

-- What a run of the module ends with: first it only takes, then it gives all of it back.
abbrev GivesBack : Run TestModule → Type 0
GivesBack run =
    (end : TestModule) × (taking : List Call) × (run ≡ ok end)
    × (only_takes taking ≡ true)
    × (end.calls ≡ taking ++ teardown (mapped taking) (allocated taking))

cleanup-GivesBack : (m : TestModule) → IsHolding m → GivesBack (cleanup m)
cleanup-GivesBack m h = (_, m.calls, cleanup_lem m h, h.takes, refl)

-- `lifetime` from its `init_dentryref` on.
abbrev unload : Run (Bool × TestModule) → Run TestModule
unload run = run >>= (λ r. if r.0 then cleanup r.1 else ok r.1)

err-GivesBack :
    (m : TestModule) → IsHolding m → GivesBack (unload (cleanup m >>= (λ m'. ok (false, m'))))
err-GivesBack m h = rw (cleanup_lem m h) (_, m.calls, refl, h.takes, refl)

map_pages-GivesBack :
    (k : Kernel) (m : TestModule)
    → ((at : Mapping) → k.vm_map_ram m.pages ≡ some at → length at.words ≡ npage * page_size / 4)
    → IsHolding m
    → m.addr ≡ none
    → GivesBack (unload (map_pages k m))
unfolding map_pages
map_pages-GivesBack k m fits h e = elim (Option-cases (k.vm_map_ram m.pages)) [
  | inl failed ↦ rw (failed, map_pages) (err-GivesBack _ (failed-IsHolding m h e))
  | inr (at, given_at) ↦
      rw
        (
          given_at,
          map_pages,
          fill_loop_lem (npage * page_size / 4) 0 0 [] at.words refl (fits at given_at)
              (omega arith),
        )
        (cleanup-GivesBack _
          (mapped-IsHolding m at.address (ascending 0 (npage * page_size / 4)) h e))
]

loaded-IsHolding : IsHolding loaded
loaded-IsHolding = record { all_pages = refl; pages_held = refl; addr_held = refl; takes = refl }

-- If a mapping has the size of the pages, loading the module and unloading it again makes calls that
-- only take something, whether loading succeeds or not, and then gives back just that: first the
-- mapping, if there is one, then each page that was allocated, once and in order.
pub lifetime_lem :
    (k : Kernel)
    → ((ps : List (Option ℕ)) (at : Mapping)
        → k.vm_map_ram ps ≡ some at
        → length at.words ≡ npage * page_size / 4)
    → (end : TestModule) × (taking : List Call) × (lifetime k ≡ ok end)
      × (only_takes taking ≡ true)
      × (end.calls ≡ taking ++ teardown (mapped taking) (allocated taking))
unfolding lifetime init_dentryref
lifetime_lem k fits =
    let (h, e) = alloc_loop-IsHolding k npage 0 loaded [] refl refl refl loaded-IsHolding in
    by_loop (alloc_loop k npage loaded 0) h e
  where
    by_loop :
        (r : Bool × TestModule)
        → IsHolding r.1
        → r.1.addr ≡ none
        → GivesBack
            (unload (if r.0 then map_pages k r.1 else (cleanup r.1 >>= (λ m'. ok (false, m')))))
    by_loop (true, m) h e = map_pages-GivesBack k m (fits m.pages) h e
    by_loop (false, m) h e = err-GivesBack m h
