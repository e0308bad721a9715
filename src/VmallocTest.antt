-- ===== src/VmallocTest.antt =====
-- drgn_vmalloc_test/drgn_vmalloc_test.c: a kernel module that maps a few pages with `vm_map_ram`. What
-- the kernel's allocators give is an argument; `NULL` is `none`.
pub mod Calls
pub mod Holding
pub mod Lifetime
pub mod Pattern
mod Tests
use kernel_stuff.Common.{
  ℕ, zero, suc, ◌+◌, ◌*◌, ◌/◌, ◌%◌, ◌^◌, Bool, true, false, Option, none, some, List, [], ◌∷◌, ◌++◌,
  ltb, if◌then◌else◌, length, get_elem?, replicate, overwrite,
}
use kernel_stuff.Common.Run.{Run, ok, stop, out_of_bounds, ◌>>=◌}

-- `NPAGE`
abbrev pub npage : ℕ
npage = 4

-- `PAGE_SIZE` of the usual configuration.
abbrev pub page_size : ℕ
page_size = 4096

-- A mapping: its address, and the words of 32 bits at it.
pub record Mapping : Type 0 where
  pub address : ℕ
  pub words : List ℕ

-- What the `i`-th call of `alloc_page` gives, and what `vm_map_ram` gives for the pages.
pub record Kernel : Type 0 where
  pub alloc_page : ℕ → Option ℕ
  pub vm_map_ram : List (Option ℕ) → Option Mapping

-- A call that the module has made, with what it has given.
pub data Call : Type 0 where
  alloc_page : Option ℕ → Call
  vm_map_ram : Option ℕ → Call
  vm_unmap_ram : ℕ → ℕ → Call
  free_pages : ℕ → ℕ → Call

-- The variables `addr` and `pages`, the words at `addr`, and the calls so far.
pub record TestModule : Type 0 where
  pub addr : Option ℕ
  pub pages : List (Option ℕ)
  pub words : List ℕ
  pub calls : List Call

-- The variables before `init_dentryref`.
abbrev pub loaded : TestModule
loaded = record { addr = none; pages = replicate npage none; words = []; calls = [] }

abbrev pub called : TestModule → Call → TestModule
called m call = record m { calls = m.calls ++ (call ∷ []) }

-- The loop of `cleanup` over `pages` from entry `i` on, with `rounds` entries left.
unfoldable pub free_loop : ℕ → TestModule → ℕ → Run TestModule
free_loop zero m i = ok m
free_loop (suc rounds) m i = elim (get_elem? m.pages i) [
  | none ↦ stop out_of_bounds
  | some none ↦ free_loop rounds m (i + 1)
  | some (some page) ↦ free_loop rounds (called m (free_pages page 0)) (i + 1)
]

unfoldable pub cleanup : TestModule → Run TestModule
cleanup m =
    let unmapped : TestModule = elim m.addr [
      | none ↦ m
      | some at ↦ called m (vm_unmap_ram at npage)
    ] in
    free_loop npage unmapped 0

-- The loop that allocates the pages; `false` is the jump to `err`.
unfoldable pub alloc_loop : Kernel → ℕ → TestModule → ℕ → Bool × TestModule
alloc_loop k zero m i = (true, m)
alloc_loop k (suc rounds) m i =
    let got = k.alloc_page i in
    let m' = record (called m (alloc_page got)) { pages = overwrite m.pages i (got ∷ []) } in
    let rest = alloc_loop k rounds m' (i + 1) in elim got [ none ↦ (false, m') | some page ↦ rest ]

-- `((uint32_t *)addr)[i] = val++`, with `rounds` words left.
unfoldable pub fill_loop : ℕ → List ℕ → ℕ → ℕ → Run (List ℕ)
fill_loop zero words val i = ok words
fill_loop (suc rounds) words val i =
    let rest = fill_loop rounds (overwrite words i (val ∷ [])) ((val + 1) % 2 ^ 32) (i + 1) in
    if ltb i (length words) then rest else stop out_of_bounds

-- `err`
abbrev pub err : TestModule → Run (Bool × TestModule)
err m = do m' ← cleanup m; ok (false, m')

-- `init_dentryref` when the pages are allocated.
unfoldable pub map_pages : Kernel → TestModule → Run (Bool × TestModule)
map_pages k m = elim (k.vm_map_ram m.pages) [
  | none ↦ err (record (called m (vm_map_ram none)) { addr = none })
  | some at ↦ do
    words ← fill_loop (npage * page_size / 4) at.words 0 0
    let mapped = called m (vm_map_ram (some at.address))
    ok (true, record mapped { addr = some at.address; words = words })
]

-- The result is whether 0 is returned, and not -1.
unfoldable pub init_dentryref : Kernel → TestModule → Run (Bool × TestModule)
init_dentryref k m =
    let (is_done, m') = alloc_loop k npage m 0 in if is_done then map_pages k m' else err m'

abbrev pub exit_dentryref : TestModule → Run TestModule
exit_dentryref m = cleanup m

-- The module is loaded, and unloaded again if that has succeeded.
unfoldable pub lifetime : Kernel → Run TestModule
lifetime k = do
  (is_loaded, m) ← init_dentryref k loaded
  if is_loaded then exit_dentryref m else ok m
