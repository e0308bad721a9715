-- ===== src/ArrayRepro.antt =====
-- assoc_array_gc/repro.c: the helpers that build an associative array from generated statements, and
-- those that print it. A node's address is its place in the order of the calls of `calloc`, which
-- succeed; a pointer is told apart by its tag. The kernel's `assoc_array_gc` is an argument.
pub mod Trees
pub mod Steps
pub mod Build
pub mod Print
mod Tests
use kernel_stuff.Common.{
  ℕ, zero, suc, ◌+◌, ◌/◌, ◌%◌, ◌^◌, Bool, false, ◌||◌, Option, none, some, List, [], ◌∷◌, ◌++◌, ltb,
  ◌==◌, if◌then◌else◌, length, get_elem?, replicate, overwrite,
}
use kernel_stuff.Common.Run.{
  Run, ok, stop, out_of_bounds, null_deref, assertion, out_of_fuel, ◌>>=◌, ◌>>◌, require,
}

-- `ASSOC_ARRAY_FAN_OUT`
abbrev pub fan_out : ℕ
fan_out = 16

-- `struct assoc_array_ptr *`
pub data Ptr : Type 0 where
  null : Ptr
  leaf node shortcut : ℕ → Ptr

-- `struct assoc_array_node`
pub record Node : Type 0 where
  pub back_pointer : Ptr
  pub parent_slot : ℕ
  pub slots : List Ptr
  pub nr_leaves_on_branch : ℕ

abbrev pub Heap : Type 0
Heap = List Node

abbrev pub load_node : Heap → ℕ → Run Node
load_node h at = elim (get_elem? h at) [ none ↦ stop out_of_bounds | some n ↦ ok n ]

abbrev pub store_node : Heap → ℕ → Node → Heap
store_node h at n = overwrite h at (n ∷ [])

-- The bytes of `calloc`.
abbrev pub zeroed : Node
zeroed = record {
  back_pointer = null;
  parent_slot = 0;
  slots = replicate fan_out null;
  nr_leaves_on_branch = 0;
}

abbrev pub mknode : Heap → ℕ × Heap
mknode h = (length h, h ++ (zeroed ∷ []))

unfoldable pub set_data : Heap → ℕ → ℕ → ℕ → Run Heap
set_data h at slot nr = do
  n ← load_node h at
  ok (store_node h at (record n { parent_slot = slot % 2 ^ 8; nr_leaves_on_branch = nr % 2 ^ 64 }))

-- `parent->slots[index] = ptr`
unfoldable pub set_slot : Heap → ℕ → ℕ → Ptr → Run Heap
set_slot h at index ptr = do
  n ← load_node h at
  require (ltb index fan_out) out_of_bounds
  ok (store_node h at (record n { slots = overwrite n.slots index (ptr ∷ []) }))

unfoldable pub set_node : Heap → ℕ → ℕ → Run Heap
set_node h parent index = do
  let (child, h1) = mknode h
  h2 ← set_slot h1 parent index (node child)
  n ← load_node h2 child
  ok (store_node h2 child (record n { back_pointer = node parent }))

-- A word with a tag would make a wild pointer.
unfoldable pub set_leaf : Heap → ℕ → ℕ → ℕ → Run Heap
set_leaf h parent index word = do
  require (word % 2 == 0) out_of_bounds
  set_slot h parent index (if word == 0 then null else leaf word)

-- `assert(assoc_array_ptr_is_node(ptr))` and the address. `NULL` and a leaf without the second bit pass
-- the assertion, and the next access is undefined.
abbrev pub node_at : Ptr → Run ℕ
node_at null = stop null_deref
node_at (leaf word) = stop (if word / 2 % 2 == 1 then assertion else out_of_bounds)
node_at (node at) = ok at
node_at (shortcut at) = stop assertion

abbrev pub node_in : Option Ptr → Run ℕ
node_in none = stop out_of_bounds
node_in (some ptr) = node_at ptr

unfoldable pub get_node : Heap → ℕ → ℕ → Run ℕ
get_node h parent index = do n ← load_node h parent; node_in (get_elem? n.slots index)

unfoldable pub get_parent : Heap → ℕ → Run ℕ
get_parent h at = do n ← load_node h at; node_at n.back_pointer

-- A statement of construct_array.c on the variable `node`.
pub data Stmt : Type 0 where
  do_set_data : ℕ → ℕ → Stmt
  do_set_node do_get_node : ℕ → Stmt
  do_set_leaf : ℕ → ℕ → Stmt
  do_get_parent : Stmt

unfoldable pub run_stmt : Stmt → Heap → ℕ → Run (Heap × ℕ)
run_stmt (do_set_data slot nr) h at = do h' ← set_data h at slot nr; ok (h', at)
run_stmt (do_set_node index) h at = do h' ← set_node h at index; ok (h', at)
run_stmt (do_get_node index) h at = do at' ← get_node h at index; ok (h, at')
run_stmt (do_set_leaf index word) h at = do h' ← set_leaf h at index word; ok (h', at)
run_stmt do_get_parent h at = do at' ← get_parent h at; ok (h, at')

unfoldable pub run_stmts : List Stmt → Heap → ℕ → Run (Heap × ℕ)
run_stmts [] h at = ok (h, at)
run_stmts (s ∷ stmts) h at = do (h', at') ← run_stmt s h at; run_stmts stmts h' at'

-- `struct assoc_array`, with the nodes.
pub record AssocArray : Type 0 where
  pub root : Ptr
  pub nr_leaves_on_tree : ℕ
  pub heap : Heap

-- `make_array`, with the statements of construct_array.c behind its first three.
unfoldable pub make_array : ℕ → List Stmt → Run AssocArray
make_array nr stmts = do
  let (at, h) = mknode []
  (h', _) ← run_stmts stmts h at
  ok (record { root = node at; nr_leaves_on_tree = nr; heap = h' })

-- What one `printf` is given: the level and index of `prefix`, and what is printed behind them.
pub data Line : Type 0 where
  leaf_line node_line : ℕ → ℕ → ℕ → Line

-- The loop of `assoc_array_print_ptr` over the slots from `index` on.
unfoldable pub print_slots : (Ptr → ℕ → ℕ → Run (List Line)) → List Ptr → ℕ → ℕ → Run (List Line)
print_slots print [] level index = ok []
print_slots print (ptr ∷ ptrs) level index = do
  first ← print ptr level index
  rest ← print_slots print ptrs level (index + 1)
  ok (first ++ rest)

-- `assoc_array_print_ptr`; a call inside it takes fuel.
unfoldable pub print_ptr : ℕ → Heap → Ptr → ℕ → ℕ → Run (List Line)
print_ptr zero h ptr level index = stop out_of_fuel
print_ptr (suc fuel) h null level index = ok []
print_ptr (suc fuel) h (leaf word) level index = ok (leaf_line level index word ∷ [])
print_ptr (suc fuel) h (shortcut at) level index = stop assertion
print_ptr (suc fuel) h (node at) level index = do
  n ← load_node h at
  lines ← print_slots (print_ptr fuel h) n.slots (level + 1) 0
  ok (node_line level index at ∷ lines)

abbrev pub assoc_array_print : ℕ → AssocArray → Run (List Line)
assoc_array_print fuel array = print_ptr fuel array.heap array.root 0 0

-- The loop of `my_iterator` over an array of addresses.
unfoldable pub is_kept : List ℕ → ℕ → Bool
is_kept [] object = false
is_kept (data_to_keep ∷ others) object = (data_to_keep == object) || is_kept others object

-- `datas_to_keep`
abbrev pub datas_to_keep : List ℕ
datas_to_keep =
    0xffff88bab100fa00 ∷ 0xffff88bd8d224e00 ∷ 0xffff88bcdb35fe00 ∷ 0xffff88b100e37600
    ∷ 0xffff887b0cd30400 ∷ 0xffff88b1c0c7fe00 ∷ 0xffff88bd5ed59c00 ∷ 0xffff88b1c0db3f00
    ∷ 0xffff887b0cd30c00 ∷ 0xffff887b0cd30000 ∷ 0xffff887b0cd31c00 ∷ 0xffff887b0cd31300
    ∷ 0xffff887b0cd31a00 ∷ 0xffff887a71cbf000 ∷ 0xffff8875250cdf00 ∷ []

abbrev pub my_iterator : ℕ → Bool
my_iterator object = is_kept datas_to_keep object

-- `main`: what it prints before and after the garbage collection `gc`, whose result is not used.
unfoldable pub main :
    ((ℕ → Bool) → AssocArray → Run AssocArray) → ℕ → ℕ → List Stmt → Run (List Line × List Line)
main gc fuel nr stmts = do
  array ← make_array nr stmts
  before ← assoc_array_print fuel array
  collected ← gc my_iterator array
  after ← assoc_array_print fuel collected
  ok (before, after)
