-- ===== src/ArrayRepro/Steps.antt =====
-- What the statements of assoc_array_gc/construct_array.c do to a node whose slots are filled in order.
use kernel_stuff.Common.{
  get_elem?, some, ℕ, ◌+◌, ◌%◌, ◌<◌, ◌≡◌, refl, sym, ap, ◌≢◌, true, false, List, [], ◌∷◌, ◌++◌,
  append_assoc, ltb, ◌==◌, ==_iff, length, arith, get_elem?-of_drop, length-append, drop-append_ge,
  overwrite-one, overwrite-middle,
}
use kernel_stuff.Common.Run.{◌>>=◌, ok, ◌>>=◌}
use kernel_stuff.ArrayRepro.{
  node_in, fan_out, Ptr, null, leaf, node, Node, Heap, load_node, store_node, zeroed, set_slot,
  set_node, set_leaf, get_node, get_parent, Stmt, run_stmt, run_stmts,
}

-- A node in the middle of the others.
pub load_node-middle :
    (pre : Heap) (n : Node) (post : Heap) (at : ℕ)
    → length pre ≡ at
    → load_node (pre ++ (n ∷ post)) at ≡ ok n
load_node-middle pre n post at h =
    let (here, next) =
      get_elem?-of_drop at (pre ++ (n ∷ post)) n post
        (drop-append_ge at 0 pre (n ∷ post) (omega arith)) in
    rw (here, load_node) refl

pub store_node-middle :
    (pre : Heap) (n : Node) (post : Heap) (at : ℕ) (n' : Node)
    → length pre ≡ at
    → store_node (pre ++ (n ∷ post)) at n' ≡ pre ++ (n' ∷ post)
store_node-middle pre n post at n' h = overwrite-middle pre (n ∷ []) post (n' ∷ []) at h refl

-- A node with these slots.
abbrev pub with_slots : Ptr → ℕ → ℕ → List Ptr → Node
with_slots back slot nr slots = record {
  back_pointer = back;
  parent_slot = slot;
  slots = slots;
  nr_leaves_on_branch = nr;
}

module _ (back : Ptr) (slot nr : ℕ) (pre : Heap) (at : ℕ) (place : length pre ≡ at) where
  -- The nodes when the slots before `rest` are filled.
  abbrev pub partly : List Ptr → List Ptr → Heap → Heap
  partly filled rest sofar = pre ++ (with_slots back slot nr (filled ++ rest) ∷ sofar)

  set_slot_lem :
      (filled rest : List Ptr) (old : Ptr) (sofar : Heap) (index : ℕ) (ptr : Ptr)
      → length filled ≡ index
      → index < fan_out
      → set_slot (partly filled (old ∷ rest) sofar) at index ptr
        ≡ ok (partly (filled ++ (ptr ∷ [])) rest sofar)
  unfolding set_slot
  set_slot_lem filled rest old sofar index ptr h low =
      let test : ltb index fan_out ≡ true = ground arith in
      rw
        (
          load_node-middle pre (with_slots back slot nr (filled ++ (old ∷ rest))) sofar at place,
          test,
          overwrite-one filled old rest ptr index h,
          store_node-middle pre (with_slots back slot nr (filled ++ (old ∷ rest))) sofar at
              (with_slots back slot nr ((filled ++ (ptr ∷ [])) ++ rest)) place,
        )
        refl

  pub set_leaf_lem :
      (filled rest : List Ptr) (sofar : Heap) (index w : ℕ)
      → length filled ≡ index
      → index < fan_out
      → w ≢ 0
      → w % 2 ≡ 0
      → set_leaf (partly filled (null ∷ rest) sofar) at index w
        ≡ ok (partly (filled ++ (leaf w ∷ [])) rest sofar)
  unfolding set_leaf
  set_leaf_lem filled rest sofar index w h low some_word even =
      let untagged : (w % 2 == 0) ≡ true = (==_iff _ _).1 even in
      let present : (w == 0) ≡ false = ground arith in
      rw (untagged, present) (set_slot_lem filled rest null sofar index (leaf w) h low)

  -- The new node is the last one.
  store_child :
      (filled rest : List Ptr) (sofar : Heap) (a : ℕ)
      → a ≡ at + 1 + length sofar
      → (do
        n ← load_node (partly (filled ++ (node a ∷ [])) rest (sofar ++ (zeroed ∷ []))) a
        ok (
            store_node
              (partly (filled ++ (node a ∷ [])) rest (sofar ++ (zeroed ∷ [])))
              a
              (record n { back_pointer = node at })))
        ≡ ok (
            partly
              (filled ++ (node a ∷ []))
              rest
              (sofar ++ (record zeroed { back_pointer = node at } ∷ [])))
  store_child filled rest sofar a next =
      let parent = with_slots back slot nr ((filled ++ (node a ∷ [])) ++ rest) in
      let child = record zeroed { back_pointer = node at } in
      let last : length (pre ++ (parent ∷ sofar)) ≡ a =
        omega (arith, length-append pre (parent ∷ sofar)) in
      rw
        (
          sym (append_assoc pre (parent ∷ sofar) (zeroed ∷ [])),
          load_node-middle (pre ++ (parent ∷ sofar)) zeroed [] a last,
          store_node-middle (pre ++ (parent ∷ sofar)) zeroed [] a child last,
        )
        (ap ok (append_assoc pre (parent ∷ sofar) (child ∷ [])))

  pub set_node_lem :
      (filled rest : List Ptr) (sofar : Heap) (index a : ℕ)
      → length filled ≡ index
      → index < fan_out
      → a ≡ at + 1 + length sofar
      → set_node (partly filled (null ∷ rest) sofar) at index
        ≡ ok (
            partly
              (filled ++ (node a ∷ []))
              rest
              (sofar ++ (record zeroed { back_pointer = node at } ∷ [])))
  unfolding set_node
  set_node_lem filled rest sofar index a h low next =
      let fresh : length (partly filled (null ∷ rest) sofar) ≡ a =
        omega
          (arith, length-append pre (with_slots back slot nr (filled ++ (null ∷ rest)) ∷ sofar)) in
      let child = record zeroed { back_pointer = node at } in
      rw
        (
          fresh,
          append_assoc pre (with_slots back slot nr (filled ++ (null ∷ rest)) ∷ sofar)
              (zeroed ∷ []),
          set_slot_lem filled rest null (sofar ++ (zeroed ∷ [])) index (node a) h low,
        )
        (store_child filled rest sofar a next)

  pub get_node_lem :
      (filled rest : List Ptr) (sofar : Heap) (index a : ℕ)
      → length filled ≡ index
      → get_node (partly (filled ++ (node a ∷ [])) rest sofar) at index ≡ ok a
  unfolding get_node
  get_node_lem filled rest sofar index a h =
      let slots : List Ptr = (filled ++ (node a ∷ [])) ++ rest in
      let here : get_elem? slots index ≡ some (node a) =
        rw (append_assoc filled (node a ∷ []) rest)
          (get_elem?-of_drop index (filled ++ (node a ∷ rest)) (node a) rest
            (drop-append_ge index 0 filled (node a ∷ rest) (omega arith))).0 in
      rw (load_node-middle pre (with_slots back slot nr slots) sofar at place) (ap node_in here)

  pub get_parent_lem :
      (n : Node) (post : Heap) (parent : ℕ)
      → n.back_pointer ≡ node parent
      → get_parent (pre ++ (n ∷ post)) at ≡ ok parent
  unfolding get_parent
  get_parent_lem n post parent up = rw (load_node-middle pre n post at place, up) refl

-- One statement of several.
pub run_stmts-cons :
    (s : Stmt) (stmts : List Stmt) (h : Heap) (at : ℕ) (h' : Heap) (at' : ℕ)
    → run_stmt s h at ≡ ok (h', at')
    → run_stmts (s ∷ stmts) h at ≡ run_stmts stmts h' at'
unfolding run_stmts
run_stmts-cons s stmts h at h' at' e = rw e refl
