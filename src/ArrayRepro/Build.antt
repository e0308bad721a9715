-- ===== src/ArrayRepro/Build.antt =====
-- The statements of a tree build its nodes (assoc_array_gc/repro.c).
use kernel_stuff.Common.{
  ℕ, ◌+◌, ◌%◌, ◌^◌, ◌<◌, ◌≡◌, refl, sym, ap, ◌∙◌, List, [], ◌∷◌, ◌++◌, append-nil, append_assoc,
  length, length-append, arith, replicate,
}
use kernel_stuff.Common.Run.{ok}
use kernel_stuff.ArrayRepro.{
  fan_out, Ptr, null, leaf, node, Heap, zeroed, set_data, get_parent, Stmt, do_set_data,
  do_set_node, do_get_node, do_set_leaf, do_get_parent, run_stmt, run_stmts,
}
use kernel_stuff.ArrayRepro.Steps.{
  load_node-middle, store_node-middle, with_slots, partly, set_leaf_lem, set_node_lem, get_node_lem,
  get_parent_lem, run_stmts-cons,
}
use kernel_stuff.ArrayRepro.Trees.{
  Tree, Slots, tree, end, empty, word, child, count, IsTree, AllSlots, construct_node,
  construct_slots, size, ptrs, flatten, flatten_slots, length-flatten,
}

-- That the statements of a tree, run at its zeroed node, build its nodes.
abbrev Builds : Tree → Type 0
Builds t =
    (back : Ptr) (pre : Heap) (at : ℕ) (stmts : List Stmt)
    → length pre ≡ at
    → run_stmts (construct_node t ++ stmts) (pre ++ (record zeroed { back_pointer = back } ∷ [])) at
      ≡ run_stmts stmts (pre ++ flatten back at t) at

-- The parent of a tree that stands at an address.
flatten-parent :
    (t : Tree) (pre : Heap) (at parent : ℕ)
    → length pre ≡ at
    → get_parent (pre ++ flatten (node parent) at t) at ≡ ok parent
unfolding flatten
flatten-parent (tree slot nr s) pre at parent place =
    get_parent_lem null slot nr pre at place _ _ parent refl

module _ (back : Ptr) (slot nr : ℕ) (pre : Heap) (at : ℕ) (place : length pre ≡ at) where
  -- The statements of one slot that holds a node.
  child_lem :
      (t : Tree) (filled rest : List Ptr) (sofar : Heap) (index a : ℕ) (stmts : List Stmt)
      → Builds t
      → length filled ≡ index
      → index < fan_out
      → a ≡ at + 1 + length sofar
      → run_stmts
          (do_set_node index ∷ do_get_node index ∷ (construct_node t ++ (do_get_parent ∷ stmts)))
          (partly back slot nr pre at place filled (null ∷ rest) sofar)
          at
        ≡ run_stmts stmts
            (partly back slot nr pre at place
              (filled ++ (node a ∷ []))
              rest
              (sofar ++ flatten (node at) a t))
            at
  unfolding run_stmt
  child_lem t filled rest sofar index a stmts builds count low next =
      let parent = with_slots back slot nr ((filled ++ (node a ∷ [])) ++ rest) in
      let new = record zeroed { back_pointer = node at } in
      let before = partly back slot nr pre at place filled (null ∷ rest) sofar in
      let linked =
        partly back slot nr pre at place (filled ++ (node a ∷ [])) rest (sofar ++ (new ∷ [])) in
      let last : length (pre ++ (parent ∷ sofar)) ≡ a =
        omega (arith, length-append pre (parent ∷ sofar)) in
      run_stmts-cons (do_set_node index) _ before at linked at
        (rw (set_node_lem back slot nr pre at place filled rest sofar index a count low next) refl)
      ∙ run_stmts-cons (do_get_node index) _ linked at linked a (
          rw
            (get_node_lem back slot nr pre at place filled rest (sofar ++ (new ∷ [])) index a count)
            refl)
      ∙ ap (λ h. run_stmts (construct_node t ++ (do_get_parent ∷ stmts)) h a)
          (sym (append_assoc pre (parent ∷ sofar) (new ∷ [])))
      ∙ builds (node at) (pre ++ (parent ∷ sofar)) a (do_get_parent ∷ stmts) last
      ∙ run_stmts-cons do_get_parent stmts _ a _ at
          (rw (flatten-parent t (pre ++ (parent ∷ sofar)) a at last) refl)
      ∙ ap (λ h. run_stmts stmts h at) (append_assoc pre (parent ∷ sofar) (flatten (node at) a t))

module _ (back : Ptr) (slot nr : ℕ) (pre : Heap) (at : ℕ) (place : length pre ≡ at) where
  -- A slot more in the nodes.
  regroup :
      (filled rest : List Ptr) (ptr : Ptr) (sofar : Heap)
      → partly back slot nr pre at place (filled ++ (ptr ∷ [])) rest sofar
        ≡ partly back slot nr pre at place filled (ptr ∷ rest) sofar
  regroup filled rest ptr sofar =
      ap (λ slots. pre ++ (with_slots back slot nr slots ∷ sofar))
        (append_assoc filled (ptr ∷ []) rest)

set_data_lem :
    (back : Ptr) (slot nr : ℕ) (pre : Heap) (at : ℕ)
    → slot < 2 ^ 8
    → nr < 2 ^ 64
    → length pre ≡ at
    → set_data (pre ++ (record zeroed { back_pointer = back } ∷ [])) at slot nr
      ≡ ok (pre ++ (with_slots back slot nr (replicate fan_out null) ∷ []))
unfolding set_data
set_data_lem back slot nr pre at low small place =
    let slot_fits : slot % 2 ^ 8 ≡ slot = omega arith in
    let nr_fits : nr % 2 ^ 64 ≡ nr = omega arith in
    let old = record zeroed { back_pointer = back } in
    rw
      (
        slot_fits,
        nr_fits,
        load_node-middle pre old [] at place,
        store_node-middle pre old [] at (with_slots back slot nr (replicate fan_out null)) place,
      )
      refl

-- That the statements of slots fill a node from a slot on, whose children begin at an address.
abbrev Fills : Slots → Type 0
Fills s =
    (back : Ptr) (slot nr : ℕ) (pre : Heap) (at : ℕ) (place : length pre ≡ at) (filled : List Ptr)
    (sofar : Heap) (index a : ℕ) (stmts : List Stmt)
    → length filled ≡ index
    → index + count s ≡ fan_out
    → a ≡ at + 1 + length sofar
    → run_stmts (construct_slots index s ++ stmts)
        (partly back slot nr pre at place filled (replicate (count s) null) sofar) at
      ≡ run_stmts stmts
          (partly back slot nr pre at place filled (ptrs a s) (sofar ++ flatten_slots at a s)) at

mutual
  unfolding construct_node ptrs flatten run_stmt IsTree

  pub build_tree : (t : Tree) → IsTree t → Builds t
  build_tree (tree slot nr s) (low, small, full, fits) back pre at stmts place =
      run_stmts-cons (do_set_data slot nr) _ _ at _ at
        (rw (set_data_lem back slot nr pre at low small place) refl)
      ∙ ap
          (λ n.
            run_stmts (construct_slots 0 s ++ stmts)
              (partly back slot nr pre at place [] (replicate n null) []) at)
          (sym full)
      ∙ build_slots s fits back slot nr pre at place [] [] 0 (at + 1) stmts refl (omega arith)
          (omega arith)

  build_slots : (s : Slots) → AllSlots s → Fills s
  build_slots end fits back slot nr pre at place filled sofar index a stmts h full next =
      ap (λ later. run_stmts stmts (partly back slot nr pre at place filled [] later) at)
        (sym (append-nil sofar))
  build_slots (empty s) fits back slot nr pre at place filled sofar index a stmts h full next =
      ap (λ heap. run_stmts (construct_slots (index + 1) s ++ stmts) heap at)
        (sym (regroup back slot nr pre at place filled (replicate (count s) null) null sofar))
      ∙ build_slots s fits back slot nr pre at place (filled ++ (null ∷ [])) sofar (index + 1) a
          stmts (omega (arith, length-append filled (null ∷ []))) (omega arith) next
      ∙ ap (λ heap. run_stmts stmts heap at)
          (regroup back slot nr pre at place filled (ptrs a s) null (sofar ++ flatten_slots at a s))
  build_slots (word w s) (some_word, even, fits) back slot nr pre at place filled sofar index a
        stmts h full next =
      run_stmts-cons (do_set_leaf index w) _ _ at _ at (
        rw
          (set_leaf_lem back slot nr pre at place filled (replicate (count s) null) sofar index w h
            (omega arith) some_word even)
          refl)
      ∙ build_slots s fits back slot nr pre at place (filled ++ (leaf w ∷ [])) sofar (index + 1) a
          stmts (omega (arith, length-append filled (leaf w ∷ []))) (omega arith) next
      ∙ ap (λ heap. run_stmts stmts heap at)
          (regroup back slot nr pre at place filled (ptrs a s) (leaf w)
            (sofar ++ flatten_slots at a s))
  build_slots (child t s) (fit, fits) back slot nr pre at place filled sofar index a stmts h full
        next =
      let below = flatten (node at) a t in
      let later = flatten_slots at (a + size t) s in
      ap
        (λ all.
          run_stmts (do_set_node index ∷ do_get_node index ∷ all)
            (partly back slot nr pre at place filled (null ∷ replicate (count s) null) sofar) at)
        (append_assoc (construct_node t) (do_get_parent ∷ construct_slots (index + 1) s) stmts)
      ∙ child_lem back slot nr pre at place t filled (replicate (count s) null) sofar index a
          (construct_slots (index + 1) s ++ stmts) (build_tree t fit) h (omega arith) next
      ∙ build_slots s fits back slot nr pre at place (filled ++ (node a ∷ [])) (sofar ++ below)
          (index + 1) (a + size t) stmts (omega (arith, length-append filled (node a ∷ [])))
          (omega arith) (omega (arith, length-append sofar below, length-flatten t (node at) a))
      ∙ ap (λ heap. run_stmts stmts heap at)
          (regroup back slot nr pre at place filled (ptrs (a + size t) s) (node a)
              ((sofar ++ below) ++ later)
            ∙ ap
                (λ more.
                  partly back slot nr pre at place filled (node a ∷ ptrs (a + size t) s) more)
                (append_assoc sofar below later))
