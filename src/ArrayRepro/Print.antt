-- ===== src/ArrayRepro/Print.antt =====
-- `assoc_array_print` shows the tree that the nodes stand for (assoc_array_gc/repro.c).
use kernel_stuff.Common.{
  ℕ, zero, suc, ◌+◌, ◌<◌, ◌≡◌, refl, sym, ap, ◌∙◌, [], ◌∷◌, ◌++◌, append-nil, append_assoc, length,
  length-append, arith,
}
use kernel_stuff.Common.Run.{ok}
use kernel_stuff.ArrayRepro.{
  Ptr, null, node, Heap, load_node, zeroed, print_slots, print_ptr, make_array, run_stmts,
  AssocArray, assoc_array_print,
}
use kernel_stuff.ArrayRepro.Steps.{load_node-middle, with_slots}
use kernel_stuff.ArrayRepro.Trees.{
  Tree, Slots, tree, end, empty, word, child, IsTree, construct_node, size, size_slots, ptrs,
  flatten, flatten_slots, length-flatten, render, render_slots,
}
use kernel_stuff.ArrayRepro.Build.{build_tree}

mutual
  unfolding print_ptr print_slots render size flatten ptrs

  print_tree :
      (t : Tree) (back : Ptr) (at level index fuel : ℕ) (h pre post : Heap)
      → h ≡ pre ++ (flatten back at t ++ post)
      → length pre ≡ at
      → size t < fuel
      → print_ptr fuel h (node at) level index ≡ ok (render t at level index)
  print_tree (tree slot nr s) back at level index zero h pre post e place enough = ground arith
  print_tree (tree slot nr s) back at level index (suc fuel) h pre post e place enough =
      let n = with_slots back slot nr (ptrs (at + 1) s) in
      rw
        (
          ap (λ heap. load_node heap at) e
              ∙ load_node-middle pre n (flatten_slots at (at + 1) s ++ post) at place,
          print_children s at (at + 1) (level + 1) 0 fuel h (pre ++ (n ∷ [])) post
              (e ∙ sym (append_assoc pre (n ∷ []) (flatten_slots at (at + 1) s ++ post)))
              (omega (arith, length-append pre (n ∷ []))) (omega arith),
        )
        refl

  print_children :
      (s : Slots) (parent at level index fuel : ℕ) (h pre post : Heap)
      → h ≡ pre ++ (flatten_slots parent at s ++ post)
      → length pre ≡ at
      → size_slots s < fuel
      → print_slots (print_ptr fuel h) (ptrs at s) level index ≡ ok (render_slots s at level index)
  print_children s parent at level index zero h pre post e place enough = ground arith
  print_children end parent at level index (suc fuel) h pre post e place enough = refl
  print_children (empty s) parent at level index (suc fuel) h pre post e place enough =
      rw (print_children s parent at level (index + 1) (suc fuel) h pre post e place enough) refl
  print_children (word w s) parent at level index (suc fuel) h pre post e place enough =
      rw (print_children s parent at level (index + 1) (suc fuel) h pre post e place enough) refl
  print_children (child t s) parent at level index (suc fuel) h pre post e place enough =
      let below = flatten (node parent) at t in
      let later = flatten_slots parent (at + size t) s in
      let split : h ≡ pre ++ (below ++ (later ++ post)) =
        e ∙ ap (λ more. pre ++ more) (append_assoc below later post) in
      rw
        (
          print_tree t (node parent) at level index (suc fuel) h pre (later ++ post) split place
              (omega arith),
          print_children s parent (at + size t) level (index + 1) (suc fuel) h (pre ++ below) post
              (split ∙ sym (append_assoc pre below (later ++ post)))
              (omega (arith, length-append pre below, length-flatten t (node parent) at))
              (omega arith),
        )
        refl

-- The array that stands for a tree.
abbrev pub array_of : ℕ → Tree → AssocArray
array_of nr t = record { root = node 0; nr_leaves_on_tree = nr; heap = flatten null 0 t }

-- If the numbers of a tree fit the members of a node and every node has its sixteen slots, `make_array`
-- on the statements that assoc_array_constructor.py makes of the tree returns the tree's nodes, each
-- behind its parent and linked to it both ways; and, if there is more fuel than the tree has nodes,
-- printing that array shows the tree: each node and each leaf once, with its level and its slot.
pub make_array-print :
    (t : Tree) (nr fuel : ℕ)
    → IsTree t
    → size t < fuel
    → (make_array nr (construct_node t) ≡ ok (array_of nr t))
      × (assoc_array_print fuel (array_of nr t) ≡ ok (render t 0 0 0))
unfolding make_array run_stmts
make_array-print t nr fuel fits enough =
    let built : run_stmts (construct_node t) (zeroed ∷ []) 0 ≡ ok (flatten null 0 t, 0) =
      ap (λ stmts. run_stmts stmts (zeroed ∷ []) 0) (sym (append-nil (construct_node t)))
      ∙ build_tree t fits null [] 0 [] refl in
    let printed =
      print_tree t null 0 0 0 fuel (flatten null 0 t) [] [] (sym (append-nil (flatten null 0 t)))
        refl enough in
    (rw built refl, printed)
