-- ===== src/ArrayRepro/Tests.antt =====
-- The program on a small tree (assoc_array_gc/repro.c).
use kernel_stuff.Common.{ℕ, zero, suc, ◌<◌, ◌≡◌, refl, Bool, true, false, List, [], ◌∷◌, arith}
use kernel_stuff.Common.Run.{Run, ok}
use kernel_stuff.ArrayRepro.{
  run_stmts, run_stmt, set_data, set_node, set_slot, set_leaf, get_node, get_parent, print_ptr,
  print_slots, is_kept, AssocArray, Line, leaf_line, node_line, make_array, assoc_array_print,
  my_iterator, main,
}
use kernel_stuff.ArrayRepro.Trees.{
  Tree, Slots, tree, end, empty, word, child, IsTree, AllSlots, construct_node, render, size,
}
use kernel_stuff.ArrayRepro.Print.{array_of, make_array-print}

-- Empty slots before others.
abbrev empties : ℕ → Slots → Slots
empties zero s = s
empties (suc n) s = empty (empties n s)

-- A node with a leaf and a child, which has two leaves.
abbrev below : Tree
below = tree 2 2 (word 0x100 (empties 14 (word 0xffff88bab100fa00 end)))

abbrev sample : Tree
sample = tree 0 3 (empty (word 0x200 (child below (empties 13 end))))

sample-IsTree : IsTree sample
unfolding IsTree
sample-IsTree =
    let leaves : AllSlots (word 0x100 (empties 14 (word 0xffff88bab100fa00 end))) =
      (omega arith, refl, (omega arith, refl, tt)) in
    (
      omega arith,
      omega arith,
      refl,
      (omega arith, refl, ((omega arith, omega arith, refl, leaves), tt)),
    )

sample-size : size sample < 3
unfolding size
sample-size = omega arith

sample_lines : List Line
sample_lines =
    node_line 0 0 0
    ∷ leaf_line 1 1 0x200
    ∷ node_line 1 2 1
    ∷ leaf_line 2 0 0x100
    ∷ leaf_line 2 15 0xffff88bab100fa00
    ∷ []

sample-render : render sample 0 0 0 ≡ sample_lines
unfolding render size sample_lines
sample-render = refl

make_array-print_example :
    (make_array 3 (construct_node sample) ≡ ok (array_of 3 sample))
    × (assoc_array_print 3 (array_of 3 sample) ≡ ok (render sample 0 0 0))
make_array-print_example = make_array-print sample 3 3 sample-IsTree sample-size

-- A collection that keeps everything.
abbrev keep_all : (ℕ → Bool) → AssocArray → Run AssocArray
keep_all keep array = ok array

-- `main` with it, and an object that the iterator accepts.
main-run : main keep_all 3 3 (construct_node sample) ≡ ok (sample_lines, sample_lines)
unfolding main make_array run_stmts run_stmt set_data set_node set_slot set_leaf get_node get_parent
    construct_node print_ptr print_slots sample_lines
main-run = refl

kept : my_iterator 0xffff88bab100fa00 ≡ true
unfolding is_kept
kept = refl

not_kept : my_iterator 0x100 ≡ false
unfolding is_kept
not_kept = refl
