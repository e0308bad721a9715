-- ===== src/ArrayRepro/Trees.antt =====
-- Associative arrays as trees: the statements that assoc_array_gc/assoc_array_constructor.py makes of
-- one, the nodes that it stands for, and the lines that show it.
use kernel_stuff.Common.{
  ℕ, suc, refl, length, length-append, arith, ◌+◌, ◌%◌, ◌^◌, ◌<◌, ◌≡◌, ◌≢◌, List, [], ◌∷◌, ◌++◌,
}
use kernel_stuff.ArrayRepro.{
  fan_out, Ptr, null, leaf, node, Node, Stmt, do_set_data, do_set_node, do_get_node, do_set_leaf,
  do_get_parent, Line, leaf_line, node_line,
}

-- A node with its parent slot, its number of leaves and its slots, each of which is empty, holds the
-- word of a leaf, or a node.
mutual
  pub data Tree : Type 0 where
    tree : ℕ → ℕ → Slots → Tree

  pub data Slots : Type 0 where
    end : Slots
    empty : Slots → Slots
    word : ℕ → Slots → Slots
    child : Tree → Slots → Slots

abbrev pub count : Slots → ℕ
count end = 0
count (empty s) = suc (count s)
count (word w s) = suc (count s)
count (child t s) = suc (count s)

-- What fits the members of `struct assoc_array_node`.
unfoldable mutual
  pub IsTree : Tree → Type 0
  IsTree (tree slot nr s) = (slot < 2 ^ 8) × (nr < 2 ^ 64) × (count s ≡ fan_out) × AllSlots s

  pub AllSlots : Slots → Type 0
  AllSlots end = Unit {0}
  AllSlots (empty s) = AllSlots s
  AllSlots (word w s) = (w ≢ 0) × (w % 2 ≡ 0) × AllSlots s
  AllSlots (child t s) = IsTree t × AllSlots s

-- `construct_node`, and its loop from `index` on.
unfoldable mutual
  pub construct_node : Tree → List Stmt
  construct_node (tree slot nr s) = do_set_data slot nr ∷ construct_slots 0 s

  pub construct_slots : ℕ → Slots → List Stmt
  construct_slots index end = []
  construct_slots index (empty s) = construct_slots (index + 1) s
  construct_slots index (word w s) = do_set_leaf index w ∷ construct_slots (index + 1) s
  construct_slots index (child t s) =
      do_set_node index
      ∷ do_get_node index
      ∷ (construct_node t ++ (do_get_parent ∷ construct_slots (index + 1) s))

-- The number of nodes.
unfoldable mutual
  pub size : Tree → ℕ
  size (tree slot nr s) = suc (size_slots s)

  pub size_slots : Slots → ℕ
  size_slots end = 0
  size_slots (empty s) = size_slots s
  size_slots (word w s) = size_slots s
  size_slots (child t s) = size t + size_slots s

-- The slots of a node whose children begin at an address.
unfoldable pub ptrs : ℕ → Slots → List Ptr
unfolding size
ptrs at end = []
ptrs at (empty s) = null ∷ ptrs at s
ptrs at (word w s) = leaf w ∷ ptrs at s
ptrs at (child t s) = node at ∷ ptrs (at + size t) s

-- The nodes of a tree at an address, with the pointer to its parent: a node stands before its
-- children, and each of them before the next.
unfoldable mutual
  pub flatten : Ptr → ℕ → Tree → List Node
  flatten back at (tree slot nr s) =
      record {
        back_pointer = back;
        parent_slot = slot;
        slots = ptrs (at + 1) s;
        nr_leaves_on_branch = nr;
      }
      ∷ flatten_slots at (at + 1) s

  pub flatten_slots : ℕ → ℕ → Slots → List Node
  flatten_slots parent at end = []
  flatten_slots parent at (empty s) = flatten_slots parent at s
  flatten_slots parent at (word w s) = flatten_slots parent at s
  flatten_slots parent at (child t s) =
      flatten (node parent) at t ++ flatten_slots parent (at + size t) s

-- The lines for a tree at an address, with the level and the index of its node.
unfoldable mutual
  pub render : Tree → ℕ → ℕ → ℕ → List Line
  render (tree slot nr s) at level index =
      node_line level index at ∷ render_slots s (at + 1) (level + 1) 0

  pub render_slots : Slots → ℕ → ℕ → ℕ → List Line
  render_slots end at level index = []
  render_slots (empty s) at level index = render_slots s at level (index + 1)
  render_slots (word w s) at level index =
      leaf_line level index w ∷ render_slots s at level (index + 1)
  render_slots (child t s) at level index =
      render t at level index ++ render_slots s (at + size t) level (index + 1)

-- The addresses of a tree are in a row.
mutual
  unfolding flatten size

  pub length-flatten : (t : Tree) (back : Ptr) (at : ℕ) → length (flatten back at t) ≡ size t
  length-flatten (tree slot nr s) back at = omega (arith, length-flatten_slots s at (at + 1))

  pub length-flatten_slots :
      (s : Slots) (parent at : ℕ) → length (flatten_slots parent at s) ≡ size_slots s
  length-flatten_slots end parent at = refl
  length-flatten_slots (empty s) parent at = length-flatten_slots s parent at
  length-flatten_slots (word w s) parent at = length-flatten_slots s parent at
  length-flatten_slots (child t s) parent at = omega (
    arith,
    length-flatten t (node parent) at,
    length-flatten_slots s parent (at + size t),
    length-append (flatten (node parent) at t) (flatten_slots parent (at + size t) s),
  )
