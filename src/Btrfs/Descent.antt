-- ===== src/Btrfs/Descent.antt =====
-- The descent into a tree: `CreateNode`, `ParseTreeNode` and `DiscoverTrees` of
-- disk/volume/btrfs.go with the `Stack` of FS/BTRFS/btrfs.go. The disk reader is a parameter.
pub mod Leaves
use file_system_forensics.Base.{
  Bool, Bytes, List, Option, [], false, if◌then◌else◌, map, none, some, suc, true, zero, ℕ, ◌%◌,
  ◌++◌, ◌+◌, ◌^◌, ◌∷◌,
}
use file_system_forensics.Base.Int.{ltb_ℤ, signed}
use file_system_forensics.Btrfs.Chunks.{ChunkTreeMap, locate}
use file_system_forensics.Btrfs.Nodes.{
  GenericNode, address_of, internal_node, leaf_node, parse_node,
}
use file_system_forensics.Go.{Result, Slice, crash, err, ok, stuck, ◌>>=◌}
use file_system_forensics.Utils.Layout.{size}

-- `Push` and `Pop` of the stack, whose top is the last node.
unfoldable pub push {ℓ} : {A : Type ℓ} → List A → A → List A
push nodes node = nodes ++ (node ∷ [])

unfoldable pub pop {ℓ} : {A : Type ℓ} → List A → Result (A × List A)
pop [] = crash
pop (node ∷ []) = ok (node, [])
pop (node ∷ next ∷ nodes) = pop (next ∷ nodes) >>= λ (top, rest). ok (top, node ∷ rest)

abbrev pub is_empty {ℓ} : {A : Type ℓ} → List A → Bool
is_empty [] = true
is_empty (_ ∷ _) = false

module _ {Data : Type 0} (crc : Bytes → ℕ) (parse_data : ℕ → Slice → Result Data)
    (read_file : ℕ → ℕ → Slice) where
  -- `CreateNode`: the addresses are int64 as bit patterns, the reader's error is dropped, and an
  -- address outside every chunk ends the program.
  unfoldable pub create_node : ChunkTreeMap → ℕ → ℕ → Bool → ℕ → Result (GenericNode Data)
  unfolding locate
  create_node chunks partition_offset size verify logical =
      located (locate chunks logical) >>= λ (physical, block_size).
      parse_node crc parse_data verify (
        read_file ((physical + partition_offset) % 2 ^ 64)
          (if ltb_ℤ (signed 64 block_size) (signed 64 size) then block_size else size))
    where
      located : Result (ℕ × ℕ) → Result (ℕ × ℕ)
      located (err e) = crash
      located r = r

-- The pointers of an internal node; a leaf has none.
abbrev pub pointers : {Data : Type 0} → GenericNode Data → Option (List ℕ)
pointers n = elim n.body [
  | leaf_node items found ↦ none
  | internal_node items ↦ some (map address_of items)
]

module _ {Data : Type 0} (create : ℕ → Result (GenericNode Data)) where
  -- A node goes to the stack or to the leaves.
  abbrev pub sort_in :
      GenericNode Data
      → Option (List ℕ)
      → List (GenericNode Data) × List (GenericNode Data)
      → List (GenericNode Data) × List (GenericNode Data)
  sort_in node none (stack, leaves) = (stack, leaves ++ (node ∷ []))
  sort_in node (some _) (stack, leaves) = (push stack node, leaves)

  -- The loop over the items of an internal node: one that cannot be read is left out.
  unfoldable pub parse_child :
      Result (GenericNode Data)
      → List (GenericNode Data) × List (GenericNode Data)
      → Result (List (GenericNode Data) × List (GenericNode Data))
  parse_child (ok node) st = ok (sort_in node (pointers node) st)
  parse_child (err e) st = ok st
  parse_child crash st = crash
  parse_child stuck st = stuck

  unfoldable pub parse_children :
      List ℕ
      → List (GenericNode Data) × List (GenericNode Data)
      → Result (List (GenericNode Data) × List (GenericNode Data))
  unfolding parse_child
  parse_children [] st = ok st
  parse_children (a ∷ rest) st = parse_child (create a) st >>= λ st'. parse_children rest st'

  -- The loop until the stack is empty, with fuel.
  unfoldable pub parse_stack :
      ℕ → List (GenericNode Data) × List (GenericNode Data) → Result (List (GenericNode Data))
  unfolding pop parse_children
  parse_stack zero st = stuck
  parse_stack (suc fuel) (stack, leaves) = elim (is_empty stack) [
    | true ↦ ok leaves
    | false ↦ pop stack >>= λ (node, rest). children_of (pointers node) >>= λ items.
        parse_children items (rest, leaves) >>= λ st. parse_stack fuel st
  ]
    where
      children_of : Option (List ℕ) → Result (List ℕ)
      children_of none = crash
      children_of (some items) = ok items

  -- `ParseTreeNode` from the address of the root.
  unfoldable pub parse_tree_node : ℕ → ℕ → Result (List (GenericNode Data))
  unfolding parse_stack
  parse_tree_node fuel a =
      create a >>= λ node. parse_stack fuel (sort_in node (pointers node) ([], []))
