-- ===== src/Tests/Trees.antt =====
-- Inputs for the root trees of BTRFS: strings are numbers, the empty one 0.
use file_system_forensics.Base.{
  arith, true, ◌↔◌, ◌⊎◌, Bool, List, Option, [], none, refl, some, ℕ, ◌==◌, ◌∷◌, ◌≡◌,
}
use file_system_forensics.Btrfs.Nodes.{GenericNode, Item, leaf_node}
use file_system_forensics.Btrfs.Trees.{
  FsTree, FsTreeMap, RootEntry, discover_trees, other_item, root_item, root_ref,
}
use file_system_forensics.Btrfs.Trees.Latest.{NodesTell, discover_trees-latest}
use file_system_forensics.Btrfs.Trees.Told.{known_tree, latest, name_told, place_told}
use file_system_forensics.Go.{ok}
use file_system_forensics.Utils.Unmarshal.{Struct, get_num, num, uint64, uint8}

abbrev same_name : ℕ → ℕ → Bool
same_name a b = a == b

-- A data item is a pair of numbers: the place and the uuid of a root, or a name.
abbrev root_of : ℕ × ℕ → Option (ℕ × ℕ)
root_of d = some d

abbrev ref_of : ℕ × ℕ → Option ℕ
ref_of d = some d.1

abbrev key_of : ℕ → ℕ → ℕ → Struct
key_of id code offset =
    record { name = "ObjectID"; kind = uint64; value = num id }
    ∷ record { name = "ItemType"; kind = uint8; value = num code }
    ∷ record { name = "Offset"; kind = uint64; value = num offset }
    ∷ []

abbrev item_of : ℕ → ℕ → ℕ → Item
item_of id code offset = record { key = key_of id code offset; fields = [] }

-- The reference to tree 256 comes before its root item, which a second node repeats.
abbrev root_nodes : List (GenericNode (ℕ × ℕ))
root_nodes =
    record {
      header = [];
      body =
          leaf_node (item_of 5 0x9c 256 ∷ item_of 256 0x84 0 ∷ item_of 256 0x60 0 ∷ [])
            (some (0, 7) ∷ some (4096, 11) ∷ none ∷ []);
    }
    ∷ record { header = []; body = leaf_node (item_of 256 0x84 0 ∷ []) (some (8192, 11) ∷ []) }
    ∷ []

abbrev root_entries : List (RootEntry ℕ)
root_entries = root_ref 256 5 7 ∷ root_item 256 4096 11 ∷ other_item ∷ root_item 256 8192 11 ∷ []

root_nodes-tell : NodesTell 0 same_name root_of ref_of root_nodes root_entries
unfolding get_num
root_nodes-tell = (
  _,
  _,
  root_ref 256 5 7 ∷ root_item 256 4096 11 ∷ other_item ∷ [],
  root_item 256 8192 11 ∷ [],
  refl,
  (
    (refl, refl, refl, ((0, 7), _, refl, refl)),
    (
      (refl, refl, ((4096, 11), _, refl, refl)),
      (((λ e. absurd (omega (arith, e))), (λ e. absurd (omega (arith, e)))), tt),
    ),
  ),
  (
    _,
    _,
    root_item 256 8192 11 ∷ [],
    [],
    refl,
    ((refl, refl, ((8192, 11), _, refl, refl)), tt),
    refl,
    refl,
  ),
  refl,
)

discover_trees-latest_example :
    (trees : FsTreeMap ℕ) × (discover_trees 0 same_name root_of ref_of root_nodes 7 ≡ ok trees)
    × ((id : ℕ) (f : FsTree ℕ)
        → (trees id ≡ some f) ↔ (
            (known_tree 0 (latest (place_told id) root_entries) (latest (name_told id) root_entries)
              ≡ some f)
            × ((same_name 7 0 ≡ true) ⊎ (same_name f.name 7 ≡ true))))
discover_trees-latest_example =
    discover_trees-latest 0 same_name root_of ref_of root_nodes 7 root_entries root_nodes-tell
