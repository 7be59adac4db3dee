-- ===== src/Btrfs/Trees.antt =====
-- The root trees of BTRFS: `DiscoverTrees` of disk/volume/btrfs.go. S is the type of strings, with
-- the empty one; what a data item holds is seen through the two type assertions. A Go map is the
-- function that looks a key up. `StringifyUUID` belongs to the view of a root item.
pub mod Told
pub mod Folded
pub mod Latest
use file_system_forensics.Base.{
  Bool, List, Option, [], if◌then◌else◌, none, not, some, ℕ, ◌&&◌, ◌==◌, ◌∷◌,
}
use file_system_forensics.Btrfs.Nodes.{GenericNode, Item, NodeBody, internal_node, leaf_node}
use file_system_forensics.Go.{Result, crash, ok, ◌>>=◌}
use file_system_forensics.Utils.Unmarshal.{get_num}

-- FsTree without its nodes and files, which are set later.
pub record FsTree (S : Type 0) : Type 0 where
  pub parent_id : ℕ
  pub name : S
  pub logical_offset : ℕ
  pub uuid : S

abbrev pub FsTreeMap : Type 0 → Type 0
FsTreeMap S = ℕ → Option (FsTree S)

-- What an item tells of a tree: of a root item its place and uuid, of a reference to a root the
-- parent and the name.
pub data RootEntry (S : Type 0) : Type 0 where
  root_item : ℕ → ℕ → S → RootEntry S
  root_ref : ℕ → ℕ → S → RootEntry S
  other_item : RootEntry S

abbrev or_crash : {A : Type 0} → Option A → Result A
or_crash none = crash
or_crash (some a) = ok a

unfoldable pub set_tree : {S : Type 0} → FsTreeMap S → ℕ → FsTree S → FsTreeMap S
set_tree trees id t k = if id == k then some t else trees k

-- `DataItems[idx]` with its type assertion: nothing there is a panic.
abbrev pub data_at : {Data : Type 0} → List (Option Data) → Result Data
data_at [] = crash
data_at (d ∷ _) = or_crash d

abbrev pub rest_of : {Data : Type 0} → List (Option Data) → List (Option Data)
rest_of [] = []
rest_of (_ ∷ ds) = ds

-- `node.LeafNode` with its items: a nil pointer for an internal node.
abbrev pub leaf_of : {Data : Type 0} → NodeBody Data → Result (List Item × List (Option Data))
leaf_of (leaf_node items found) = ok (items, found)
leaf_of (internal_node _) = crash

module _ {S : Type 0} (empty : S) where
  -- `fsTrees[id]`, the zero value for a key that is missing.
  abbrev pub tree_at : Option (FsTree S) → FsTree S
  tree_at none = record { parent_id = 0; name = empty; logical_offset = 0; uuid = empty }
  tree_at (some t) = t

  -- The two branches of the loop's body: a new tree has the zero value in its other fields.
  unfoldable pub add_entry : FsTreeMap S → RootEntry S → FsTreeMap S
  unfolding set_tree
  add_entry trees (root_item id bytenr uuid) =
      set_tree trees id (record (tree_at (trees id)) { logical_offset = bytenr; uuid = uuid })
  add_entry trees (root_ref id parent name) =
      set_tree trees id (record (tree_at (trees id)) { parent_id = parent; name = name })
  add_entry trees other_item = trees

module _ {S Data : Type 0} (empty : S) (is_name : S → S → Bool)
    (as_root_item : Data → Option (ℕ × S)) (as_root_ref : Data → Option S) where
  -- `IsRootItem` and `IsRootRef` of the item, with the fields that are used.
  unfoldable pub root_entry : Item → List (Option Data) → Result (RootEntry S)
  root_entry item items =
      if get_num "ItemType" item.key == 0x84
      then (data_at items >>= λ d. or_crash (as_root_item d) >>= λ (bytenr, uuid).
          ok (root_item (get_num "ObjectID" item.key) bytenr uuid))
      else if get_num "ItemType" item.key == 0x9c
      then (data_at items >>= λ d. or_crash (as_root_ref d) >>= λ name.
          ok (root_ref (get_num "Offset" item.key) (get_num "ObjectID" item.key) name))
      else ok other_item

  -- The loop over the items of a leaf.
  unfoldable pub discover_items :
      List Item → List (Option Data) → FsTreeMap S → Result (FsTreeMap S)
  discover_items [] items trees = ok trees
  discover_items (item ∷ rest) items trees =
      root_entry item items >>= λ e. discover_items rest (rest_of items) (add_entry empty trees e)

  -- The loop over the nodes.
  unfoldable pub discover_nodes : List (GenericNode Data) → FsTreeMap S → Result (FsTreeMap S)
  discover_nodes [] trees = ok trees
  discover_nodes (node ∷ nodes) trees = leaf_of node.body >>= λ leaf.
      discover_items leaf.0 leaf.1 trees >>= λ trees'. discover_nodes nodes trees'

  abbrev pub keep_name : S → Option (FsTree S) → Option (FsTree S)
  keep_name name none = none
  keep_name name (some t) = if is_name t.name name then some t else none

  -- `DiscoverTrees`: without a name every tree stays.
  unfoldable pub discover_trees : List (GenericNode Data) → S → Result (FsTreeMap S)
  discover_trees nodes nametree = discover_nodes nodes (λ id. none) >>= λ trees.
      if is_name nametree empty then ok trees else ok (λ id. keep_name nametree (trees id))
