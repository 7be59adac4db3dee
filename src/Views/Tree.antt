-- ===== src/Views/Tree.antt =====
-- The directory tree: `Tree.Build` of tree/builder.go. A node is told by its number; the links
-- between nodes, pointers both ways in the code, are pairs of parent and child.
pub mod Order
use file_system_forensics.Base.{
  Bool, List, Option, [], if◌then◌else◌, none, not, some, ◌++◌, ◌||◌, ◌∷◌,
}
use file_system_forensics.Base.Int.{ltb_ℤ, negsuc, pos, ℤ, ◌==ℤ◌}

-- The methods of `Record` (FS/metadata.go) that the builder calls.
pub record TreeView (R : Type 0) : Type 0 where
  pub get_id : R → ℤ
  pub is_base : R → Bool
  pub get_parent_id : R → ℤ

pub record Node (R : Type 0) : Type 0 where
  pub id : ℤ
  pub parent_id : ℤ
  pub item : R

-- Tree, with the links of its nodes in the order in which they are made.
pub record Tree (R : Type 0) : Type 0 where
  pub root : Option (Node R)
  pub orphaned_nodes : List (Node R)
  pub links : List (Node R × Node R)

module _ {R : Type 0} where
  -- `nodeMap[id] = node` and `nodeMap[id]`: the map as the list of its values.
  unfoldable pub insert_node : Node R → List (Node R) → List (Node R)
  insert_node n [] = n ∷ []
  insert_node n (m ∷ nodes) = if m.id ==ℤ n.id then n ∷ nodes else m ∷ insert_node n nodes

  unfoldable pub find_node : ℤ → List (Node R) → Option (Node R)
  find_node id [] = none
  find_node id (m ∷ nodes) = if m.id ==ℤ id then some m else find_node id nodes

  -- The body of the second loop.
  unfoldable pub place_node : List (Node R) → Node R → Tree R → Tree R
  unfolding find_node
  place_node nodes n t =
      if n.id ==ℤ pos 5 then record t { root = some n } else under (find_node n.parent_id nodes)
    where
      under : Option (Node R) → Tree R
      under (some parent) = record t { links = t.links ++ ((parent, n) ∷ []) }
      under none = record t { orphaned_nodes = t.orphaned_nodes ++ (n ∷ []) }

  -- The second loop, over the nodes in the order in which Go iterates over the map.
  unfoldable pub attach : List (Node R) → List (Node R) → Tree R → Tree R
  unfolding place_node
  attach nodes [] t = t
  attach nodes (n ∷ order) t = attach nodes order (place_node nodes n t)

  -- The children of a node, in the order of its slice.
  unfoldable pub children : List (Node R × Node R) → ℤ → List (Node R)
  children [] id = []
  children ((parent, child) ∷ links) id =
      if parent.id ==ℤ id then child ∷ children links id else children links id

module _ {R : Type 0} (view : TreeView R) where
  -- The first loop: records below number 5, extension records and records without a parent are
  -- skipped.
  unfoldable pub collect : List R → List (Node R) → List (Node R)
  unfolding insert_node
  collect [] nodes = nodes
  collect (r ∷ records) nodes = collect records (
      if ltb_ℤ (view.get_id r) (pos 5)
        || not (view.is_base r)
        || (view.get_parent_id r ==ℤ negsuc 0)
      then nodes
      else insert_node (record { id = view.get_id r; parent_id = view.get_parent_id r; item = r })
          nodes)

  -- `Build`; `iterate` is the order of the iteration.
  unfoldable pub build : (List (Node R) → List (Node R)) → List R → Tree R
  unfolding collect attach
  build iterate records =
      let nodes = collect records [] in
      attach nodes (iterate nodes) (record { root = none; orphaned_nodes = []; links = [] })
