-- ===== src/Btrfs/Descent/Leaves.antt =====
-- `ParseTreeNode` (disk/volume/btrfs.go) against the tree that the disk holds.
use mathlib.Core.List.Perm
use file_system_forensics.Base.{List, [], none, some, ℕ, ◌++◌, ◌+◌, ◌∷◌, ◌≡◌}
use file_system_forensics.Btrfs.Descent.{pointers}
use file_system_forensics.Btrfs.Nodes.{GenericNode}
use file_system_forensics.Go.{Error, Result, err, ok}
use mathlib.Core.List.{Perm}

-- Siblings of a tree: a leaf, an internal node with its children, or a node that cannot be read.
pub data Forest (Data : Type 0) : Type 0 where
  none_left : Forest Data
  leaf_at : ℕ → GenericNode Data → Forest Data → Forest Data
  inner_at : ℕ → GenericNode Data → Forest Data → Forest Data → Forest Data
  lost_at : ℕ → Forest Data → Forest Data

-- A stack that goes with the code's: each internal node with its children, the top first.
abbrev Pending : Type 0 → Type 0
Pending Data = List (GenericNode Data × Forest Data)

module _ {Data : Type 0} where
  abbrev pub addresses : Forest Data → List ℕ
  addresses none_left = []
  addresses (leaf_at a n rest) = a ∷ addresses rest
  addresses (inner_at a n kids rest) = a ∷ addresses rest
  addresses (lost_at a rest) = a ∷ addresses rest

  abbrev pub leaves_of : Forest Data → List (GenericNode Data)
  leaves_of none_left = []
  leaves_of (leaf_at a n rest) = n ∷ leaves_of rest
  leaves_of (inner_at a n kids rest) = leaves_of kids ++ leaves_of rest
  leaves_of (lost_at a rest) = leaves_of rest

  abbrev pub inners : Forest Data → ℕ
  inners none_left = 0
  inners (leaf_at a n rest) = inners rest
  inners (inner_at a n kids rest) = 1 + inners kids + inners rest
  inners (lost_at a rest) = inners rest

  abbrev code_stack : Pending Data → List (GenericNode Data)
  code_stack [] = []
  code_stack ((n, kids) ∷ g) = code_stack g ++ (n ∷ [])

  abbrev pending_leaves : Pending Data → List (GenericNode Data)
  pending_leaves [] = []
  pending_leaves ((n, kids) ∷ g) = leaves_of kids ++ pending_leaves g

  abbrev pending_inners : Pending Data → ℕ
  pending_inners [] = 0
  pending_inners ((n, kids) ∷ g) = 1 + inners kids + pending_inners g

  abbrev pushed : Forest Data → Pending Data → Pending Data
  pushed none_left g = g
  pushed (leaf_at a n rest) g = pushed rest g
  pushed (inner_at a n kids rest) g = pushed rest ((n, kids) ∷ g)
  pushed (lost_at a rest) g = pushed rest g

  abbrev found : Forest Data → List (GenericNode Data) → List (GenericNode Data)
  found none_left ls = ls
  found (leaf_at a n rest) ls = found rest (ls ++ (n ∷ []))
  found (inner_at a n kids rest) ls = found rest ls
  found (lost_at a rest) ls = found rest ls

module _ {Data : Type 0} (create : ℕ → Result (GenericNode Data)) where
  -- The disk holds the siblings at the addresses that their parent names.
  abbrev pub IsStored : Forest Data → Type 0
  IsStored none_left = Unit {0}
  IsStored (leaf_at a n rest) = (create a ≡ ok n) × (pointers n ≡ none) × IsStored rest
  IsStored (inner_at a n kids rest) =
      (create a ≡ ok n) × (pointers n ≡ some (addresses kids)) × IsStored kids × IsStored rest
  IsStored (lost_at a rest) = ((e : Error) × (create a ≡ err e)) × IsStored rest

  abbrev IsPending : Pending Data → Type 0
  IsPending [] = Unit {0}
  IsPending ((n, kids) ∷ g) = (pointers n ≡ some (addresses kids)) × IsStored kids × IsPending g
