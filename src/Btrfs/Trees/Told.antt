-- ===== src/Btrfs/Trees/Told.antt =====
-- What the entries of the root trees tell of a tree, one after the other.
use file_system_forensics.Base.{
  List, Option, [], ==_cases, if◌then◌else◌, inl, inr, none, refl, some, ℕ, ◌==◌, ◌∙◌, ◌∷◌, ◌≡◌,
}
use file_system_forensics.Btrfs.Trees.{
  FsTree, FsTreeMap, RootEntry, add_entry, other_item, root_item, root_ref, set_tree, tree_at,
}

module _ {S : Type 0} where
  -- What one entry tells of the tree `id`: its place and uuid, and its parent and name.
  abbrev pub place_told : ℕ → RootEntry S → Option (ℕ × S)
  place_told id (root_item k bytenr uuid) = if k == id then some (bytenr, uuid) else none
  place_told id _ = none

  abbrev pub name_told : ℕ → RootEntry S → Option (ℕ × S)
  name_told id (root_ref k parent name) = if k == id then some (parent, name) else none
  name_told id _ = none

  abbrev or_before : Option (ℕ × S) → Option (ℕ × S) → Option (ℕ × S)
  or_before none old = old
  or_before (some x) old = some x

  -- The last of the entries that tells something.
  unfoldable pub latest : (RootEntry S → Option (ℕ × S)) → List (RootEntry S) → Option (ℕ × S)
  latest f [] = none
  latest f (e ∷ es) = or_before (latest f es) (f e)

module _ {S : Type 0} (empty : S) where
  -- The tree of what was told last, over what was known before.
  abbrev pub told : Option (ℕ × S) → Option (ℕ × S) → Option (FsTree S) → Option (FsTree S)
  told none none old = old
  told (some (bytenr, id)) none old =
      some (record (tree_at empty old) { logical_offset = bytenr; uuid = id })
  told none (some (parent, n)) old =
      some (record (tree_at empty old) { parent_id = parent; name = n })
  told (some (bytenr, id)) (some (parent, n)) old =
      some (record { parent_id = parent; name = n; logical_offset = bytenr; uuid = id })

  told_place :
      (place name_ : Option (ℕ × S)) (old : Option (FsTree S)) (x : ℕ × S)
      → told place name_ (some (record (tree_at empty old) { logical_offset = x.0; uuid = x.1 }))
        ≡ told (or_before place (some x)) name_ old
  told_place none none old x = refl
  told_place none (some y) old x = refl
  told_place (some y) none old x = refl
  told_place (some y) (some z) old x = refl

  told_name :
      (place name_ : Option (ℕ × S)) (old : Option (FsTree S)) (x : ℕ × S)
      → told place name_ (some (record (tree_at empty old) { parent_id = x.0; name = x.1 }))
        ≡ told place (or_before name_ (some x)) old
  told_name none none old x = refl
  told_name none (some y) old x = refl
  told_name (some y) none old x = refl
  told_name (some y) (some z) old x = refl

  or_before-none : (x : Option (ℕ × S)) → or_before x none ≡ x
  or_before-none none = refl
  or_before-none (some x) = refl

  told_step :
      (id : ℕ) (e : RootEntry S) (place name_ : Option (ℕ × S)) (trees : FsTreeMap S)
      → told place name_ (add_entry empty trees e id)
        ≡ told (or_before place (place_told id e)) (or_before name_ (name_told id e)) (trees id)
  unfolding add_entry set_tree
  told_step id (root_item k b u) place name_ trees = elim (==_cases k id) [
    | inl (same, p) ↦ rw (same, or_before-none name_, p) (told_place place name_ (trees id) (b, u))
    | inr (other, p) ↦ rw (other, or_before-none name_, or_before-none place) refl
  ]
  told_step id (root_ref k b u) place name_ trees = elim (==_cases k id) [
    | inl (same, p) ↦ rw (same, or_before-none place, p) (told_name place name_ (trees id) (b, u))
    | inr (other, p) ↦ rw (other, or_before-none name_, or_before-none place) refl
  ]
  told_step id other_item place name_ trees = rw (or_before-none name_, or_before-none place) refl

  unfoldable pub added : FsTreeMap S → List (RootEntry S) → FsTreeMap S
  added trees [] = trees
  added trees (e ∷ es) = added (add_entry empty trees e) es

  pub added-latest :
      (es : List (RootEntry S)) (trees : FsTreeMap S) (id : ℕ)
      → added trees es id ≡ told (latest (place_told id) es) (latest (name_told id) es) (trees id)
  unfolding added latest
  added-latest [] trees id = refl
  added-latest (e ∷ es) trees id =
      added-latest es (add_entry empty trees e) id
      ∙ told_step id e (latest (place_told id) es) (latest (name_told id) es) trees

  -- The tree of what was told last: what nothing told keeps the zero value.
  abbrev pub known_tree : Option (ℕ × S) → Option (ℕ × S) → Option (FsTree S)
  known_tree none none = none
  known_tree (some (bytenr, id)) none =
      some (record { parent_id = 0; name = empty; logical_offset = bytenr; uuid = id })
  known_tree none (some (parent, n)) =
      some (record { parent_id = parent; name = n; logical_offset = 0; uuid = empty })
  known_tree (some (bytenr, id)) (some (parent, n)) =
      some (record { parent_id = parent; name = n; logical_offset = bytenr; uuid = id })

  pub told-known_tree :
      (place name_ : Option (ℕ × S)) → told place name_ none ≡ known_tree place name_
  told-known_tree none none = refl
  told-known_tree none (some y) = refl
  told-known_tree (some x) none = refl
  told-known_tree (some x) (some y) = refl
