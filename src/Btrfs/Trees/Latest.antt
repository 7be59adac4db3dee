-- ===== src/Btrfs/Trees/Latest.antt =====
-- What `DiscoverTrees` of disk/volume/btrfs.go knows of a tree.
use file_system_forensics.Utils.Unmarshal.{get_num}
use file_system_forensics.Base.{
  true, false, arith, some, drop, ==_cases, ◌↔◌, ◌⊎◌, ◌≢◌, List, Option, [], ap, inl, inr, none,
  refl, sym, ℕ, ◌++◌, ◌∙◌, ◌∷◌, ◌≡◌, Bool, Bool-cases,
}
use file_system_forensics.Btrfs.Nodes.{GenericNode, Item, leaf_node}
use file_system_forensics.Btrfs.Trees.{
  other_item, root_item, root_ref, FsTree, FsTreeMap, RootEntry, discover_trees, rest_of,
  root_entry,
}
use file_system_forensics.Go.{ok}
use file_system_forensics.Btrfs.Trees.Told.{
  known_tree, latest, name_told, place_told, told-known_tree,
}
use file_system_forensics.Btrfs.Trees.Folded.{
  all_entries, discover_trees-told, entries_of, kept_tree,
}

module _ {S Data : Type 0} (empty : S) (is_name : S → S → Bool)
    (as_root_item : Data → Option (ℕ × S)) (as_root_ref : Data → Option S) where
  -- What an item tells, said of its key and of the data that stands first among those left.
  abbrev pub IsEntry : Item → List (Option Data) → RootEntry S → Type 0
  IsEntry item found (root_item id bytenr uuid) =
      (get_num "ItemType" item.key ≡ 0x84)
      × (get_num "ObjectID" item.key ≡ id)
      × ((d : Data) × (later : List (Option Data)) × (found ≡ some d ∷ later)
          × (as_root_item d ≡ some (bytenr, uuid)))
  IsEntry item found (root_ref id parent name) =
      (get_num "ItemType" item.key ≡ 0x9c)
      × (get_num "Offset" item.key ≡ id)
      × (get_num "ObjectID" item.key ≡ parent)
      × ((d : Data) × (later : List (Option Data)) × (found ≡ some d ∷ later)
          × (as_root_ref d ≡ some name))
  IsEntry item found other_item =
      (get_num "ItemType" item.key ≢ 0x84) × (get_num "ItemType" item.key ≢ 0x9c)

  -- The entries of a leaf, and those of a list of nodes that are all leaves.
  abbrev pub HasEntries : List Item → List (Option Data) → List (RootEntry S) → Type 0
  HasEntries [] found [] = Unit {0}
  HasEntries (item ∷ items) found (e ∷ es) =
      IsEntry item found e × HasEntries items (drop 1 found) es
  HasEntries _ _ _ = ⊥

  abbrev pub NodesTell : List (GenericNode Data) → List (RootEntry S) → Type 0
  NodesTell [] es = es ≡ []
  NodesTell (node ∷ nodes) es =
      (items : List Item) × (found : List (Option Data)) × (here later : List (RootEntry S))
      × (node.body ≡ leaf_node items found)
      × HasEntries items found here
      × NodesTell nodes later
      × (es ≡ here ++ later)

  root_entry-IsEntry :
      (item : Item) (found : List (Option Data)) (e : RootEntry S)
      → IsEntry item found e
      → root_entry empty is_name as_root_item as_root_ref item found ≡ ok e
  unfolding root_entry
  root_entry-IsEntry item found (root_item id bytenr uuid) (t, i, (d, later, at, r)) =
      rw (t, i, at, r) refl
  root_entry-IsEntry item found (root_ref id parent name) (t, i, p, (d, later, at, r)) =
      rw (t, i, p, at, r) refl
  root_entry-IsEntry item found other_item (a, b) =
      elim (==_cases (get_num "ItemType" item.key) 0x84) [
        | inl (_, e) ↦ absurd (a e)
        | inr (x, _) ↦ elim (==_cases (get_num "ItemType" item.key) 0x9c) [
          | inl (_, e) ↦ absurd (b e)
          | inr (y, _) ↦ rw (x, y) refl
        ]
      ]

  rest_of-drop : (found : List (Option Data)) → rest_of found ≡ drop 1 found
  rest_of-drop [] = refl
  rest_of-drop (d ∷ ds) = refl

  entries_of-HasEntries :
      (items : List Item) (found : List (Option Data)) (es : List (RootEntry S))
      → HasEntries items found es
      → entries_of empty is_name as_root_item as_root_ref items found ≡ ok es
  unfolding entries_of
  entries_of-HasEntries [] found [] h = refl
  entries_of-HasEntries [] found (e ∷ es) h = absurd h
  entries_of-HasEntries (item ∷ items) found [] h = absurd h
  entries_of-HasEntries (item ∷ items) found (e ∷ es) (first, later) =
      rw
        (
          root_entry-IsEntry item found e first,
          rest_of-drop found,
          entries_of-HasEntries items (drop 1 found) es later,
        )
        refl

  all_entries-NodesTell :
      (nodes : List (GenericNode Data)) (es : List (RootEntry S))
      → NodesTell nodes es
      → all_entries empty is_name as_root_item as_root_ref nodes ≡ ok es
  unfolding all_entries
  all_entries-NodesTell [] es h = rw h refl
  all_entries-NodesTell (node ∷ nodes) es (items, found, here, later, body, first, rest, e) =
      rw
        (
          body,
          entries_of-HasEntries items found here first,
          all_entries-NodesTell nodes later rest,
          e,
        )
        refl

  abbrev name_or : Option (FsTree S) → S
  name_or none = empty
  name_or (some t) = t.name

  kept_named :
      (nametree : S) (t : Option (FsTree S)) (f : FsTree S)
      → is_name nametree empty ≡ false
      → (kept_tree empty is_name as_root_item as_root_ref nametree t ≡ some f)
        ↔ ((t ≡ some f) × ((is_name nametree empty ≡ true) ⊎ (is_name f.name nametree ≡ true)))
  kept_named nametree none f named =
      (λ e. absurd (ground (arith, rw named at e)), λ (e, _). absurd (ground (arith, e)))
  kept_named nametree (some t) f named = elim (Bool-cases (is_name t.name nametree)) [
    | inl here ↦ (
      λ e.
          let same : some t ≡ some f = rw (named, here) at e in
          (same, inr (sym (ap (λ o. is_name (name_or o) nametree) same) ∙ here)),
      λ (e, _). rw (named, here) e,
    )
    | inr other ↦ (
      λ e. absurd (ground (arith, rw (named, other) at e)),
      λ (e, w). elim w [
        | inl all ↦ absurd (ground (arith, all, named))
        | inr n ↦ absurd (ground (arith, ap (λ o. is_name (name_or o) nametree) e ∙ n, other))
      ],
    )
  ]

  kept_tree_iff :
      (nametree : S) (t : Option (FsTree S)) (f : FsTree S)
      → (kept_tree empty is_name as_root_item as_root_ref nametree t ≡ some f)
        ↔ ((t ≡ some f) × ((is_name nametree empty ≡ true) ⊎ (is_name f.name nametree ≡ true)))
  kept_tree_iff nametree t f = elim (Bool-cases (is_name nametree empty)) [
    | inl all ↦ (λ e. (rw all at e, inl all), λ (e, _). rw all e)
    | inr named ↦ kept_named nametree t f named
  ]

  -- Where every node is a leaf and every root item and reference has its data, DiscoverTrees ends
  -- without a panic, and a tree f is what it gives for an id exactly where f has the place and uuid
  -- that the last root item of the id tells and the parent and name that the last reference to it
  -- tells, in whatever order the two come, and zero values where nothing tells; and, if a name was
  -- asked for, where that is the name of f.
  pub discover_trees-latest :
      (nodes : List (GenericNode Data)) (nametree : S) (es : List (RootEntry S))
      → NodesTell nodes es
      → (trees : FsTreeMap S) × (discover_trees empty is_name as_root_item as_root_ref nodes
            nametree
          ≡ ok trees)
        × ((id : ℕ) (f : FsTree S)
            → (trees id ≡ some f) ↔ (
                (known_tree empty (latest (place_told id) es) (latest (name_told id) es) ≡ some f)
                × ((is_name nametree empty ≡ true) ⊎ (is_name f.name nametree ≡ true))))
  discover_trees-latest nodes nametree es told_ =
      let (trees, done, each) =
        discover_trees-told empty is_name as_root_item as_root_ref nodes nametree es
          (all_entries-NodesTell nodes es told_) in
      (
        trees,
        done,
        λ id f.
            let place = latest (place_told id) es in
            let name_ = latest (name_told id) es in
            rw (each id, told-known_tree empty place name_)
              (kept_tree_iff nametree (known_tree empty place name_) f),
      )
