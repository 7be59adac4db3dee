-- ===== src/Btrfs/Trees/Folded.antt =====
-- `DiscoverTrees` of disk/volume/btrfs.go as one fold over what the items tell.
use file_system_forensics.Base.{
  List, Option, [], ap, if◌then◌else◌, inl, inr, none, refl, sym, ℕ, ◌++◌, ◌∙◌, ◌∷◌, ◌≡◌, Bool,
  Bool-cases,
}
use file_system_forensics.Btrfs.Nodes.{GenericNode, Item}
use file_system_forensics.Btrfs.Trees.{
  FsTree, FsTreeMap, RootEntry, leaf_of, add_entry, discover_items, discover_nodes, discover_trees,
  keep_name, rest_of, root_entry,
}
use file_system_forensics.Go.{Result, crash, err, ok, stuck, ◌>>=◌}
use file_system_forensics.Btrfs.Trees.Told.{
  added, added-latest, latest, name_told, place_told, told,
}

module _ {A B : Type 0} where
  bind_assoc :
      {C : Type 0} (r : Result A) (f : A → Result B) (g : B → Result C)
      → (r >>= f) >>= g ≡ r >>= λ a. f a >>= g
  bind_assoc crash f g = refl
  bind_assoc stuck f g = refl
  bind_assoc (err e) f g = refl
  bind_assoc (ok a) f g = refl

  bind_same : (r : Result A) (f g : A → Result B) → ((a : A) → f a ≡ g a) → (r >>= f) ≡ (r >>= g)
  bind_same crash f g h = refl
  bind_same stuck f g h = refl
  bind_same (err e) f g h = refl
  bind_same (ok a) f g h = h a

module _ {S Data : Type 0} (empty : S) (is_name : S → S → Bool)
    (as_root_item : Data → Option (ℕ × S)) (as_root_ref : Data → Option S) where
  -- The entries of a leaf, and of all nodes, in their order.
  unfoldable pub entries_of : List Item → List (Option Data) → Result (List (RootEntry S))
  entries_of [] found = ok []
  entries_of (item ∷ rest) found =
      root_entry empty is_name as_root_item as_root_ref item found >>= λ e.
      entries_of rest (rest_of found) >>= λ es. ok (e ∷ es)

  unfoldable pub all_entries : List (GenericNode Data) → Result (List (RootEntry S))
  unfolding entries_of
  all_entries [] = ok []
  all_entries (node ∷ nodes) = leaf_of node.body >>= λ leaf.
      entries_of leaf.0 leaf.1 >>= λ es. all_entries nodes >>= λ more. ok (es ++ more)

  discover_items-entries :
      (items : List Item) (found : List (Option Data)) (trees : FsTreeMap S)
      → discover_items empty is_name as_root_item as_root_ref items found trees
        ≡ entries_of items found >>= λ es. ok (added empty trees es)
  unfolding discover_items entries_of added
  discover_items-entries [] found trees = refl
  discover_items-entries (item ∷ rest) found trees =
      let first = root_entry empty is_name as_root_item as_root_ref item found in
      bind_same first
        (λ e.
          discover_items empty is_name as_root_item as_root_ref rest (rest_of found)
            (add_entry empty trees e))
        (λ e. (entries_of rest (rest_of found) >>= λ es. ok (e ∷ es)) >>= λ es.
          ok (added empty trees es))
        (λ e.
          discover_items-entries rest (rest_of found) (add_entry empty trees e)
          ∙ sym (
              bind_assoc (entries_of rest (rest_of found)) (λ es. ok (e ∷ es))
                (λ es. ok (added empty trees es))))
      ∙ sym (
          bind_assoc first (λ e. entries_of rest (rest_of found) >>= λ es. ok (e ∷ es))
            (λ es. ok (added empty trees es)))

  added-append :
      (es more : List (RootEntry S)) (trees : FsTreeMap S)
      → added empty trees (es ++ more) ≡ added empty (added empty trees es) more
  unfolding added
  added-append [] more trees = refl
  added-append (e ∷ es) more trees = added-append es more (add_entry empty trees e)

  discover_nodes-entries :
      (nodes : List (GenericNode Data)) (trees : FsTreeMap S)
      → discover_nodes empty is_name as_root_item as_root_ref nodes trees
        ≡ all_entries nodes >>= λ es. ok (added empty trees es)
  unfolding discover_nodes all_entries added
  discover_nodes-entries [] trees = refl
  discover_nodes-entries (node ∷ nodes) trees =
      bind_same (leaf_of node.body)
        (λ leaf.
          discover_items empty is_name as_root_item as_root_ref leaf.0 leaf.1 trees >>= λ trees'.
          discover_nodes empty is_name as_root_item as_root_ref nodes trees')
        (λ leaf.
          (entries_of leaf.0 leaf.1 >>= λ es. all_entries nodes >>= λ more. ok (es ++ more))
          >>= λ es. ok (added empty trees es))
        (λ leaf. one (λ trees'. discover_nodes-entries nodes trees') leaf.0 leaf.1)
      ∙ sym (
          bind_assoc (leaf_of node.body)
            (λ leaf.
              entries_of leaf.0 leaf.1 >>= λ es. all_entries nodes >>= λ more. ok (es ++ more))
            (λ es. ok (added empty trees es)))
    where
      one :
          ((trees' : FsTreeMap S)
            → discover_nodes empty is_name as_root_item as_root_ref nodes trees'
              ≡ all_entries nodes >>= λ more. ok (added empty trees' more))
          → (items : List Item) (found : List (Option Data))
          → discover_items empty is_name as_root_item as_root_ref items found trees
              >>= (λ trees'. discover_nodes empty is_name as_root_item as_root_ref nodes trees')
            ≡ (entries_of items found >>= λ es. all_entries nodes >>= λ more. ok (es ++ more))
              >>= (λ es. ok (added empty trees es))
      one later items found =
          ap
            (λ (r : Result (FsTreeMap S)).
              r >>= (λ trees'. discover_nodes empty is_name as_root_item as_root_ref nodes trees'))
            (discover_items-entries items found trees)
          ∙ bind_assoc (entries_of items found) (λ es. ok (added empty trees es))
              (λ trees'. discover_nodes empty is_name as_root_item as_root_ref nodes trees')
          ∙ bind_same (entries_of items found)
              (λ es.
                discover_nodes empty is_name as_root_item as_root_ref nodes (added empty trees es))
              (λ es. (all_entries nodes >>= λ more. ok (es ++ more)) >>= λ all.
                ok (added empty trees all))
              (λ es.
                later (added empty trees es)
                ∙ bind_same (all_entries nodes)
                    (λ more. ok (added empty (added empty trees es) more))
                    (λ more. ok (added empty trees (es ++ more)))
                    (λ more. ap ok (sym (added-append es more trees)))
                ∙ sym (
                    bind_assoc (all_entries nodes) (λ more. ok (es ++ more))
                      (λ all. ok (added empty trees all))))
          ∙ sym (
              bind_assoc (entries_of items found)
                (λ es. all_entries nodes >>= λ more. ok (es ++ more))
                (λ all. ok (added empty trees all)))

  abbrev pub kept_tree : S → Option (FsTree S) → Option (FsTree S)
  kept_tree nametree t =
      if is_name nametree empty
      then t
      else keep_name empty is_name as_root_item as_root_ref nametree t

  pub discover_trees-told :
      (nodes : List (GenericNode Data)) (nametree : S) (es : List (RootEntry S))
      → all_entries nodes ≡ ok es
      → (trees : FsTreeMap S) × (discover_trees empty is_name as_root_item as_root_ref nodes
            nametree
          ≡ ok trees)
        × ((id : ℕ)
            → trees id
              ≡ kept_tree nametree
                  (told empty (latest (place_told id) es) (latest (name_told id) es) none))
  unfolding discover_trees
  discover_trees-told nodes nametree es e =
      let done : discover_nodes empty is_name as_root_item as_root_ref nodes (λ id. none)
          ≡ ok (added empty (λ id. none) es) =
        discover_nodes-entries nodes (λ id. none) ∙ rw e refl in
      elim (Bool-cases (is_name nametree empty)) [
        | inl all ↦ (
          added empty (λ id. none) es,
          rw (done, all) refl,
          λ id. rw all (added-latest empty es (λ k. none) id),
        )
        | inr named ↦ (
          λ id.
              keep_name empty is_name as_root_item as_root_ref nametree
                (added empty (λ k. none) es id),
          rw (done, named) refl,
          λ id. rw (named, added-latest empty es (λ k. none) id) refl,
        )
      ]
