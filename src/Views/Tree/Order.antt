-- ===== src/Views/Tree/Order.antt =====
-- What of the directory tree (tree/builder.go) depends on the order in which Go iterates over the
-- map of the nodes.
use mathlib.Core.List.Permᴰ
use file_system_forensics.Base.{
  Bool, Bool-cases, List, Option, Option-cases, [], false, inl, inr, none, not, refl, some, sym,
  true, ◌&&◌, ◌++◌, ◌∙◌, ◌∷◌, ◌≡◌,
}
use file_system_forensics.Base.Int.{pos, ℤ, ◌==ℤ◌}
use file_system_forensics.Utils.Endian.{filter_by}
use file_system_forensics.Views.Tree.{
  Node, Tree, TreeView, attach, build, children, collect, find_node, place_node,
}
use mathlib.Core.List.{Permᴰ, append-nil, append_assoc}

module _ {A : Type 0} (f : A → Bool) where
  filter_by-append : (xs ys : List A) → filter_by f (xs ++ ys) ≡ filter_by f xs ++ filter_by f ys
  unfolding filter_by
  filter_by-append [] ys = refl
  filter_by-append (x ∷ xs) ys = elim (Bool-cases (f x)) [
    | inl e ↦ rw (e, filter_by-append xs ys) refl
    | inr e ↦ rw (e, filter_by-append xs ys) refl
  ]

  filter_by-swap :
      (x y : A) (xs : List A) → Permᴰ (filter_by f (x ∷ y ∷ xs)) (filter_by f (y ∷ x ∷ xs))
  unfolding filter_by
  filter_by-swap x y xs = elim (Bool-cases (f x)) [
    | inl e ↦ elim (Bool-cases (f y)) [
      | inl e' ↦ rw (e, e') (Permᴰ.swap refl refl)
      | inr e' ↦ rw (e, e') (Permᴰ.refl _)
    ]
    | inr e ↦ elim (Bool-cases (f y)) [
      | inl e' ↦ rw (e, e') (Permᴰ.refl _)
      | inr e' ↦ rw (e, e') (Permᴰ.refl _)
    ]
  ]

  filter_by-rearranged : (xs ys : List A) → Permᴰ xs ys → Permᴰ (filter_by f xs) (filter_by f ys)
  unfolding filter_by
  filter_by-rearranged _ _ Permᴰ.nil = Permᴰ.nil
  filter_by-rearranged _ _ (Permᴰ.cons {a = x} {l₁ = xs} {l₂ = ys} e d) =
      rw (sym e) (elim (Bool-cases (f x)) [
        | inl t ↦ rw t (Permᴰ.cons refl (filter_by-rearranged xs ys d))
        | inr t ↦ rw t (filter_by-rearranged xs ys d)
      ])
  filter_by-rearranged _ _ (Permᴰ.swap {a = x} {b = y} {l = xs} e e') =
      rw (sym e, sym e') (filter_by-swap x y xs)
  filter_by-rearranged xs ys (Permᴰ.trans d d') =
      Permᴰ.trans (filter_by-rearranged xs _ d) (filter_by-rearranged _ ys d')

module _ {R : Type 0} (nodes : List (Node R)) where
  abbrev is_root : Node R → Bool
  is_root n = n.id ==ℤ pos 5

  abbrev is_missing : Option (Node R) → Bool
  is_missing none = true
  is_missing (some n) = false

  abbrev is_numbered : ℤ → Option (Node R) → Bool
  is_numbered id none = false
  is_numbered id (some n) = n.id ==ℤ id

  -- A node other than the root whose parent is not in the map.
  abbrev pub is_orphan : Node R → Bool
  is_orphan n = not (is_root n) && is_missing (find_node n.parent_id nodes)

  -- A node other than the root whose parent is the node of that number.
  abbrev pub is_child_of : ℤ → Node R → Bool
  is_child_of id n = not (is_root n) && is_numbered id (find_node n.parent_id nodes)

  place_orphans :
      (n : Node R) (t : Tree R)
      → (place_node nodes n t).orphaned_nodes ≡ t.orphaned_nodes ++ filter_by is_orphan (n ∷ [])
  unfolding place_node filter_by
  place_orphans n t = elim (Bool-cases (is_root n)) [
    | inl e ↦ rw (e, append-nil t.orphaned_nodes) refl
    | inr e ↦ elim (Option-cases (find_node n.parent_id nodes)) [
      | inl q ↦ rw (e, q) refl
      | inr (p, q) ↦ rw (e, q, append-nil t.orphaned_nodes) refl
    ]
  ]

  children-append :
      (xs ys : List (Node R × Node R)) (id : ℤ)
      → children (xs ++ ys) id ≡ children xs id ++ children ys id
  unfolding children
  children-append [] ys id = refl
  children-append ((p, c) ∷ xs) ys id = elim (Bool-cases (p.id ==ℤ id)) [
    | inl e ↦ rw (e, children-append xs ys id) refl
    | inr e ↦ rw (e, children-append xs ys id) refl
  ]

  place_children :
      (n : Node R) (t : Tree R) (id : ℤ)
      → children (place_node nodes n t).links id
        ≡ children t.links id ++ filter_by (is_child_of id) (n ∷ [])
  unfolding place_node filter_by children
  place_children n t id = elim (Bool-cases (is_root n)) [
    | inl e ↦ rw (e, append-nil (children t.links id)) refl
    | inr e ↦ elim (Option-cases (find_node n.parent_id nodes)) [
      | inl q ↦ rw (e, q, append-nil (children t.links id)) refl
      | inr (p, q) ↦ rw (e, q, children-append t.links ((p, n) ∷ []) id) refl
    ]
  ]

  orphans_attached :
      (order : List (Node R)) (t : Tree R)
      → (attach nodes order t).orphaned_nodes ≡ t.orphaned_nodes ++ filter_by is_orphan order
  unfolding attach filter_by
  orphans_attached [] t = sym (append-nil t.orphaned_nodes)
  orphans_attached (n ∷ order) t =
      orphans_attached order (place_node nodes n t)
      ∙ rw
          (
            place_orphans n t,
            append_assoc t.orphaned_nodes (filter_by is_orphan (n ∷ []))
                (filter_by is_orphan order),
            sym (filter_by-append is_orphan (n ∷ []) order),
          )
          refl

  children-attach :
      (order : List (Node R)) (t : Tree R) (id : ℤ)
      → children (attach nodes order t).links id
        ≡ children t.links id ++ filter_by (is_child_of id) order
  unfolding attach filter_by
  children-attach [] t id = sym (append-nil (children t.links id))
  children-attach (n ∷ order) t id =
      children-attach order (place_node nodes n t) id
      ∙ rw
          (
            place_children n t id,
            append_assoc (children t.links id) (filter_by (is_child_of id) (n ∷ []))
                (filter_by (is_child_of id) order),
            sym (filter_by-append (is_child_of id) (n ∷ []) order),
          )
          refl

module _ {R : Type 0} (view : TreeView R) where
  -- In whatever order Go iterates over the map of nodes, the orphaned nodes are those whose parent
  -- is not in the map, and the children of a number are the nodes whose parent it is, each once, but for the
  -- root: only their order depends on the iteration.
  pub build-rearranged :
      (iterate : List (Node R) → List (Node R)) (records : List R) (id : ℤ)
      → Permᴰ (iterate (collect view records [])) (collect view records [])
      → Permᴰ
          (build view iterate records).orphaned_nodes
          (filter_by (is_orphan (collect view records [])) (collect view records []))
        × Permᴰ
            (children (build view iterate records).links id)
            (filter_by (is_child_of (collect view records []) id) (collect view records []))
  unfolding build children
  build-rearranged iterate records id d =
      let nodes = collect view records [] in
      let empty : Tree R = record { root = none; orphaned_nodes = []; links = [] } in
      (
        rw (orphans_attached nodes (iterate nodes) empty)
            (filter_by-rearranged (is_orphan nodes) (iterate nodes) nodes d),
        rw (children-attach nodes (iterate nodes) empty id)
            (filter_by-rearranged (is_child_of nodes id) (iterate nodes) nodes d),
      )
