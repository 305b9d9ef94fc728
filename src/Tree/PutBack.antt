-- ===== src/Tree/PutBack.antt =====
-- The removal of an item that was just inserted.
use toocal.Prelude.{ℕ, none, some, List, [], ◌∷◌, ◌≡◌, refl, ap, ◌∙◌, inl, inr}
use toocal.Utils.{minus, zero_sign, plus, bytescmp}
use toocal.Utils.Order.{Sign-cases, bytescmp_refl}
use toocal.Node.{Item}
use toocal.Tree.Shape.{BTree, Branches, leaf, inner, last, branch}
use toocal.Tree.Order.{search_items, search_tree, search_branches}
use toocal.Tree.Search.{position, position_at, search_items_at, search_branches_at}
use toocal.Tree.Update.{update_tree, update_branches, update_branches_at, update_tree-update_tree}
use toocal.Tree.Insertion.{inserted}
use toocal.Tree.Deletion.{removed}
use toocal.Tree.Descent.{target, target_branches, target_branches_at}
use toocal.Tree.Placement.{changed}

-- In a leaf without the key.
pub removed-inserted :
    (item : Item) (items : List Item)
    → search_items item.key items ≡ none
    → (removed item.key (inserted item items) ≡ items)
      × (search_items item.key (inserted item items) ≡ some item)
unfolding position
removed-inserted item [] h =
    let same = bytescmp_refl item.key in
    (
      rw (position_at item.key item [] zero_sign same),
      rw (search_items_at item.key item [] zero_sign same),
    )
removed-inserted item (x ∷ items) h = elim (Sign-cases (bytescmp x.key item.key)) [
  | inl e ↦ let found = rw (search_items_at item.key x items zero_sign e) at h in cc
  | inr (inl e) ↦
      let same = bytescmp_refl item.key in
      rw (position_at item.key x items plus e) (
        rw (position_at item.key item (x ∷ items) zero_sign same),
        rw (search_items_at item.key item (x ∷ items) zero_sign same),
      )
  | inr (inr e) ↦
      let (back, found) =
        removed-inserted item items (rw (search_items_at item.key x items minus e) at h) in
      rw (position_at item.key x items minus e) (
        rw (position_at item.key x (inserted item items) minus e) (ap (x ∷◌) back),
        rw (search_items_at item.key x (inserted item items) minus e) found,
      )
]

mutual
  -- A key that is not in the tree is not in the leaf on the way.
  pub search_items-target :
      (key : List ℕ) (t : BTree)
      → search_tree key t ≡ none
      → search_items key (target key t).items ≡ none
  search_items-target key (leaf page items) h = h
  search_items-target key (inner page bs) h = search_items-target_branches key bs h

  search_items-target_branches :
      (key : List ℕ) (bs : Branches)
      → search_branches key bs ≡ none
      → search_items key (target_branches key bs).items ≡ none
  search_items-target_branches key (last t) h = search_items-target key t h
  search_items-target_branches key (branch t x bs) h = elim (Sign-cases (bytescmp x.key key)) [
    | inl e ↦ let found = rw (search_branches_at key t x bs zero_sign e) at h in cc
    | inr (inl e) ↦
        rw (target_branches_at key t x bs plus e)
          (search_items-target key t (rw (search_branches_at key t x bs plus e) at h))
    | inr (inr e) ↦
        rw (target_branches_at key t x bs minus e)
          (search_items-target_branches key bs (rw (search_branches_at key t x bs minus e) at h))
  ]

mutual
  -- The leaf on the way after a change of its items.
  pub target-update_tree :
      (key : List ℕ) (f : List Item → List Item) (t : BTree)
      → target key (update_tree key f t) ≡ changed f (target key t)
  target-update_tree key f (leaf page items) = refl
  target-update_tree key f (inner page bs) = target_branches-update_branches key f bs

  target_branches-update_branches :
      (key : List ℕ) (f : List Item → List Item) (bs : Branches)
      → target_branches key (update_branches key f bs) ≡ changed f (target_branches key bs)
  target_branches-update_branches key f (last t) = target-update_tree key f t
  target_branches-update_branches key f (branch t x bs) = elim (Sign-cases (bytescmp x.key key)) [
    | inl e ↦
        rw
          (
            update_branches_at key f t x bs zero_sign e,
            target_branches_at key t x bs zero_sign e,
            target_branches_at key (update_tree key f t) x bs zero_sign e,
          )
          (target-update_tree key f t)
    | inr (inl e) ↦
        rw
          (
            update_branches_at key f t x bs plus e,
            target_branches_at key t x bs plus e,
            target_branches_at key (update_tree key f t) x bs plus e,
          )
          (target-update_tree key f t)
    | inr (inr e) ↦
        rw
          (
            update_branches_at key f t x bs minus e,
            target_branches_at key t x bs minus e,
            target_branches_at key t x (update_branches key f bs) minus e,
          )
          (target_branches-update_branches key f bs)
  ]

mutual
  update_tree_same :
      (key : List ℕ) (f : List Item → List Item) (t : BTree)
      → f (target key t).items ≡ (target key t).items
      → update_tree key f t ≡ t
  update_tree_same key f (leaf page items) e = ap (leaf page) e
  update_tree_same key f (inner page bs) e = ap (inner page) (update_branches_same key f bs e)

  update_branches_same :
      (key : List ℕ) (f : List Item → List Item) (bs : Branches)
      → f (target_branches key bs).items ≡ (target_branches key bs).items
      → update_branches key f bs ≡ bs
  update_branches_same key f (last t) e = ap last (update_tree_same key f t e)
  update_branches_same key f (branch t x bs) h = elim (Sign-cases (bytescmp x.key key)) [
    | inl e ↦ rw (update_branches_at key f t x bs zero_sign e) (
        ap (λ u. branch u x bs)
          (update_tree_same key f t (rw (target_branches_at key t x bs zero_sign e) at h)))
    | inr (inl e) ↦ rw (update_branches_at key f t x bs plus e) (
        ap (λ u. branch u x bs)
          (update_tree_same key f t (rw (target_branches_at key t x bs plus e) at h)))
    | inr (inr e) ↦ rw (update_branches_at key f t x bs minus e) (
        ap (branch t x)
          (update_branches_same key f bs (rw (target_branches_at key t x bs minus e) at h)))
  ]

-- The tree is what it was.
pub remove-insert_tree :
    (item : Item) (t : BTree)
    → search_tree item.key t ≡ none
    → update_tree item.key (removed item.key) (update_tree item.key (inserted item) t) ≡ t
remove-insert_tree item t h =
    update_tree-update_tree item.key (inserted item) (removed item.key) t
    ∙ update_tree_same item.key (λ xs. removed item.key (inserted item xs)) t
        (removed-inserted item (target item.key t).items (search_items-target item.key t h)).0
