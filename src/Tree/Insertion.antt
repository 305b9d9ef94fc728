-- ===== src/Tree/Insertion.antt =====
-- The insertion of an item into the leaf that the search for its key ends in, and into a sorted list.
use toocal.Prelude.{
  ℕ, ◌≤◌, List, [], ◌∷◌, ◌++◌, ◌≡◌, refl, sym, ap, ◌∙◌, All, arith, inl, inr, length, insert_idx,
}
use toocal.Utils.{minus, zero_sign, plus, bytescmp}
use toocal.Utils.Order.{Sign-cases}
use toocal.Node.{Item}
use toocal.Tree.Shape.{BTree, Branches, leaf, inner, last, branch, inorder, inorder_branches}
use toocal.Tree.Order.{IsSorted, IsSorted-middle, All-below}
use toocal.Tree.Update.{update_tree, update_branches, update_branches_at}
use toocal.Tree.Search.{position}

-- In front of the first item that is not below it.
abbrev pub insert_sorted : Item → List Item → List Item
insert_sorted item [] = item ∷ []
insert_sorted item (x ∷ xs) = elim (bytescmp x.key item.key) [
  | minus ↦ x ∷ insert_sorted item xs
  | zero_sign ↦ item ∷ (x ∷ xs)
  | plus ↦ item ∷ (x ∷ xs)
]

-- The items of a leaf with the item in its place.
abbrev pub inserted : Item → List Item → List Item
inserted item items = insert_idx items (position item.key items).1 item

abbrev pub insert_tree : Item → BTree → BTree
insert_tree item = update_tree item.key (inserted item)

abbrev pub insert_branches : Item → Branches → Branches
insert_branches item = update_branches item.key (inserted item)

pub position_le : (key : List ℕ) (items : List Item) → (position key items).1 ≤ length items
unfolding position
position_le key [] = omega arith
position_le key (item ∷ items) = elim (Sign-cases (bytescmp item.key key)) [
  | inl e ↦ rw (e, position) (omega arith)
  | inr (inl e) ↦ rw (e, position) (omega arith)
  | inr (inr e) ↦ rw (e, position) (omega (arith, position_le key items))
]

insert_idx-position :
    (item : Item) (items : List Item)
    → insert_idx items (position item.key items).1 item ≡ insert_sorted item items
unfolding position
insert_idx-position item [] = refl
insert_idx-position item (x ∷ items) = elim (Sign-cases (bytescmp x.key item.key)) [
  | inl e ↦ rw (e, position, insert_sorted)
  | inr (inl e) ↦ rw (e, position, insert_sorted)
  | inr (inr e) ↦ rw (e, position, insert_sorted) (ap (x ∷◌) (insert_idx-position item items))
]

insert_sorted-append_below :
    (item : Item) (xs ys : List Item)
    → All (λ x. bytescmp x.key item.key ≡ minus) xs
    → insert_sorted item (xs ++ ys) ≡ xs ++ insert_sorted item ys
insert_sorted-append_below item [] ys h = refl
insert_sorted-append_below item (x ∷ xs) ys h =
    rw (h.0, insert_sorted) (ap (x ∷◌) (insert_sorted-append_below item xs ys h.1))

-- In front of an item at which the insertion stops at the latest.
insert_sorted-append_above :
    (item x : Item) (xs ys : List Item)
    → insert_sorted item (x ∷ ys) ≡ item ∷ (x ∷ ys)
    → insert_sorted item (xs ++ (x ∷ ys)) ≡ insert_sorted item xs ++ (x ∷ ys)
insert_sorted-append_above item x [] ys h = h
insert_sorted-append_above item x (z ∷ xs) ys h = elim (Sign-cases (bytescmp z.key item.key)) [
  | inl e ↦ rw (e, insert_sorted)
  | inr (inl e) ↦ rw (e, insert_sorted)
  | inr (inr e) ↦ rw (e, insert_sorted) (ap (z ∷◌) (insert_sorted-append_above item x xs ys h))
]

mutual
  -- The items of the tree are those of before with the item in its place.
  pub inorder-insert_tree :
      (item : Item) (t : BTree)
      → IsSorted (inorder t)
      → inorder (insert_tree item t) ≡ insert_sorted item (inorder t)
  inorder-insert_tree item (leaf page items) s = insert_idx-position item items
  inorder-insert_tree item (inner page bs) s = inorder-insert_branches item bs s

  inorder-insert_branches :
      (item : Item) (bs : Branches)
      → IsSorted (inorder_branches bs)
      → inorder_branches (insert_branches item bs) ≡ insert_sorted item (inorder_branches bs)
  inorder-insert_branches item (last t) s = inorder-insert_tree item t s
  inorder-insert_branches item (branch t x bs) s =
      let (left, low, high, right) = IsSorted-middle (inorder t) x (inorder_branches bs) s in
      let under = inorder-insert_tree item t left in
      let behind = inorder-insert_branches item bs right in
      elim (Sign-cases (bytescmp x.key item.key)) [
        | inl e ↦ rw (update_branches_at item.key (inserted item) t x bs zero_sign e) (
            ap (λ zs. zs ++ (x ∷ inorder_branches bs)) under
            ∙ sym (
                insert_sorted-append_above item x (inorder t) (inorder_branches bs)
                  (rw (e, insert_sorted))))
        | inr (inl e) ↦ rw (update_branches_at item.key (inserted item) t x bs plus e) (
            ap (λ zs. zs ++ (x ∷ inorder_branches bs)) under
            ∙ sym (
                insert_sorted-append_above item x (inorder t) (inorder_branches bs)
                  (rw (e, insert_sorted))))
        | inr (inr e) ↦ rw (update_branches_at item.key (inserted item) t x bs minus e) (
            ap (λ zs. inorder t ++ (x ∷ zs)) behind
            ∙ sym (
                insert_sorted-append_below item (inorder t) (x ∷ inorder_branches bs)
                  (All-below item.key x (inorder t) e low)
                ∙ rw (e, insert_sorted)))
      ]
