-- ===== src/Tree/Update.antt =====
-- A change of the items of the leaf that the search for a key ends in, as a function on trees.
use toocal.Prelude.{ℕ, List, [], ◌∷◌, ◌≡◌, refl, ap, arith, inl, inr}
use toocal.Utils.{Sign, minus, zero_sign, plus, bytescmp}
use toocal.Utils.Order.{Sign-cases}
use toocal.Node.{Item}
use toocal.Tree.Shape.{
  BTree, Branches, leaf, inner, last, branch, page_of, items_of, pages_of, height, height_branches,
}

abbrev mutual
  pub update_tree : List ℕ → (List Item → List Item) → BTree → BTree
  update_tree key f (leaf page items) = leaf page (f items)
  update_tree key f (inner page bs) = inner page (update_branches key f bs)

  pub update_branches : List ℕ → (List Item → List Item) → Branches → Branches
  update_branches key f (last t) = last (update_tree key f t)
  update_branches key f (branch t x bs) = elim (bytescmp x.key key) [
    | minus ↦ branch t x (update_branches key f bs)
    | zero_sign ↦ branch (update_tree key f t) x bs
    | plus ↦ branch (update_tree key f t) x bs
  ]

pub update_branches_at :
    (key : List ℕ) (f : List Item → List Item) (t : BTree) (x : Item) (bs : Branches) (s : Sign)
    → bytescmp x.key key ≡ s
    → update_branches key f (branch t x bs) ≡ elim s [
      | minus ↦ branch t x (update_branches key f bs)
      | zero_sign ↦ branch (update_tree key f t) x bs
      | plus ↦ branch (update_tree key f t) x bs
    ]
update_branches_at key f t x bs s e =
    ap
      (λ c. elim c as (λ _. Branches) [
        | minus ↦ branch t x (update_branches key f bs)
        | zero_sign ↦ branch (update_tree key f t) x bs
        | plus ↦ branch (update_tree key f t) x bs
      ])
      e

-- Such a change leaves the inner nodes as they are.
mutual
  pub page_of-update_tree :
      (key : List ℕ) (f : List Item → List Item) (t : BTree)
      → page_of (update_tree key f t) ≡ page_of t
  page_of-update_tree key f (leaf page items) = refl
  page_of-update_tree key f (inner page bs) = refl

  pub items_of-update_branches :
      (key : List ℕ) (f : List Item → List Item) (bs : Branches)
      → items_of (update_branches key f bs) ≡ items_of bs
  items_of-update_branches key f (last t) = refl
  items_of-update_branches key f (branch t x bs) = elim (Sign-cases (bytescmp x.key key)) [
    | inl e ↦ rw (update_branches_at key f t x bs zero_sign e)
    | inr (inl e) ↦ rw (update_branches_at key f t x bs plus e)
    | inr (inr e) ↦
        rw (update_branches_at key f t x bs minus e) (ap (x ∷◌) (items_of-update_branches key f bs))
  ]

  pub pages_of-update_branches :
      (key : List ℕ) (f : List Item → List Item) (bs : Branches)
      → pages_of (update_branches key f bs) ≡ pages_of bs
  pages_of-update_branches key f (last t) = ap (λ p. p ∷ []) (page_of-update_tree key f t)
  pages_of-update_branches key f (branch t x bs) = elim (Sign-cases (bytescmp x.key key)) [
    | inl e ↦
        rw (update_branches_at key f t x bs zero_sign e)
          (ap (λ p. p ∷ pages_of bs) (page_of-update_tree key f t))
    | inr (inl e) ↦
        rw (update_branches_at key f t x bs plus e)
          (ap (λ p. p ∷ pages_of bs) (page_of-update_tree key f t))
    | inr (inr e) ↦
        rw (update_branches_at key f t x bs minus e)
          (ap (page_of t ∷◌) (pages_of-update_branches key f bs))
  ]

mutual
  pub height-update_tree :
      (key : List ℕ) (f : List Item → List Item) (t : BTree)
      → height (update_tree key f t) ≡ height t
  height-update_tree key f (leaf page items) = refl
  height-update_tree key f (inner page bs) = omega (arith, height_branches-update_branches key f bs)

  height_branches-update_branches :
      (key : List ℕ) (f : List Item → List Item) (bs : Branches)
      → height_branches (update_branches key f bs) ≡ height_branches bs
  height_branches-update_branches key f (last t) = height-update_tree key f t
  height_branches-update_branches key f (branch t x bs) = elim (Sign-cases (bytescmp x.key key)) [
    | inl e ↦ rw (update_branches_at key f t x bs zero_sign e, height-update_tree key f t)
    | inr (inl e) ↦ rw (update_branches_at key f t x bs plus e, height-update_tree key f t)
    | inr (inr e) ↦
        rw (update_branches_at key f t x bs minus e, height_branches-update_branches key f bs)
  ]

-- Two changes of the leaf one after the other are one change, and a change that keeps the items of the
-- leaf keeps the tree.
mutual
  pub update_tree-update_tree :
      (key : List ℕ) (f g : List Item → List Item) (t : BTree)
      → update_tree key g (update_tree key f t) ≡ update_tree key (λ xs. g (f xs)) t
  update_tree-update_tree key f g (leaf page items) = refl
  update_tree-update_tree key f g (inner page bs) =
      ap (inner page) (update_branches-update_branches key f g bs)

  update_branches-update_branches :
      (key : List ℕ) (f g : List Item → List Item) (bs : Branches)
      → update_branches key g (update_branches key f bs) ≡ update_branches key (λ xs. g (f xs)) bs
  update_branches-update_branches key f g (last t) = ap last (update_tree-update_tree key f g t)
  update_branches-update_branches key f g (branch t x bs) = elim (Sign-cases (bytescmp x.key key)) [
    | inl e ↦
        rw
          (
            update_branches_at key f t x bs zero_sign e,
            update_branches_at key g (update_tree key f t) x bs zero_sign e,
            update_branches_at key (λ xs. g (f xs)) t x bs zero_sign e,
          )
          (ap (λ u. branch u x bs) (update_tree-update_tree key f g t))
    | inr (inl e) ↦
        rw
          (
            update_branches_at key f t x bs plus e,
            update_branches_at key g (update_tree key f t) x bs plus e,
            update_branches_at key (λ xs. g (f xs)) t x bs plus e,
          )
          (ap (λ u. branch u x bs) (update_tree-update_tree key f g t))
    | inr (inr e) ↦
        rw
          (
            update_branches_at key f t x bs minus e,
            update_branches_at key g t x (update_branches key f bs) minus e,
            update_branches_at key (λ xs. g (f xs)) t x bs minus e,
          )
          (ap (branch t x) (update_branches-update_branches key f g bs))
  ]
