-- ===== src/Tree/Deletion.antt =====
-- The removal of an item from the leaf that the search for its key ends in, and from a sorted list.
use toocal.Prelude.{
  ℕ, none, some, List, [], ◌∷◌, ◌++◌, ◌≡◌, refl, sym, ap, ◌∙◌, All, inl, inr, erase_idx,
}
use toocal.Utils.{minus, zero_sign, plus, bytescmp}
use toocal.Utils.Order.{Sign-cases}
use toocal.Node.{Item}
use toocal.Tree.Shape.{BTree, Branches, leaf, inner, last, branch, inorder, inorder_branches}
use toocal.Tree.Order.{◌≺◌, IsSorted, IsSorted-middle, All-below, All-below_equal, search_items}
use toocal.Tree.Update.{update_tree, update_branches, update_branches_at}
use toocal.Tree.Search.{position, search_items_at}
use toocal.Tree.Descent.{target, target_branches, target_branches_at}

-- Without the first item that has the key; a greater key ends the search.
abbrev pub remove_sorted : List ℕ → List Item → List Item
remove_sorted key [] = []
remove_sorted key (x ∷ xs) = elim (bytescmp x.key key) [
  | minus ↦ x ∷ remove_sorted key xs
  | zero_sign ↦ xs
  | plus ↦ x ∷ xs
]

-- The items of a leaf without the one at the position of the key.
abbrev pub removed : List ℕ → List Item → List Item
removed key items = erase_idx items (position key items).1

erase_idx-position :
    (key : List ℕ) (items : List Item) (item : Item)
    → search_items key items ≡ some item
    → removed key items ≡ remove_sorted key items
unfolding position
erase_idx-position key [] item h = refl
erase_idx-position key (x ∷ items) item h = elim (Sign-cases (bytescmp x.key key)) [
  | inl e ↦ rw (e, position, remove_sorted)
  | inr (inl e) ↦ let missed = rw (search_items_at key x items plus e) at h in cc
  | inr (inr e) ↦
      let behind = rw (search_items_at key x items minus e) at h in
      rw (e, position, remove_sorted) (ap (x ∷◌) (erase_idx-position key items item behind))
]

pub remove_sorted-append_below :
    (key : List ℕ) (xs ys : List Item)
    → All (λ x. bytescmp x.key key ≡ minus) xs
    → remove_sorted key (xs ++ ys) ≡ xs ++ remove_sorted key ys
remove_sorted-append_below key [] ys h = refl
remove_sorted-append_below key (x ∷ xs) ys h =
    rw (h.0, remove_sorted) (ap (x ∷◌) (remove_sorted-append_below key xs ys h.1))

-- Behind items and an item with smaller keys.
pub remove_sorted-behind :
    (key : List ℕ) (xs ys : List Item) (x : Item)
    → All (λ y. y ≺ x) xs
    → bytescmp x.key key ≡ minus
    → remove_sorted key (xs ++ (x ∷ ys)) ≡ xs ++ (x ∷ remove_sorted key ys)
remove_sorted-behind key xs ys x low e =
    remove_sorted-append_below key xs (x ∷ ys) (All-below key x xs e low)
    ∙ ap (λ zs. xs ++ zs) (rw (e, remove_sorted))

-- In front of an item with a greater key.
pub remove_sorted-append_above :
    (key : List ℕ) (x : Item) (xs ys : List Item)
    → bytescmp x.key key ≡ plus
    → remove_sorted key (xs ++ (x ∷ ys)) ≡ remove_sorted key xs ++ (x ∷ ys)
remove_sorted-append_above key x [] ys h = rw (h, remove_sorted)
remove_sorted-append_above key x (z ∷ xs) ys h = elim (Sign-cases (bytescmp z.key key)) [
  | inl e ↦ rw (e, remove_sorted)
  | inr (inl e) ↦ rw (e, remove_sorted)
  | inr (inr e) ↦ rw (e, remove_sorted) (ap (z ∷◌) (remove_sorted-append_above key x xs ys h))
]

pub All-append : (P : Item → Type 0) (xs ys : List Item) → All P (xs ++ ys) → All P xs × All P ys
All-append P [] ys h = (tt, h)
All-append P (x ∷ xs) ys h = let (a, b) = All-append P xs ys h.1 in ((h.0, a), b)

mutual
  -- The leaf's items are among those of the tree.
  All-target :
      (P : Item → Type 0) (key : List ℕ) (t : BTree)
      → All P (inorder t)
      → All P (target key t).items
  All-target P key (leaf page items) h = h
  All-target P key (inner page bs) h = All-target_branches P key bs h

  All-target_branches :
      (P : Item → Type 0) (key : List ℕ) (bs : Branches)
      → All P (inorder_branches bs)
      → All P (target_branches key bs).items
  All-target_branches P key (last t) h = All-target P key t h
  All-target_branches P key (branch t x bs) h =
      let (under, behind) = All-append P (inorder t) (x ∷ inorder_branches bs) h in
      elim (Sign-cases (bytescmp x.key key)) [
        | inl e ↦ rw (target_branches_at key t x bs zero_sign e) (All-target P key t under)
        | inr (inl e) ↦ rw (target_branches_at key t x bs plus e) (All-target P key t under)
        | inr (inr e) ↦
            rw (target_branches_at key t x bs minus e) (All-target_branches P key bs behind.1)
      ]

search_items-below :
    (key : List ℕ) (items : List Item)
    → All (λ x. bytescmp x.key key ≡ minus) items
    → search_items key items ≡ none
search_items-below key [] h = refl
search_items-below key (x ∷ items) h = rw (h.0, search_items) (search_items-below key items h.1)

-- Where the key is found in the leaf, no item on the way has it.
pub not_passed :
    (key : List ℕ) (t : BTree) (x item : Item)
    → All (λ y. bytescmp y.key x.key ≡ minus) (inorder t)
    → search_items key (target key t).items ≡ some item
    → bytescmp x.key key ≡ zero_sign
    → ⊥
not_passed key t x item low h e =
    let missed = search_items-below key (target key t).items (
      All-target (λ y. bytescmp y.key key ≡ minus) key t
        (All-below_equal key x (inorder t) e low)) in
    cc

mutual
  -- The items of the tree are those of before without the one that has the key.
  pub inorder-remove_tree :
      (key : List ℕ) (t : BTree) (item : Item)
      → IsSorted (inorder t)
      → search_items key (target key t).items ≡ some item
      → inorder (update_tree key (removed key) t) ≡ remove_sorted key (inorder t)
  inorder-remove_tree key (leaf page items) item s h = erase_idx-position key items item h
  inorder-remove_tree key (inner page bs) item s h = inorder-remove_branches key bs item s h

  inorder-remove_branches :
      (key : List ℕ) (bs : Branches) (item : Item)
      → IsSorted (inorder_branches bs)
      → search_items key (target_branches key bs).items ≡ some item
      → inorder_branches (update_branches key (removed key) bs)
        ≡ remove_sorted key (inorder_branches bs)
  inorder-remove_branches key (last t) item s h = inorder-remove_tree key t item s h
  inorder-remove_branches key (branch t x bs) item s h =
      let (left, low, high, right) = IsSorted-middle (inorder t) x (inorder_branches bs) s in
      elim (Sign-cases (bytescmp x.key key)) [
        | inl e ↦
            absurd
              (not_passed key t x item low (rw (target_branches_at key t x bs zero_sign e) at h) e)
        | inr (inl e) ↦ rw (update_branches_at key (removed key) t x bs plus e) (
            ap (λ zs. zs ++ (x ∷ inorder_branches bs))
              (inorder-remove_tree key t item left (rw (target_branches_at key t x bs plus e) at h))
            ∙ sym (remove_sorted-append_above key x (inorder t) (inorder_branches bs) e))
        | inr (inr e) ↦ rw (update_branches_at key (removed key) t x bs minus e) (
            ap (λ zs. inorder t ++ (x ∷ zs))
              (inorder-remove_branches key bs item right
                (rw (target_branches_at key t x bs minus e) at h))
            ∙ sym (remove_sorted-behind key (inorder t) (inorder_branches bs) x low e))
      ]
