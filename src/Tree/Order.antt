-- ===== src/Tree/Order.antt =====
-- The search order: looking a key up by descent in a tree, and in its items in order.
use toocal.Prelude.{
  ℕ, Option, none, some, List, [], ◌∷◌, ◌++◌, ◌≡◌, refl, sym, ◌∙◌, All, arith, inl, inr,
}
use toocal.Utils.{minus, zero_sign, plus, bytescmp}
use toocal.Utils.Order.{eq_of_bytescmp, lt_of_gt, gt_of_lt, lt_trans, Sign-cases}
use toocal.Node.{Item}
use toocal.Tree.Shape.{BTree, Branches, leaf, inner, last, branch, inorder, inorder_branches}

infix 50 ◌≺◌
abbrev pub ◌≺◌ : Item → Item → Type 0
a ≺ b = bytescmp a.key b.key ≡ minus

-- The keys grow strictly.
abbrev pub IsSorted : List Item → Type 0
IsSorted [] = Unit
IsSorted (x ∷ xs) = All (λ y. x ≺ y) xs × IsSorted xs

-- The first item with the key.
abbrev pub find_item : List ℕ → List Item → Option Item
find_item key [] = none
find_item key (item ∷ items) = elim (bytescmp item.key key) [
  | zero_sign ↦ some item
  | plus ↦ find_item key items
  | minus ↦ find_item key items
]

-- A greater key ends the search.
abbrev pub search_items : List ℕ → List Item → Option Item
search_items key [] = none
search_items key (item ∷ items) = elim (bytescmp item.key key) [
  | zero_sign ↦ some item
  | plus ↦ none
  | minus ↦ search_items key items
]

abbrev mutual
  pub search_tree : List ℕ → BTree → Option Item
  search_tree key (leaf page items) = search_items key items
  search_tree key (inner page bs) = search_branches key bs

  pub search_branches : List ℕ → Branches → Option Item
  search_branches key (last t) = search_tree key t
  search_branches key (branch t item bs) = elim (bytescmp item.key key) [
    | zero_sign ↦ some item
    | plus ↦ search_tree key t
    | minus ↦ search_branches key bs
  ]

find_item-append_above :
    (key : List ℕ) (xs ys : List Item)
    → All (λ y. bytescmp y.key key ≡ plus) ys
    → find_item key (xs ++ ys) ≡ find_item key xs
find_item-append_above key [] [] h = refl
find_item-append_above key [] (y ∷ ys) h =
    rw (h.0, find_item) (find_item-append_above key [] ys h.1)
find_item-append_above key (x ∷ xs) ys h = ground (arith, find_item-append_above key xs ys h)

-- A key below all items is not among them.
pub find_item-above :
    (key : List ℕ) (ys : List Item)
    → All (λ y. bytescmp key y.key ≡ minus) ys
    → find_item key ys ≡ none
find_item-above key [] h = refl
find_item-above key (y ∷ ys) h = rw (gt_of_lt key y.key h.0, find_item) (find_item-above key ys h.1)

find_item-append_below :
    (key : List ℕ) (xs ys : List Item)
    → All (λ x. bytescmp x.key key ≡ minus) xs
    → find_item key (xs ++ ys) ≡ find_item key ys
find_item-append_below key [] ys h = refl
find_item-append_below key (x ∷ xs) ys h =
    rw (h.0, find_item) (find_item-append_below key xs ys h.1)

pub All-imp :
    {P Q : Item → Type 0} → ((x : Item) → P x → Q x) → (xs : List Item) → All P xs → All Q xs
All-imp f [] a = tt
All-imp f (x ∷ xs) a = (f x a.0, All-imp f xs a.1)

-- Both sides of an item in a sorted list.
pub IsSorted-middle :
    (xs : List Item) (item : Item) (ys : List Item)
    → IsSorted (xs ++ (item ∷ ys))
    → IsSorted xs × All (λ x. x ≺ item) xs × All (λ y. item ≺ y) ys × IsSorted ys
IsSorted-middle [] item ys s = (tt, tt, s.0, s.1)
IsSorted-middle (x ∷ xs) item ys s =
    let (a, b, c, e) = IsSorted-middle xs item ys s.1 in
    let (f, g) = split_all xs s.0 in ((f, a), (g, b), c, e)
  where
    split_all :
        (zs : List Item) → All (λ y. x ≺ y) (zs ++ (item ∷ ys)) → All (λ y. x ≺ y) zs × (x ≺ item)
    split_all [] h = (tt, h.0)
    split_all (z ∷ zs) h = let (f, g) = split_all zs h.1 in ((h.0, f), g)

All-above :
    (key : List ℕ) (item : Item) (ys : List Item)
    → bytescmp item.key key ≡ plus
    → All (λ y. item ≺ y) ys
    → All (λ y. bytescmp y.key key ≡ plus) ys
All-above key item ys h =
    All-imp (λ y g. gt_of_lt key y.key (lt_trans key item.key y.key (lt_of_gt item.key key h) g)) ys

pub All-below :
    (key : List ℕ) (item : Item) (xs : List Item)
    → bytescmp item.key key ≡ minus
    → All (λ x. x ≺ item) xs
    → All (λ x. bytescmp x.key key ≡ minus) xs
All-below key item xs h = All-imp (λ x g. lt_trans x.key item.key key g h) xs

pub All-below_equal :
    (key : List ℕ) (item : Item) (xs : List Item)
    → bytescmp item.key key ≡ zero_sign
    → All (λ x. x ≺ item) xs
    → All (λ x. bytescmp x.key key ≡ minus) xs
All-below_equal key item xs h = All-imp (λ x g. rw (← eq_of_bytescmp item.key key h) g) xs

search_items-find_item :
    (key : List ℕ) (items : List Item)
    → IsSorted items
    → search_items key items ≡ find_item key items
search_items-find_item key [] s = refl
search_items-find_item key (item ∷ items) s = elim (Sign-cases (bytescmp item.key key)) [
  | inl e ↦ rw (e, search_items, find_item)
  | inr (inl e) ↦
      rw (e, search_items, find_item)
        (sym (find_item-append_above key [] items (All-above key item items e s.0)))
  | inr (inr e) ↦ rw (e, search_items, find_item) (search_items-find_item key items s.1)
]

-- A descent at an item of a sorted list.
find_item-middle :
    (key : List ℕ) (xs : List Item) (item : Item) (ys : List Item)
    → IsSorted (xs ++ (item ∷ ys))
    → find_item key (xs ++ (item ∷ ys)) ≡ elim (bytescmp item.key key) [
      | zero_sign ↦ some item
      | plus ↦ find_item key xs
      | minus ↦ find_item key ys
    ]
find_item-middle key xs item ys s =
    let (_, low, high, _) = IsSorted-middle xs item ys s in
    elim (Sign-cases (bytescmp item.key key)) [
      | inl e ↦ rw e (
          find_item-append_below key xs (item ∷ ys) (All-below_equal key item xs e low)
          ∙ rw (e, find_item))
      | inr (inl e) ↦
          rw e (find_item-append_above key xs (item ∷ ys) (e, All-above key item ys e high))
      | inr (inr e) ↦ rw e (
          find_item-append_below key xs (item ∷ ys) (All-below key item xs e low)
          ∙ rw (e, find_item))
    ]

mutual
  pub search_tree-find_item :
      (key : List ℕ) (t : BTree)
      → IsSorted (inorder t)
      → search_tree key t ≡ find_item key (inorder t)
  search_tree-find_item key (leaf page items) s = search_items-find_item key items s
  search_tree-find_item key (inner page bs) s = search_branches-find_item key bs s

  search_branches-find_item :
      (key : List ℕ) (bs : Branches)
      → IsSorted (inorder_branches bs)
      → search_branches key bs ≡ find_item key (inorder_branches bs)
  search_branches-find_item key (last t) s = search_tree-find_item key t s
  search_branches-find_item key (branch t item bs) s =
      let (left, _, _, right) = IsSorted-middle (inorder t) item (inorder_branches bs) s in
      let under = search_tree-find_item key t left in
      let behind = search_branches-find_item key bs right in
      (λ i. elim (bytescmp item.key key) [
        | zero_sign ↦ some item
        | plus ↦ under i
        | minus ↦ behind i
      ])
      ∙ sym (find_item-middle key (inorder t) item (inorder_branches bs) s)
