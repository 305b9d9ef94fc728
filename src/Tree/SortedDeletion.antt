-- ===== src/Tree/SortedDeletion.antt =====
-- The removal from a sorted list, as an update of the map that `find_item` reads.
use toocal.Prelude.{ℕ, Option, none, List, [], ◌∷◌, ◌≡◌, sym, ap, ◌∙◌, All, inl, inr}
use toocal.Utils.{Sign, minus, zero_sign, plus, bytescmp}
use toocal.Utils.Order.{Sign-cases, eq_of_bytescmp, lt_of_gt, gt_of_lt, lt_trans}
use toocal.Node.{Item}
use toocal.Tree.Order.{IsSorted, ◌≺◌, find_item, find_item-above, All-imp}
use toocal.Tree.SortedInsert.{find_item_at}
use toocal.Tree.Deletion.{remove_sorted}

All-remove_sorted :
    (P : Item → Type 0) (key : List ℕ) (xs : List Item) → All P xs → All P (remove_sorted key xs)
All-remove_sorted P key [] h = tt
All-remove_sorted P key (x ∷ xs) h = elim (Sign-cases (bytescmp x.key key)) [
  | inl e ↦ rw (e, remove_sorted) h.1
  | inr (inl e) ↦ rw (e, remove_sorted) h
  | inr (inr e) ↦ rw (e, remove_sorted) (h.0, All-remove_sorted P key xs h.1)
]

pub remove_sorted-IsSorted :
    (key : List ℕ) (xs : List Item) → IsSorted xs → IsSorted (remove_sorted key xs)
remove_sorted-IsSorted key [] s = tt
remove_sorted-IsSorted key (x ∷ xs) s = elim (Sign-cases (bytescmp x.key key)) [
  | inl e ↦ rw (e, remove_sorted) s.1
  | inr (inl e) ↦ rw (e, remove_sorted) s
  | inr (inr e) ↦
      rw (e, remove_sorted)
        (All-remove_sorted (λ y. x ≺ y) key xs s.0, remove_sorted-IsSorted key xs s.1)
]

-- The map with the key unset.
abbrev pub cleared : List ℕ → List ℕ → List Item → Option Item
cleared key k xs = elim (bytescmp key k) [
  | zero_sign ↦ none
  | plus ↦ find_item k xs
  | minus ↦ find_item k xs
]

cleared_at :
    (key k : List ℕ) (xs : List Item) (s : Sign)
    → bytescmp key k ≡ s
    → cleared key k xs
      ≡ elim s [ zero_sign ↦ none | plus ↦ find_item k xs | minus ↦ find_item k xs ]
cleared_at key k xs s e =
    ap
      (λ c. elim c as (λ _. Option Item) [
        | zero_sign ↦ none
        | plus ↦ find_item k xs
        | minus ↦ find_item k xs
      ])
      e

cleared_eq :
    (key k : List ℕ) (xs ys : List Item)
    → find_item k xs ≡ find_item k ys
    → cleared key k xs ≡ cleared key k ys
cleared_eq key k xs ys e =
    ap
      (λ r. elim (bytescmp key k) as (λ _. Option Item) [ zero_sign ↦ none | plus ↦ r | minus ↦ r ])
      e

pub find_item-remove_sorted :
    (key k : List ℕ) (xs : List Item)
    → IsSorted xs
    → find_item k (remove_sorted key xs) ≡ cleared key k xs
find_item-remove_sorted key k [] s = elim (Sign-cases (bytescmp key k)) [
  | inl e ↦ sym (cleared_at key k [] zero_sign e)
  | inr (inl e) ↦ sym (cleared_at key k [] plus e)
  | inr (inr e) ↦ sym (cleared_at key k [] minus e)
]
find_item-remove_sorted key k (x ∷ xs) s = elim (Sign-cases (bytescmp x.key key)) [
  | inl e ↦
      let same = eq_of_bytescmp x.key key e in
      rw (e, remove_sorted)
        (elim (Sign-cases (bytescmp key k)) [
          | inl f ↦
              let above : All (λ y. bytescmp k y.key ≡ minus) xs =
                All-imp (λ y g. rw (← eq_of_bytescmp key k f, ← same) g) xs s.0 in
              find_item-above k xs above ∙ sym (cleared_at key k (x ∷ xs) zero_sign f)
          | inr (inl f) ↦
              sym (cleared_at key k (x ∷ xs) plus f ∙ find_item_at k x xs plus (rw same f))
          | inr (inr f) ↦
              sym (cleared_at key k (x ∷ xs) minus f ∙ find_item_at k x xs minus (rw same f))
        ])
  | inr (inl e) ↦
      rw (e, remove_sorted)
        (elim (Sign-cases (bytescmp key k)) [
          | inl f ↦
              let first : bytescmp k x.key ≡ minus =
                rw (← eq_of_bytescmp key k f) (lt_of_gt x.key key e) in
              let above : All (λ y. bytescmp k y.key ≡ minus) xs =
                All-imp (λ y g. lt_trans k x.key y.key first g) xs s.0 in
              find_item-above k (x ∷ xs) (first, above)
              ∙ sym (cleared_at key k (x ∷ xs) zero_sign f)
          | inr (inl f) ↦ sym (cleared_at key k (x ∷ xs) plus f)
          | inr (inr f) ↦ sym (cleared_at key k (x ∷ xs) minus f)
        ])
  | inr (inr e) ↦
      let rest = find_item-remove_sorted key k xs s.1 in
      rw (e, remove_sorted)
        (elim (Sign-cases (bytescmp x.key k)) [
          | inl f ↦
              let above : bytescmp key k ≡ plus =
                rw (← eq_of_bytescmp x.key k f) (gt_of_lt x.key key e) in
              find_item_at k x (remove_sorted key xs) zero_sign f
              ∙ sym (cleared_at key k (x ∷ xs) plus above ∙ find_item_at k x xs zero_sign f)
          | inr (inl f) ↦
              find_item_at k x (remove_sorted key xs) plus f
              ∙ rest
              ∙ cleared_eq key k xs (x ∷ xs) (sym (find_item_at k x xs plus f))
          | inr (inr f) ↦
              find_item_at k x (remove_sorted key xs) minus f
              ∙ rest
              ∙ cleared_eq key k xs (x ∷ xs) (sym (find_item_at k x xs minus f))
        ])
]
