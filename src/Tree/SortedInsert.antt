-- ===== src/Tree/SortedInsert.antt =====
-- The insertion into a sorted list, as an update of the map that `find_item` reads.
use toocal.Prelude.{ℕ, Option, none, some, List, [], ◌∷◌, ◌≡◌, refl, sym, ap, ◌∙◌, All, inl, inr}
use toocal.Utils.{Sign, minus, zero_sign, plus, bytescmp}
use toocal.Utils.Order.{Sign-cases, eq_of_bytescmp, lt_of_gt, gt_of_lt, lt_trans}
use toocal.Node.{Item}
use toocal.Tree.Order.{IsSorted, ◌≺◌, find_item, All-imp}
use toocal.Tree.Insertion.{insert_sorted}

All-insert_sorted :
    (P : Item → Type 0) (item : Item) (xs : List Item)
    → P item
    → All P xs
    → All P (insert_sorted item xs)
All-insert_sorted P item [] h a = (h, tt)
All-insert_sorted P item (x ∷ xs) h a = elim (Sign-cases (bytescmp x.key item.key)) [
  | inl e ↦ rw (e, insert_sorted) (h, a)
  | inr (inl e) ↦ rw (e, insert_sorted) (h, a)
  | inr (inr e) ↦ rw (e, insert_sorted) (a.0, All-insert_sorted P item xs h a.1)
]

pub insert_sorted-IsSorted :
    (item : Item) (xs : List Item)
    → IsSorted xs
    → find_item item.key xs ≡ none
    → IsSorted (insert_sorted item xs)
insert_sorted-IsSorted item [] s absent = (tt, tt)
insert_sorted-IsSorted item (x ∷ xs) s absent = elim (Sign-cases (bytescmp x.key item.key)) [
  | inl e ↦ let found = rw (e, find_item) at absent in cc
  | inr (inl e) ↦
      let above = lt_of_gt x.key item.key e in
      rw (e, insert_sorted)
        ((above, All-imp (λ y h. lt_trans item.key x.key y.key above h) xs s.0), s)
  | inr (inr e) ↦
      rw (e, insert_sorted)
        (
          All-insert_sorted (λ y. x ≺ y) item xs e s.0,
          insert_sorted-IsSorted item xs s.1 (rw (e, find_item) at absent),
        )
]

-- The map with the item's key set.
abbrev pub updated : Item → List ℕ → List Item → Option Item
updated item k xs = elim (bytescmp item.key k) [
  | zero_sign ↦ some item
  | plus ↦ find_item k xs
  | minus ↦ find_item k xs
]

updated_at :
    (item : Item) (k : List ℕ) (xs : List Item) (s : Sign)
    → bytescmp item.key k ≡ s
    → updated item k xs
      ≡ elim s [ zero_sign ↦ some item | plus ↦ find_item k xs | minus ↦ find_item k xs ]
updated_at item k xs s e =
    ap
      (λ c. elim c as (λ _. Option Item) [
        | zero_sign ↦ some item
        | plus ↦ find_item k xs
        | minus ↦ find_item k xs
      ])
      e

pub find_item_at :
    (k : List ℕ) (x : Item) (xs : List Item) (s : Sign)
    → bytescmp x.key k ≡ s
    → find_item k (x ∷ xs)
      ≡ elim s [ zero_sign ↦ some x | plus ↦ find_item k xs | minus ↦ find_item k xs ]
find_item_at k x xs s e =
    ap
      (λ c. elim c as (λ _. Option Item) [
        | zero_sign ↦ some x
        | plus ↦ find_item k xs
        | minus ↦ find_item k xs
      ])
      e

updated_eq :
    (item : Item) (k : List ℕ) (xs ys : List Item)
    → find_item k xs ≡ find_item k ys
    → updated item k xs ≡ updated item k ys
updated_eq item k xs ys e =
    ap
      (λ r. elim (bytescmp item.key k) as (λ _. Option Item) [
        | zero_sign ↦ some item
        | plus ↦ r
        | minus ↦ r
      ])
      e

pub find_item-insert_sorted :
    (item : Item) (k : List ℕ) (xs : List Item)
    → find_item item.key xs ≡ none
    → find_item k (insert_sorted item xs) ≡ updated item k xs
find_item-insert_sorted item k [] absent = refl
find_item-insert_sorted item k (x ∷ xs) absent = elim (Sign-cases (bytescmp x.key item.key)) [
  | inl e ↦ let found = rw (e, find_item) at absent in cc
  | inr (inl e) ↦ rw (e, insert_sorted)
  | inr (inr e) ↦
      let rest = find_item-insert_sorted item k xs (rw (e, find_item) at absent) in
      elim (Sign-cases (bytescmp x.key k)) [
        | inl f ↦
            let above : bytescmp item.key k ≡ plus =
              rw (← eq_of_bytescmp x.key k f) (gt_of_lt x.key item.key e) in
            rw (e, insert_sorted)
              (find_item_at k x (insert_sorted item xs) zero_sign f
                ∙ sym (updated_at item k (x ∷ xs) plus above ∙ find_item_at k x xs zero_sign f))
        | inr (inl f) ↦
            rw (e, insert_sorted)
              (find_item_at k x (insert_sorted item xs) plus f
                ∙ rest
                ∙ updated_eq item k xs (x ∷ xs) (sym (find_item_at k x xs plus f)))
        | inr (inr f) ↦
            rw (e, insert_sorted)
              (find_item_at k x (insert_sorted item xs) minus f
                ∙ rest
                ∙ updated_eq item k xs (x ∷ xs) (sym (find_item_at k x xs minus f)))
      ]
]
