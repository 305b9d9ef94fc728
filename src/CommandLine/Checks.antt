-- ===== src/CommandLine/Checks.antt =====
-- The two checking loops of cli/main.cpp on a collection whose root page holds a tree.
use toocal.Prelude.{
  ℕ, ◌<◌, ◌≡◌, ◌⊎◌, ◌↔◌, refl, sym, ap, ◌∙◌, true, none, some, Option-cases, Bool-cases, List, [],
  ◌∷◌, All, inl, inr, arith, subst,
}
use toocal.Platform.{Platform}
use toocal.Effects.{Outcome, ok, terminated}
use toocal.Node.{Item}
use toocal.Tree.Shape.{BTree, inorder, height}
use toocal.Tree.Order.{IsSorted, find_item}
use toocal.Collection.{Collection, find}
use toocal.Collection.Find.{IsTree, find-find_item}
use toocal.CommandLine.{Entry, same_text, find_all, find_none}

same_text-eq : (a b : List ℕ) → same_text a b ≡ true → a ≡ b
same_text-eq [] [] h = refl
same_text-eq [] (b ∷ ys) h = cc
same_text-eq (a ∷ xs) [] h = cc
same_text-eq (a ∷ xs) (b ∷ ys) h = ground (arith, same_text-eq xs ys)

same_text_refl : (a : List ℕ) → same_text a a ≡ true
same_text_refl [] = refl
same_text_refl (a ∷ xs) = ground (arith, same_text_refl xs)

-- The item with the key of the entry has its value.
abbrev pub IsStored : List Item → Entry → Type 0
IsStored items e = find_item e.key items ≡ some (record { key = e.key; value = e.value })

abbrev pub IsGone : List Item → Entry → Type 0
IsGone items e = find_item e.key items ≡ none

IsStored-texts :
    (items : List Item) (e : Entry) (item : Item)
    → find_item e.key items ≡ some item
    → IsStored items e
    → (same_text e.key item.key ≡ true) × (same_text e.value item.value ≡ true)
IsStored-texts items e item there stored =
    let same : record { key = e.key; value = e.value } ≡ item = cc in
    subst (λ (x : Item). (same_text e.key x.key ≡ true) × (same_text e.value x.value ≡ true)) same
      (same_text_refl e.key, same_text_refl e.value)

module _ ⦃p : Platform⦄ (c : Collection) (t : BTree) (fuel : ℕ) (is_tree : IsTree c t)
    (sorted : IsSorted (inorder t)) (enough : height t < fuel) where
  found : (key : List ℕ) → find fuel key c ≡ ok (find_item key (inorder t)) c
  found key = find-find_item fuel key c t is_tree sorted enough

  find_all-IsStored :
      (entries : List Entry)
      → ((find_all fuel entries c ≡ ok tt c) × All (IsStored (inorder t)) entries)
        ⊎ ((find_all fuel entries c ≡ terminated) × ¬ All (IsStored (inorder t)) entries)
  unfolding find_all
  find_all-IsStored [] = inl (refl, tt)
  find_all-IsStored (e ∷ entries) = elim (Option-cases (find_item e.key (inorder t))) [
    | inl gone ↦ inr (rw (found e.key, gone), λ h. let two = h.0 in cc)
    | inr (item, there) ↦ elim (Bool-cases (same_text e.key item.key)) [
      | inl key ↦ elim (Bool-cases (same_text e.value item.value)) [
        | inl value ↦
            let same : item ≡ record { key = e.key; value = e.value } = (λ i. record {
              key = sym (same_text-eq e.key item.key key) i;
              value = sym (same_text-eq e.value item.value value) i;
            }) in
            elim (find_all-IsStored entries) [
              | inl (done, stored) ↦
                  inl (rw (found e.key, there, key, value, done), (there ∙ ap some same, stored))
              | inr (stopped, missing) ↦
                  inr (rw (found e.key, there, key, value, stopped), λ h. missing h.1)
            ]
        | inr other ↦ inr (
          rw (found e.key, there, key, other),
          λ h. let two = (IsStored-texts (inorder t) e item there h.0).1 in cc,
        )
      ]
      | inr other ↦ inr (
        rw (found e.key, there, other),
        λ h. let two = (IsStored-texts (inorder t) e item there h.0).0 in cc,
      )
    ]
  ]

  find_none-IsGone :
      (entries : List Entry)
      → ((find_none fuel entries c ≡ ok tt c) × All (IsGone (inorder t)) entries)
        ⊎ ((find_none fuel entries c ≡ terminated) × ¬ All (IsGone (inorder t)) entries)
  unfolding find_none
  find_none-IsGone [] = inl (refl, tt)
  find_none-IsGone (e ∷ entries) = elim (Option-cases (find_item e.key (inorder t))) [
    | inl gone ↦ elim (find_none-IsGone entries) [
      | inl (done, none_left) ↦ inl (rw (found e.key, gone, done), (gone, none_left))
      | inr (stopped, some_left) ↦ inr (rw (found e.key, gone, stopped), λ h. some_left h.1)
    ]
    | inr (item, there) ↦ inr (rw (found e.key, there), λ h. let two = h.0 in cc)
  ]

  -- On a tree with strictly growing keys, with fuel for its height: the loop that looks the entries up
  -- succeeds exactly where the tree has an item with the key and the value of each entry, the last
  -- loop exactly where it has no item with a key of theirs, and each ends the process otherwise.
  pub checks-exact :
      (entries : List Entry)
      → ((find_all fuel entries c ≡ ok tt c) ↔ All (IsStored (inorder t)) entries)
        × ((find_all fuel entries c ≡ ok tt c) ⊎ (find_all fuel entries c ≡ terminated))
        × ((find_none fuel entries c ≡ ok tt c) ↔ All (IsGone (inorder t)) entries)
        × ((find_none fuel entries c ≡ ok tt c) ⊎ (find_none fuel entries c ≡ terminated))
  checks-exact entries =
      let stored = exactly (find_all-IsStored entries) in
      let gone = exactly (find_none-IsGone entries) in (stored.0, stored.1, gone.0, gone.1)
    where
      exactly :
          {P : Type 0} {o : Outcome Collection (Unit {0})}
          → ((o ≡ ok tt c) × P) ⊎ ((o ≡ terminated) × ¬ P)
          → ((o ≡ ok tt c) ↔ P) × ((o ≡ ok tt c) ⊎ (o ≡ terminated))
      exactly (inl (done, h)) = ((λ _. h, λ _. done), inl done)
      exactly (inr (stopped, missing)) = ((λ done. cc, λ h. absurd (missing h)), inr stopped)
