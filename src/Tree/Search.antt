-- ===== src/Tree/Search.antt =====
-- `find_key` of core/node.cpp on a store that holds a tree: the descent is the search in the tree.
use toocal.Prelude.{
  ℕ, zero, suc, ◌+◌, ◌≤◌, ◌<◌, Bool, true, false, Option, none, some, List, [], ◌∷◌, ◌++◌, ◌≡◌,
  refl, ap, ◌∙◌, ◌⊎◌, inl, inr, arith, get_elem?,
}
use native.Mathlib.Nat.{le_refl}
use toocal.Platform.{Platform}
use toocal.Effects.{Outcome, ok}
use toocal.Utils.{Sign, minus, zero_sign, plus, bytescmp}
use toocal.Utils.Order.{Sign-cases}
use toocal.Node.{Item, Node, is_leaf, find_key_from, find_key_in_node}
use toocal.Dal.{Dal}
use toocal.Dal.Pages.{IsHealthy}
use toocal.Dal.Nodes.{get_node-HoldsNode}
use toocal.Tree.{Found, missing, located, find_key_helper}
use toocal.Tree.Shape.{
  BTree, Branches, leaf, inner, last, branch, page_of, items_of, pages_of, node_of, HoldsTree,
  HoldsBranches, HoldsTree-root, height, height_branches,
}
use toocal.Tree.Order.{search_items, search_tree, search_branches}

-- The index behind the first item not below the key, and whether its key is the key.
unfoldable pub position : List ℕ → List Item → Bool × ℕ
position key [] = (false, 0)
position key (item ∷ items) = elim (bytescmp item.key key) [
  | zero_sign ↦ (true, 0)
  | plus ↦ (false, 0)
  | minus ↦ ((position key items).0, suc (position key items).1)
]

pub position_at :
    (key : List ℕ) (item : Item) (items : List Item) (s : Sign)
    → bytescmp item.key key ≡ s
    → position key (item ∷ items) ≡ elim s [
      | zero_sign ↦ (true, 0)
      | plus ↦ (false, 0)
      | minus ↦ ((position key items).0, suc (position key items).1)
    ]
unfolding position
position_at key item items s e =
    ap
      (λ c. elim c as (λ _. Bool × ℕ) [
        | zero_sign ↦ (true, 0)
        | plus ↦ (false, 0)
        | minus ↦ ((position key items).0, suc (position key items).1)
      ])
      e

pub search_items_at :
    (key : List ℕ) (item : Item) (items : List Item) (s : Sign)
    → bytescmp item.key key ≡ s
    → search_items key (item ∷ items)
      ≡ elim s [ zero_sign ↦ some item | plus ↦ none | minus ↦ search_items key items ]
search_items_at key item items s e =
    ap
      (λ c. elim c as (λ _. Option Item) [
        | zero_sign ↦ some item
        | plus ↦ none
        | minus ↦ search_items key items
      ])
      e

pub search_branches_at :
    (key : List ℕ) (t : BTree) (item : Item) (bs : Branches) (s : Sign)
    → bytescmp item.key key ≡ s
    → search_branches key (branch t item bs)
      ≡ elim s [ zero_sign ↦ some item | plus ↦ search_tree key t | minus ↦ search_branches key bs ]
search_branches_at key t item bs s e =
    ap
      (λ c. elim c as (λ _. Option Item) [
        | zero_sign ↦ some item
        | plus ↦ search_tree key t
        | minus ↦ search_branches key bs
      ])
      e

find_key_from-position :
    (key : List ℕ) (base : ℕ) (items : List Item)
    → find_key_from key base items ≡ ((position key items).0, base + (position key items).1)
unfolding find_key_from position
find_key_from-position key base [] = (ground arith)
find_key_from-position key base (item ∷ items) = elim (Sign-cases (bytescmp item.key key)) [
  | inl e ↦ rw (e, find_key_from, position) (ground arith)
  | inr (inl e) ↦ rw (e, find_key_from, position) (ground arith)
  | inr (inr e) ↦
      rw (e, find_key_from, position, find_key_from-position key (suc base) items) (ground arith)
]

pub find_key_in_node-position :
    (key : List ℕ) (n : Node) → find_key_in_node key n ≡ position key n.items
unfolding find_key_in_node
find_key_in_node-position key n = find_key_from-position key 0 n.items ∙ (ground arith)

-- What the search found is the item that the result points to.
abbrev pub Answers : Found → Option Item → Type 0
Answers missing none = Unit
Answers missing (some item) = ⊥
Answers (located index n) none = ⊥
Answers (located index n) (some item) = get_elem? n.items index ≡ some item

-- The key stands among the items.
pub record Hit (key : List ℕ) (items : List Item) (answer : Option Item) : Type 0 where
  pub found : (position key items).0 ≡ true
  pub item : Item
  pub there : get_elem? items (position key items).1 ≡ some item
  pub is_answer : answer ≡ some item

pub record Miss (key : List ℕ) (items : List Item) (answer : Option Item) : Type 0 where
  pub found : (position key items).0 ≡ false
  pub is_answer : answer ≡ none

pub leaf_cases :
    (key : List ℕ) (items : List Item)
    → Hit key items (search_items key items) ⊎ Miss key items (search_items key items)
unfolding position
leaf_cases key [] = inr (record { found = refl; is_answer = refl })
leaf_cases key (item ∷ items) = elim (Sign-cases (bytescmp item.key key)) [
  | inl e ↦
      let here = position_at key item items zero_sign e in
      let found = search_items_at key item items zero_sign e in
      inl (record { found = rw here; item = item; there = rw here; is_answer = rw found })
  | inr (inl e) ↦
      let here = position_at key item items plus e in
      let found = search_items_at key item items plus e in
      inr (record { found = rw here; is_answer = rw found })
  | inr (inr e) ↦
      let here = position_at key item items minus e in
      let found = search_items_at key item items minus e in
      elim (leaf_cases key items) [
        | inl hit ↦ inl (record {
          found = rw here hit.found;
          item = hit.item;
          there = rw here hit.there;
          is_answer = rw found hit.is_answer;
        })
        | inr miss ↦
            inr (record { found = rw here miss.found; is_answer = rw found miss.is_answer })
      ]
]

module _ ⦃p : Platform⦄ (d : Dal) where
  -- The search goes on in the child at the position.
  pub record Descends (key : List ℕ) (bs : Branches) : Type 0 where
    pub found : (position key (items_of bs)).0 ≡ false
    pub child : BTree
    pub there : get_elem? (pages_of bs) (position key (items_of bs)).1 ≡ some (page_of child)
    pub is_answer : search_branches key bs ≡ search_tree key child
    pub holds : HoldsTree d child
    pub lower : height child ≤ height_branches bs

  pub branch_cases :
      (key : List ℕ) (bs : Branches)
      → HoldsBranches d bs
      → Hit key (items_of bs) (search_branches key bs) ⊎ Descends key bs
  unfolding position
  branch_cases key (last t) h = inr (record {
    found = refl;
    child = t;
    there = refl;
    is_answer = refl;
    holds = h;
    lower = le_refl (height t);
  })
  branch_cases key (branch t item bs) h = elim (Sign-cases (bytescmp item.key key)) [
    | inl e ↦
        let here = position_at key item (items_of bs) zero_sign e in
        let found = search_branches_at key t item bs zero_sign e in
        inl (record { found = rw here; item = item; there = rw here; is_answer = rw found })
    | inr (inl e) ↦
        let here = position_at key item (items_of bs) plus e in
        let found = search_branches_at key t item bs plus e in
        inr (record {
          found = rw here;
          child = t;
          there = rw here;
          is_answer = rw found;
          holds = h.0;
          lower = omega arith;
        })
    | inr (inr e) ↦
        let here = position_at key item (items_of bs) minus e in
        let found = search_branches_at key t item bs minus e in
        elim (branch_cases key bs h.1) [
          | inl hit ↦ inl (record {
            found = rw here hit.found;
            item = hit.item;
            there = rw here hit.there;
            is_answer = rw found hit.is_answer;
          })
          | inr go ↦ inr (record {
            found = rw here go.found;
            child = go.child;
            there = rw here go.there;
            is_answer = rw found go.is_answer;
            holds = go.holds;
            lower = omega (arith, go.lower);
          })
        ]
  ]

  pub inner_not_leaf : (page : ℕ) (bs : Branches) → is_leaf (node_of (inner page bs)) ≡ false
  inner_not_leaf page (last t) = refl
  inner_not_leaf page (branch t item bs) = refl

  -- The outcome of an exact search: the store is as it was, and the answer is that of the tree.
  pub record Searched (o : Outcome Dal (Found × List ℕ)) (answer : Option Item) : Type 0 where
    pub result : Found
    pub ancestors : List ℕ
    pub ends : o ≡ ok (result, ancestors) d
    pub answers : Answers result answer

  pub find_key_helper-Searched :
      (fuel : ℕ) (key : List ℕ) (t : BTree) (ancestors : List ℕ)
      → IsHealthy d
      → HoldsTree d t
      → height t < fuel
      → Searched (find_key_helper fuel key true (node_of t) ancestors d) (search_tree key t)
  unfolding find_key_helper
  find_key_helper-Searched zero key t ancestors healthy h lt = absurd (omega arith)
  find_key_helper-Searched (suc fuel) key (leaf page items) ancestors healthy h lt =
      rw (find_key_in_node-position key (node_of (leaf page items))) (elim (leaf_cases key items) [
        | inl hit ↦ record {
          result = located (position key items).1 (node_of (leaf page items));
          ancestors = ancestors;
          ends = rw hit.found;
          answers = rw hit.is_answer hit.there;
        }
        | inr miss ↦ record {
          result = missing;
          ancestors = ancestors;
          ends = rw miss.found;
          answers = rw miss.is_answer tt;
        }
      ])
  find_key_helper-Searched (suc fuel) key (inner page bs) ancestors healthy h lt =
      rw (find_key_in_node-position key (node_of (inner page bs))) (elim (branch_cases key bs h.1) [
        | inl hit ↦ record {
          result = located (position key (items_of bs)).1 (node_of (inner page bs));
          ancestors = ancestors;
          ends = rw hit.found;
          answers = rw hit.is_answer hit.there;
        }
        | inr go ↦
            let next =
              get_node-HoldsNode d (page_of go.child) (node_of go.child) healthy
                (HoldsTree-root d go.child go.holds) in
            rw (go.found, inner_not_leaf page bs, go.there, next, go.is_answer)
              (find_key_helper-Searched fuel key go.child
                (ancestors ++ ((position key (items_of bs)).1 ∷ [])) healthy go.holds
                (omega (arith, go.lower)))
      ])
