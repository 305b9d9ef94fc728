-- ===== src/Tree/Placement.antt =====
-- `find_key` of core/node.cpp without `exact`, on a store that holds a tree: where a new key goes; and
-- the store after the leaf there has been written.
use toocal.Prelude.{
  ℕ, zero, suc, ◌≤◌, ◌<◌, false, none, List, [], ◌∷◌, ◌++◌, ◌≡◌, ◌≢◌, refl, sym, ap, ◌∙◌, arith,
  inl, inr,
}
use mathlib.Core.List.{append_assoc, append-nil}
use native.Mathlib.Nat.{zero-add}
use toocal.Platform.{Platform}
use toocal.Effects.{ok}
use toocal.Utils.{minus, zero_sign, plus, bytescmp}
use toocal.Utils.Order.{Sign-cases}
use toocal.Freelist.Allocation.{count, count-append}
use toocal.Node.{Item, Node}
use toocal.Dal.{Dal}
use toocal.Dal.Pages.{IsHealthy}
use toocal.Dal.Nodes.{get_node-HoldsNode, HoldsNode}
use toocal.Tree.{located, find_key_helper}
use toocal.Tree.Shape.{
  BTree, Branches, leaf, inner, last, branch, page_of, items_of, node_of, HoldsTree, HoldsBranches,
  HoldsTree-root, height,
}
use toocal.Tree.Order.{search_tree}
use toocal.Tree.Search.{position, find_key_in_node-position, leaf_cases, inner_not_leaf}
use toocal.Tree.Update.{
  update_tree, update_branches, update_branches_at, items_of-update_branches,
  pages_of-update_branches,
}
use toocal.Tree.Descent.{target, target_branches, target_branches_at, path_below, indexes_of, step}

-- All pages of the tree.
abbrev mutual
  pub pages : BTree → List ℕ
  pages (leaf page items) = page ∷ []
  pages (inner page bs) = page ∷ pages_branches bs

  pub pages_branches : Branches → List ℕ
  pages_branches (last t) = pages t
  pages_branches (branch t x bs) = pages t ++ pages_branches bs

mutual
  pub pages-update_tree :
      (key : List ℕ) (f : List Item → List Item) (t : BTree) → pages (update_tree key f t) ≡ pages t
  pages-update_tree key f (leaf page items) = refl
  pages-update_tree key f (inner page bs) = ap (page ∷◌) (pages-update_branches key f bs)

  pub pages-update_branches :
      (key : List ℕ) (f : List Item → List Item) (bs : Branches)
      → pages_branches (update_branches key f bs) ≡ pages_branches bs
  pages-update_branches key f (last t) = pages-update_tree key f t
  pages-update_branches key f (branch t x bs) = elim (Sign-cases (bytescmp x.key key)) [
    | inl e ↦
        rw (update_branches_at key f t x bs zero_sign e)
          (ap (λ ps. ps ++ pages_branches bs) (pages-update_tree key f t))
    | inr (inl e) ↦
        rw (update_branches_at key f t x bs plus e)
          (ap (λ ps. ps ++ pages_branches bs) (pages-update_tree key f t))
    | inr (inr e) ↦
        rw (update_branches_at key f t x bs minus e)
          (ap (λ ps. pages t ++ ps) (pages-update_branches key f bs))
  ]

-- The leaf's node with other items.
abbrev pub changed : (List Item → List Item) → Node → Node
changed f n = record n { items = f n.items }

mutual
  pub target-page : (key : List ℕ) (t : BTree) → 1 ≤ count (target key t).page_num (pages t)
  target-page key (leaf page items) = ground arith
  target-page key (inner page bs) = ground (arith, target_branches-page key bs)

  pub target_branches-page :
      (key : List ℕ) (bs : Branches)
      → 1 ≤ count (target_branches key bs).page_num (pages_branches bs)
  target_branches-page key (last t) = target-page key t
  target_branches-page key (branch t x bs) = elim (Sign-cases (bytescmp x.key key)) [
    | inl e ↦ rw (target_branches_at key t x bs zero_sign e) (
        omega (
          arith,
          target-page key t,
          count-append (target key t).page_num (pages t) (pages_branches bs),
        ))
    | inr (inl e) ↦ rw (target_branches_at key t x bs plus e) (
        omega (
          arith,
          target-page key t,
          count-append (target key t).page_num (pages t) (pages_branches bs),
        ))
    | inr (inr e) ↦ rw (target_branches_at key t x bs minus e) (
        omega (
          arith,
          target_branches-page key bs,
          count-append (target_branches key bs).page_num (pages t) (pages_branches bs),
        ))
  ]

pub other_page : (p q : ℕ) (qs : List ℕ) → count p (q ∷ qs) ≡ 0 → q ≢ p
other_page p q qs h e = ground arith

module _ ⦃p : Platform⦄ where
  pub find_key_helper-target :
      (d : Dal) (fuel : ℕ) (key : List ℕ) (t : BTree) (ancestors : List ℕ)
      → IsHealthy d
      → HoldsTree d t
      → search_tree key t ≡ none
      → height t < fuel
      → find_key_helper fuel key false (node_of t) ancestors d
        ≡ ok
            (
              located (position key (target key t).items).1 (target key t),
              ancestors ++ indexes_of (path_below key t),
            )
            d
  unfolding find_key_helper
  find_key_helper-target d zero key t ancestors healthy h absent lt = absurd (omega arith)
  find_key_helper-target d (suc fuel) key (leaf page items) ancestors healthy h absent lt =
      rw (find_key_in_node-position key (node_of (leaf page items))) (elim (leaf_cases key items) [
        | inl hit ↦ let two = hit.is_answer in cc
        | inr miss ↦ rw (miss.found, append-nil ancestors)
      ])
  find_key_helper-target d (suc fuel) key (inner page bs) ancestors healthy h absent lt =
      let s = step key 0 bs in
      let gone = s.absent absent in
      let held = s.holds d h.1 in
      let next =
        get_node-HoldsNode d (page_of s.child) (node_of s.child) healthy
          (HoldsTree-root d s.child held) in
      let rest =
        find_key_helper-target d fuel key s.child
          (ancestors ++ ((position key (items_of bs)).1 ∷ [])) healthy held gone.1
          (omega (arith, s.lower)) in
      rw (
        find_key_in_node-position key (node_of (inner page bs)),
        gone.0,
        inner_not_leaf d page bs,
        s.there,
        next,
        rest,
        s.path,
        s.same_target,
        append_assoc ancestors ((position key (items_of bs)).1 ∷ [])
            (indexes_of (path_below key s.child)),
        zero-add,
      )

  -- A change of the store at one page.
  module _ (d d' : Dal) (page : ℕ)
      (others : (q : ℕ) (m : Node) → q ≢ page → HoldsNode d q m → HoldsNode d' q m) where
    mutual
      pub HoldsTree-other : (t : BTree) → count page (pages t) ≡ 0 → HoldsTree d t → HoldsTree d' t
      HoldsTree-other (leaf q items) none_here h =
          others q (node_of (leaf q items)) (other_page page q [] none_here) h
      HoldsTree-other (inner q bs) none_here h = (
        others q (node_of (inner q bs)) (other_page page q (pages_branches bs) none_here) h.0,
        HoldsBranches-other bs (omega arith) h.1,
      )

      pub HoldsBranches-other :
          (bs : Branches)
          → count page (pages_branches bs) ≡ 0
          → HoldsBranches d bs
          → HoldsBranches d' bs
      HoldsBranches-other (last t) none_here h = HoldsTree-other t none_here h
      HoldsBranches-other (branch t x bs) none_here h =
          let split = count-append page (pages t) (pages_branches bs) in
          (HoldsTree-other t (omega arith) h.0, HoldsBranches-other bs (omega arith) h.1)

    mutual
      -- The leaf written with its new items makes the store hold the tree with them.
      pub HoldsTree-update_tree :
          (key : List ℕ) (f : List Item → List Item) (t : BTree)
          → (target key t).page_num ≡ page
          → HoldsNode d' page (changed f (target key t))
          → count page (pages t) ≤ 1
          → HoldsTree d t
          → HoldsTree d' (update_tree key f t)
      HoldsTree-update_tree key f (leaf q items) here written once h = rw (← here) at written
      HoldsTree-update_tree key f (inner q bs) here written once h =
          let inside : 1 ≤ count page (pages_branches bs) =
            rw here at (target_branches-page key bs) in
          (
            rw (items_of-update_branches key f bs, pages_of-update_branches key f bs)
                (others q (node_of (inner q bs)) (λ e. ground arith) h.0),
            HoldsBranches-update_branches key f bs here written (omega arith) h.1,
          )

      HoldsBranches-update_branches :
          (key : List ℕ) (f : List Item → List Item) (bs : Branches)
          → (target_branches key bs).page_num ≡ page
          → HoldsNode d' page (changed f (target_branches key bs))
          → count page (pages_branches bs) ≤ 1
          → HoldsBranches d bs
          → HoldsBranches d' (update_branches key f bs)
      HoldsBranches-update_branches key f (last t) here written once h =
          HoldsTree-update_tree key f t here written once h
      HoldsBranches-update_branches key f (branch t x bs) here written once h =
          let split = count-append page (pages t) (pages_branches bs) in
          elim (Sign-cases (bytescmp x.key key)) [
            | inl e ↦
                let same = target_branches_at key t x bs zero_sign e in
                let here' : (target key t).page_num ≡ page =
                  ap (λ (n : Node). n.page_num) (sym same) ∙ here in
                let inside : 1 ≤ count page (pages t) = rw here' at (target-page key t) in
                rw (update_branches_at key f t x bs zero_sign e) (
                  HoldsTree-update_tree key f t here' (rw same at written) (omega arith) h.0,
                  HoldsBranches-other bs (omega arith) h.1,
                )
            | inr (inl e) ↦
                let same = target_branches_at key t x bs plus e in
                let here' : (target key t).page_num ≡ page =
                  ap (λ (n : Node). n.page_num) (sym same) ∙ here in
                let inside : 1 ≤ count page (pages t) = rw here' at (target-page key t) in
                rw (update_branches_at key f t x bs plus e) (
                  HoldsTree-update_tree key f t here' (rw same at written) (omega arith) h.0,
                  HoldsBranches-other bs (omega arith) h.1,
                )
            | inr (inr e) ↦
                let same = target_branches_at key t x bs minus e in
                let here' : (target_branches key bs).page_num ≡ page =
                  ap (λ (n : Node). n.page_num) (sym same) ∙ here in
                let inside : 1 ≤ count page (pages_branches bs) =
                  rw here' at (target_branches-page key bs) in
                rw (update_branches_at key f t x bs minus e) (
                  HoldsTree-other t (omega arith) h.0,
                  HoldsBranches-update_branches key f bs here' (rw same at written) (omega arith)
                      h.1,
                )
          ]
