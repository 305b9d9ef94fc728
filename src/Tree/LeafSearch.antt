-- ===== src/Tree/LeafSearch.antt =====
-- `find_key` of core/node.cpp for a key in a leaf, on a store that holds a tree with growing keys.
use toocal.Prelude.{
  ℕ, zero, suc, ◌<◌, Bool, false, some, List, [], ◌∷◌, ◌++◌, ◌≡◌, refl, arith, inl, inr,
}
use mathlib.Core.List.{append_assoc, append-nil}
use native.Mathlib.Nat.{zero-add}
use toocal.Platform.{Platform}
use toocal.Effects.{ok}
use toocal.Utils.{minus, zero_sign, plus, bytescmp}
use toocal.Utils.Order.{Sign-cases}
use toocal.Node.{Item}
use toocal.Dal.{Dal}
use toocal.Dal.Pages.{IsHealthy}
use toocal.Dal.Nodes.{get_node-HoldsNode}
use toocal.Tree.{located, find_key_helper}
use toocal.Tree.Shape.{
  BTree, Branches, leaf, inner, last, branch, page_of, items_of, node_of, inorder, inorder_branches,
  HoldsTree, HoldsTree-root, height,
}
use toocal.Tree.Order.{IsSorted, IsSorted-middle, search_items}
use toocal.Tree.Search.{
  position, position_at, find_key_in_node-position, leaf_cases, inner_not_leaf,
}
use toocal.Tree.Deletion.{not_passed}
use toocal.Tree.Descent.{target, target_branches, target_branches_at, path_below, indexes_of, step}

position-missed :
    (key : List ℕ) (bs : Branches) (item : Item)
    → IsSorted (inorder_branches bs)
    → search_items key (target_branches key bs).items ≡ some item
    → (position key (items_of bs)).0 ≡ false
unfolding position
position-missed key (last t) item s h = refl
position-missed key (branch t x bs) item s h =
    let (_, low, _, right) = IsSorted-middle (inorder t) x (inorder_branches bs) s in
    elim (Sign-cases (bytescmp x.key key)) [
      | inl e ↦
          absurd
            (not_passed key t x item low (rw (target_branches_at key t x bs zero_sign e) at h) e)
      | inr (inl e) ↦ rw (position_at key x (items_of bs) plus e)
      | inr (inr e) ↦
          rw (position_at key x (items_of bs) minus e)
            (position-missed key bs item right (rw (target_branches_at key t x bs minus e) at h))
    ]

module _ ⦃p : Platform⦄ where
  pub find_key_helper-leaf :
      (d : Dal) (fuel : ℕ) (key : List ℕ) (exact : Bool) (t : BTree) (item : Item)
      (ancestors : List ℕ)
      → IsHealthy d
      → HoldsTree d t
      → IsSorted (inorder t)
      → search_items key (target key t).items ≡ some item
      → height t < fuel
      → find_key_helper fuel key exact (node_of t) ancestors d
        ≡ ok
            (
              located (position key (target key t).items).1 (target key t),
              ancestors ++ indexes_of (path_below key t),
            )
            d
  unfolding find_key_helper
  find_key_helper-leaf d zero key exact t item ancestors healthy h s there lt = absurd (omega arith)
  find_key_helper-leaf d (suc fuel) key exact (leaf page items) item ancestors healthy h s there
        lt =
      rw (find_key_in_node-position key (node_of (leaf page items))) (elim (leaf_cases key items) [
        | inl hit ↦ rw (hit.found, append-nil ancestors)
        | inr miss ↦ let two = miss.is_answer in cc
      ])
  find_key_helper-leaf d (suc fuel) key exact (inner page bs) item ancestors healthy h s there lt =
      let st = step key 0 bs in
      let held = st.holds d h.1 in
      let next =
        get_node-HoldsNode d (page_of st.child) (node_of st.child) healthy
          (HoldsTree-root d st.child held) in
      let rest =
        find_key_helper-leaf d fuel key exact st.child item
          (ancestors ++ ((position key (items_of bs)).1 ∷ [])) healthy held (st.sorted s)
          (rw st.same_target at there) (omega (arith, st.lower)) in
      rw (
        find_key_in_node-position key (node_of (inner page bs)),
        position-missed key bs item s there,
        inner_not_leaf d page bs,
        st.there,
        next,
        rest,
        st.path,
        st.same_target,
        append_assoc ancestors ((position key (items_of bs)).1 ∷ [])
            (indexes_of (path_below key st.child)),
        zero-add,
      )
