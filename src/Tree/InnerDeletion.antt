-- ===== src/Tree/InnerDeletion.antt =====
-- The items of a tree after `remove_item_from_internal` of core/node.cpp.
use toocal.Prelude.{ℕ, List, [], ◌∷◌, ◌++◌, ◌≡◌, sym, ap, ◌∙◌, All}
use mathlib.Core.List.{append_assoc}
use toocal.Utils.{minus, plus, zero_sign, bytescmp}
use toocal.Node.{Item}
use toocal.Tree.Shape.{BTree, Branches, leaf, inner, last, branch, inorder, inorder_branches}
use toocal.Tree.Order.{IsSorted, IsSorted-middle, All-below_equal}
use toocal.Tree.Update.{update_tree, update_branches, update_branches_at}
use toocal.Tree.Descent.{target, target_branches, target_branches_at}
use toocal.Tree.Deletion.{
  remove_sorted, remove_sorted-append_below, remove_sorted-append_above, remove_sorted-behind,
  All-append,
}
use toocal.Tree.InnerSite.{
  Hits, at_item, past_item, InNode, in_node, under, InBranches, in_last, in_front, behind,
  hit_replaced, replaced, replaced_branches,
}

-- The leaf's items are replaced by all of them but the last.
abbrev pub keep : List Item → List Item → List Item
keep items _ = items

module _ (key : List ℕ) (items : List Item) (before : Item) where
  mutual
    -- Where all keys are smaller, the last item of the leaf is the last of the tree.
    inorder-keep :
        (t : BTree)
        → All (λ y. bytescmp y.key key ≡ minus) (inorder t)
        → (target key t).items ≡ items ++ (before ∷ [])
        → inorder t ≡ inorder (update_tree key (keep items) t) ++ (before ∷ [])
    inorder-keep (leaf page xs) low e = e
    inorder-keep (inner page bs) low e = inorder_branches-keep bs low e

    inorder_branches-keep :
        (bs : Branches)
        → All (λ y. bytescmp y.key key ≡ minus) (inorder_branches bs)
        → (target_branches key bs).items ≡ items ++ (before ∷ [])
        → inorder_branches bs
          ≡ inorder_branches (update_branches key (keep items) bs) ++ (before ∷ [])
    inorder_branches-keep (last t) low e = inorder-keep t low e
    inorder_branches-keep (branch t x bs) low e =
        let (_, rest) =
          All-append (λ y. bytescmp y.key key ≡ minus) (inorder t) (x ∷ inorder_branches bs) low in
        let tail =
          inorder_branches-keep bs rest.1 (rw (target_branches_at key t x bs minus rest.0) at e) in
        rw (update_branches_at key (keep items) t x bs minus rest.0) (
          ap (λ zs. inorder t ++ (x ∷ zs)) tail
          ∙ sym (
              append_assoc (inorder t) (x ∷ inorder_branches (update_branches key (keep items) bs))
                (before ∷ [])))

  inorder-hit_replaced :
      (bs : Branches) (h : Hits key bs)
      → IsSorted (inorder_branches bs)
      → (target_branches key bs).items ≡ items ++ (before ∷ [])
      → inorder_branches (hit_replaced key (keep items) before bs h)
        ≡ remove_sorted key (inorder_branches bs)
  inorder-hit_replaced _ (at_item t x bs e) s there =
      let (_, low, _, _) = IsSorted-middle (inorder t) x (inorder_branches bs) s in
      let below_key = All-below_equal key x (inorder t) e low in
      let split =
        inorder-keep t below_key (rw (target_branches_at key t x bs zero_sign e) at there) in
      sym (
        remove_sorted-append_below key (inorder t) (x ∷ inorder_branches bs) below_key
        ∙ rw (e, remove_sorted)
            (ap (λ zs. zs ++ inorder_branches bs) split
              ∙ append_assoc (inorder (update_tree key (keep items) t)) (before ∷ [])
                  (inorder_branches bs)))
  inorder-hit_replaced _ (past_item t x bs e h) s there =
      let (_, low, _, right) = IsSorted-middle (inorder t) x (inorder_branches bs) s in
      ap (λ zs. inorder t ++ (x ∷ zs))
        (inorder-hit_replaced bs h right (rw (target_branches_at key t x bs minus e) at there))
      ∙ sym (remove_sorted-behind key (inorder t) (inorder_branches bs) x low e)

  mutual
    -- They are those of before without the one that has the key.
    pub inorder-replaced :
        (t : BTree) (s : InNode key t)
        → IsSorted (inorder t)
        → (target key t).items ≡ items ++ (before ∷ [])
        → inorder (replaced key (keep items) before t s) ≡ remove_sorted key (inorder t)
    inorder-replaced _ (in_node page bs h) sorted there = inorder-hit_replaced bs h sorted there
    inorder-replaced _ (under page bs b) sorted there = inorder_branches-replaced bs b sorted there

    inorder_branches-replaced :
        (bs : Branches) (b : InBranches key bs)
        → IsSorted (inorder_branches bs)
        → (target_branches key bs).items ≡ items ++ (before ∷ [])
        → inorder_branches (replaced_branches key (keep items) before bs b)
          ≡ remove_sorted key (inorder_branches bs)
    inorder_branches-replaced _ (in_last t s) sorted there = inorder-replaced t s sorted there
    inorder_branches-replaced _ (in_front t x bs e s) sorted there =
        let (left, _, _, _) = IsSorted-middle (inorder t) x (inorder_branches bs) sorted in
        ap (λ zs. zs ++ (x ∷ inorder_branches bs))
          (inorder-replaced t s left (rw (target_branches_at key t x bs plus e) at there))
        ∙ sym (remove_sorted-append_above key x (inorder t) (inorder_branches bs) e)
    inorder_branches-replaced _ (behind t x bs e b) sorted there =
        let (_, low, _, right) = IsSorted-middle (inorder t) x (inorder_branches bs) sorted in
        ap (λ zs. inorder t ++ (x ∷ zs))
          (inorder_branches-replaced bs b right
            (rw (target_branches_at key t x bs minus e) at there))
        ∙ sym (remove_sorted-behind key (inorder t) (inorder_branches bs) x low e)
