-- ===== src/Collection/Path.antt =====
-- The nodes on the way to a leaf, as `get_nodes` of core/collection.cpp reads them again, and the loop
-- over them where none is too full.
use toocal.Prelude.{
  ℕ, zero, suc, ◌<◌, false, some, List, [], ◌∷◌, ◌≡◌, ◌≢◌, refl, ap, ◌∙◌, arith, inl, inr, All,
}
use native.Mathlib.Nat.{zero-add}
use toocal.Platform.{Platform}
use toocal.Effects.{ok}
use toocal.Utils.{minus, zero_sign, plus, bytescmp}
use toocal.Utils.Order.{Sign-cases}
use toocal.Freelist.Allocation.{count}
use toocal.Node
use toocal.Node.{Item, Node, add_item}
use toocal.Dal.{Dal, Options, is_over_populated}
use toocal.Dal.Threshold.{above}
use toocal.Dal.Pages.{IsHealthy}
use toocal.Dal.Nodes.{HoldsNode, get_node-HoldsNode}
use toocal.Tree.Shape.{
  BTree, Branches, leaf, inner, last, branch, page_of, node_of, height, HoldsTree, HoldsTree-root,
}
use toocal.Tree.Search.{position}
use toocal.Tree.Update.{update_tree, update_branches, update_branches_at}
use toocal.Tree.Insertion.{inserted, position_le}
use toocal.Tree.Descent.{
  target, path_below, path_branches, path_branches_at, indexes_of, nodes_of, step,
}
use toocal.Node.Insertion.{add_item-insert_idx}
use toocal.Tree.Placement.{pages, changed}
use toocal.Collection.{follow, insert_item, split_ancestors}
use toocal.Collection.Insert.{insert_item-add_item}

pub insert_item-placed :
    (stale : List ℕ) (item : Item) (n : Node)
    → insert_item stale item (position item.key n.items).1 n ≡ some (changed (inserted item) n)
insert_item-placed stale item n =
    insert_item-add_item stale item (position item.key n.items).1 n
    ∙ add_item-insert_idx item (position item.key n.items).1 n (position_le item.key n.items)

mutual
  -- The change does not change the way.
  pub indexes_of-update_tree :
      (key : List ℕ) (f : List Item → List Item) (t : BTree)
      → indexes_of (path_below key (update_tree key f t)) ≡ indexes_of (path_below key t)
  indexes_of-update_tree key f (leaf page items) = refl
  indexes_of-update_tree key f (inner page bs) = indexes_of-update_branches key f 0 bs

  indexes_of-update_branches :
      (key : List ℕ) (f : List Item → List Item) (i : ℕ) (bs : Branches)
      → indexes_of (path_branches key i (update_branches key f bs))
        ≡ indexes_of (path_branches key i bs)
  indexes_of-update_branches key f i (last t) = ap (i ∷◌) (indexes_of-update_tree key f t)
  indexes_of-update_branches key f i (branch t x bs) = elim (Sign-cases (bytescmp x.key key)) [
    | inl e ↦
        rw
          (
            update_branches_at key f t x bs zero_sign e,
            path_branches_at key i t x bs zero_sign e,
            path_branches_at key i (update_tree key f t) x bs zero_sign e,
          )
          (ap (i ∷◌) (indexes_of-update_tree key f t))
    | inr (inl e) ↦
        rw
          (
            update_branches_at key f t x bs plus e,
            path_branches_at key i t x bs plus e,
            path_branches_at key i (update_tree key f t) x bs plus e,
          )
          (ap (i ∷◌) (indexes_of-update_tree key f t))
    | inr (inr e) ↦
        rw
          (
            update_branches_at key f t x bs minus e,
            path_branches_at key i t x bs minus e,
            path_branches_at key i t x (update_branches key f bs) minus e,
          )
          (indexes_of-update_branches key f (suc i) bs)
  ]

pub numbered_root : (t : BTree) → count 0 (pages t) ≡ 0 → page_of t ≢ 0
numbered_root (leaf page items) h e = ground arith
numbered_root (inner page bs) h e = ground arith

pub over_as :
    (n : Node) (d d' : Dal)
    → d'.options ≡ d.options
    → is_over_populated n d' ≡ is_over_populated n d
over_as n d d' e = ap (λ (o : Options). above (Node.size n) o.max_fill_percent o.page_size) e

module _ ⦃p : Platform⦄ where
  -- The loop does not look at the first node.
  pub split_ancestors-calm :
      (d d' : Dal) (n : Node) (ns : List Node) (indexes : List ℕ)
      → d'.options ≡ d.options
      → All (λ m. is_over_populated m d ≡ false) ns
      → split_ancestors (n ∷ ns) indexes d' ≡ ok tt d'
  unfolding split_ancestors
  split_ancestors-calm d d' n [] indexes e calm = refl
  split_ancestors-calm d d' n (m ∷ ns) [] e calm = refl
  split_ancestors-calm d d' n (m ∷ ns) (i ∷ []) e calm = refl
  split_ancestors-calm d d' n (m ∷ ns) (i ∷ (j ∷ is)) e calm =
      rw (split_ancestors-calm d d' m ns (j ∷ is) e calm.1, over_as m d d' e, calm.0)

  pub follow-path_below :
      (d : Dal) (fuel : ℕ) (key : List ℕ) (t : BTree)
      → IsHealthy d
      → HoldsTree d t
      → height t < fuel
      → follow (node_of t) (indexes_of (path_below key t)) d ≡ ok (nodes_of (path_below key t)) d
  unfolding follow
  follow-path_below d zero key t healthy h lt = absurd (omega arith)
  follow-path_below d (suc fuel) key (leaf page items) healthy h lt = refl
  follow-path_below d (suc fuel) key (inner page bs) healthy h lt =
      let s = step key 0 bs in
      let held = s.holds d h.1 in
      let next =
        get_node-HoldsNode d (page_of s.child) (node_of s.child) healthy
          (HoldsTree-root d s.child held) in
      rw (
        s.path,
        zero-add,
        s.there,
        next,
        follow-path_below d fuel key s.child healthy held (omega (arith, s.lower)),
      )

  pub target-HoldsNode :
      (d : Dal) (fuel : ℕ) (key : List ℕ) (t : BTree)
      → HoldsTree d t
      → height t < fuel
      → HoldsNode d (target key t).page_num (target key t)
  target-HoldsNode d zero key t h lt = absurd (omega arith)
  target-HoldsNode d (suc fuel) key (leaf page items) h lt = h
  target-HoldsNode d (suc fuel) key (inner page bs) h lt =
      let s = step key 0 bs in
      rw s.same_target
        (target-HoldsNode d fuel key s.child (s.holds d h.1) (omega (arith, s.lower)))
