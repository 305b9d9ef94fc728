-- ===== src/Tree/Rebalance.antt =====
-- `Node::rebalance_remove` of core/node.cpp: a merge, whether a rotation came before it or not.
pub mod AfterRotation
use toocal.Prelude.{
  ℕ, zero, suc, ◌+◌, ◌-◌, ◌<◌, true, false, some, List, [], ◌∷◌, ◌≡◌, ◌≢◌, refl, sym, ap, ◌∙◌,
  arith, inl, inr, length, get_elem?, set, erase_idx, ◌==◌, Bool-cases, eq→==, ne→==,
  lt_of_get_elem?,
}
use toocal.Platform.{Platform, default_page_size}
use toocal.Effects.{ok}
use toocal.Freelist.{release_page}
use toocal.Node.{Item, Node, Rotated, rotate_right, rotate_left}
use toocal.Node.Rotation.{IsRotation, rotate_right-IsRotation, rotate_left-IsRotation}
use toocal.Node.Serializer.RoundTrip.{IsStorable}
use toocal.Dal.{Dal, get_node, can_spare_an_element, no_index}
use toocal.Dal.Pages.{IsHealthy, CanHold}
use toocal.Dal.Nodes.{HoldsNode, Written, write_numbered, get_node-HoldsNode}
use toocal.Dal.SplitIndex.{get_split_index-least}
use toocal.Tree.{merge, try_rotate_right, try_rotate_left, rebalance_remove}
use toocal.Tree.Split.{CanHold-after}
use toocal.Tree.Merge.{CanMerge, joined, shrunk, merge-joined}
use toocal.Tree.Rebalance.AfterRotation.{
  CanRotate, joined-rotated, shrunk-rotated, parent_page, left_rotated, parent_rotated,
  right_rotated, rotated-CanMerge,
}

some_inj : {x y : Item} → some x ≡ some y → x ≡ y
some_inj e = cc

-- A node that can spare an item has one.
some_items : (n : Node) (d : Dal) → can_spare_an_element n d ≡ true → n.items ≢ []
some_items n d spare none_there = elim (get_split_index-least n d).0 [
  | inl e ↦ let never = rw (e, eq→== no_index no_index refl) at spare in cc
  | inr between ↦ let empty : length n.items ≡ 0 = ap length none_there in omega (arith, between.1)
]

module _ ⦃p : Platform⦄ where
  HoldsNode-same :
      {d : Dal} {q q' : ℕ} {n n' : Node} → q ≡ q' → n ≡ n' → HoldsNode d q n → HoldsNode d q' n'
  HoldsNode-same e f h = rw (← e, ← f) h

  -- The outcome of a rebalancing of the child `u` at the index: the nodes `a` and `b` around the
  -- separator are one, and nothing else has changed.
  pub record Rebalanced (d : Dal) (parent u : Node) (index : ℕ) (a b : Node) (j : ℕ)
      (separator : Item) : Type 0 where
    pub after : Dal
    pub result : rebalance_remove parent u index d ≡ ok tt after
    pub healthy : IsHealthy after
    pub left : HoldsNode after a.page_num (joined a separator b)
    pub up : HoldsNode after parent.page_num (shrunk j parent)
    pub others :
        (q : ℕ) (n : Node)
        → q ≢ a.page_num
        → q ≢ parent.page_num
        → q ≢ b.page_num
        → HoldsNode d q n
        → HoldsNode after q n
    pub released : after.freelist ≡ release_page b.page_num d.freelist

  module _ {d : Dal} {parent a b u : Node} {index j : ℕ} {separator : Item}
      (m : CanMerge d parent a b j separator) where
    -- Where the rebalancing comes down to the merge.
    by_merge :
        rebalance_remove parent u index d ≡ merge parent b (suc j) d
        → Rebalanced d parent u index a b j separator
    by_merge same =
        let (d', done, healthy, left, up, others, released) = merge-joined m in
        record {
          after = d';
          result = same ∙ done;
          healthy = healthy;
          left = left;
          up = up;
          others = λ q n not_left not_parent _ h. others q n not_left not_parent h;
          released = released;
        }

    -- Where it comes down to a rotation and the merge of the nodes that this leaves.
    by_rotation :
        (r : Rotated) (c : CanRotate d parent a b r) (rot : IsRotation a parent b j r)
        → separator ≡ rot.old
        → rebalance_remove parent u index d
          ≡ merge r.pnode r.bnode (suc j) (right_rotated m c rot).after
        → Rebalanced d parent u index a b j separator
    by_rotation r c rot same step =
        let (d', done, healthy, left, up, others, released) =
          merge-joined (rotated-CanMerge m c rot same) in
        record {
          after = d';
          result = step ∙ done;
          healthy = healthy;
          left =
              HoldsNode-same rot.pages.0 (joined-rotated rot ∙ ap (λ x. joined a x b) (sym same))
                left;
          up = HoldsNode-same (parent_page m c rot) (shrunk-rotated rot) up;
          others = λ q n not_left not_parent not_right h.
              others q n (λ e. not_left (e ∙ rot.pages.0))
                (λ e. not_parent (e ∙ parent_page m c rot))
                ((right_rotated m c rot).others q n (λ e. not_right (e ∙ rot.pages.1))
                  ((parent_rotated m c rot).others q n (λ e. not_parent (e ∙ parent_page m c rot))
                    ((left_rotated m c rot).others q n (λ e. not_left (e ∙ rot.pages.0)) h)));
          released =
              released
              ∙ ap (λ f. release_page r.bnode.page_num f)
                  ((right_rotated m c rot).rest.same_freelist
                    ∙ (parent_rotated m c rot).rest.same_freelist
                    ∙ (left_rotated m c rot).rest.same_freelist)
              ∙ ap (λ q. release_page q d.freelist) rot.pages.1;
        }

  -- What the rebalancing of the last child `u` needs: the merge with its left sibling `a`, and room
  -- for the nodes that a rotation between them writes.
  pub record CanRebalanceLast (d : Dal) (parent a u : Node) (j : ℕ) (separator : Item)
      : Type 0 where
    pub merges : CanMerge d parent a u j separator
    pub is_last_child : length parent.children ≡ suc (suc j)
    pub rotates :
        (r : Rotated) → rotate_right a parent u (suc j) ≡ some r → CanRotate d parent a u r

  -- The rebalancing of the last child of a parent ends with that child merged into its left
  -- sibling, and not only where the sibling cannot spare an item: after a rotation the merge
  -- follows all the same, and gathers what it would have gathered without.
  pub rebalance_remove-last :
      (d : Dal) (parent a u : Node) (j : ℕ) (separator : Item)
      → CanRebalanceLast d parent a u j separator
      → Rebalanced d parent u (suc j) a u j separator
  unfolding rebalance_remove try_rotate_right try_rotate_left
  rebalance_remove-last d parent a u j separator c =
      let m = c.merges in
      let before : suc j - 1 ≡ j = omega arith in
      let read = get_node-HoldsNode d a.page_num a m.healthy m.held in
      elim (Bool-cases (can_spare_an_element a d)) [
        | inr scant ↦
            let last_one : (suc j + 1 == length parent.children) ≡ true =
              eq→== _ _ (omega (arith, c.is_last_child)) in
            by_merge m
              (rw (ne→== (suc j) 0 (omega arith), before, m.left_child, read, scant, last_one))
        | inl spare ↦
            let (r, rotated, rot, _) =
              rotate_right-IsRotation a parent u j separator (some_items a d spare) m.between in
            let k = c.rotates r rotated in
            let children : r.pnode.children ≡ parent.children =
              ap (λ (n : Node). n.children) rot.parent in
            let last_one : (suc j + 1 == length r.pnode.children) ≡ true =
              eq→== _ _ (omega (arith, c.is_last_child, ap {B = ℕ} length children)) in
            by_rotation m r k rot (some_inj (sym m.between ∙ rot.old_separator)) (
              rw (
                ne→== (suc j) 0 (omega arith),
                before,
                m.left_child,
                read,
                spare,
                rotated,
                (left_rotated m k rot).result,
                (parent_rotated m k rot).result,
                (right_rotated m k rot).result,
                last_one,
              ))
      ]

  -- What the rebalancing of the first child `u` needs: the merge with its right sibling `b`, and room
  -- for the nodes that a rotation between them writes.
  pub record CanRebalanceFirst (d : Dal) (parent u b : Node) (separator : Item) : Type 0 where
    pub merges : CanMerge d parent u b 0 separator
    pub held_right : HoldsNode d b.page_num b
    pub rotates : (r : Rotated) → rotate_left u parent b 0 ≡ some r → CanRotate d parent u b r

  -- The rebalancing of the first child of a parent ends with its right sibling merged into it, again
  -- whether the sibling can spare an item or not.
  pub rebalance_remove-first :
      (d : Dal) (parent u b : Node) (separator : Item)
      → CanRebalanceFirst d parent u b separator
      → Rebalanced d parent u 0 u b 0 separator
  unfolding rebalance_remove try_rotate_right try_rotate_left
  rebalance_remove-first d parent u b separator c =
      let m = c.merges in
      let read = get_node-HoldsNode d b.page_num b m.healthy c.held_right in
      let more : (0 + 1 == length parent.children) ≡ false =
        ne→== _ _ (λ e. omega (arith, lt_of_get_elem? parent.children 1 m.right_child)) in
      elim (Bool-cases (can_spare_an_element b d)) [
        | inr scant ↦ by_merge m (rw (more, m.right_child, read, scant, read))
        | inl spare ↦
            let (r, rotated, rot, _) =
              rotate_left-IsRotation u parent b 0 separator (some_items b d spare) m.between in
            let k = c.rotates r rotated in
            let w = right_rotated m k rot in
            let again : get_node b.page_num w.after ≡ ok r.bnode w.after =
              sym (ap (λ q. get_node q w.after) rot.pages.1)
              ∙ get_node-HoldsNode w.after r.bnode.page_num r.bnode w.healthy w.holds in
            by_rotation m r k rot (some_inj (sym m.between ∙ rot.old_separator)) (
              rw (
                more,
                m.right_child,
                read,
                spare,
                rotated,
                (left_rotated m k rot).result,
                (parent_rotated m k rot).result,
                w.result,
                again,
              ))
      ]
