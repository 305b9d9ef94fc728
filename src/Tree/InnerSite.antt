-- ===== src/Tree/InnerSite.antt =====
-- Where `find_key` of core/node.cpp finds a key in an inner node, and the tree after
-- `remove_item_from_internal`: the last item of the leaf in front takes the place of the item.
use toocal.Prelude.{
  ℕ, suc, ◌+◌, ◌≤◌, true, some, List, ◌∷◌, ◌≡◌, ap, ◌∙◌, All, arith, get_elem?, set,
}
use toocal.Platform.{Platform}
use toocal.Utils.{minus, zero_sign, plus, bytescmp}
use toocal.Node.{Item, Node}
use toocal.Dal.{Dal}
use toocal.Tree.Shape.{
  BTree, Branches, inner, last, branch, page_of, items_of, pages_of, node_of, HoldsTree,
  HoldsBranches, height, height_branches, inorder, inorder_branches,
}
use toocal.Tree.Order.{IsSorted, IsSorted-middle, All-below_equal}
use toocal.Tree.Search.{position, position_at}
use toocal.Tree.Update.{
  update_tree, update_branches, update_branches_at, page_of-update_tree, height-update_tree,
}
use toocal.Tree.Descent.{
  target, target_branches, target_branches_at, path_below, path_branches, path_branches_at,
  indexes_of,
}

-- The key is that of an item of the branches themselves.
pub data Hits (key : List ℕ) : Branches → Type 0 where
  at_item :
      (t : BTree) (x : Item) (bs : Branches)
      → bytescmp x.key key ≡ zero_sign
      → Hits key (branch t x bs)
  past_item :
      (t : BTree) (x : Item) (bs : Branches)
      → bytescmp x.key key ≡ minus
      → Hits key bs
      → Hits key (branch t x bs)

mutual
  -- The way to the inner node that has the key.
  pub data InNode (key : List ℕ) : BTree → Type 0 where
    in_node : (page : ℕ) (bs : Branches) → Hits key bs → InNode key (inner page bs)
    under : (page : ℕ) (bs : Branches) → InBranches key bs → InNode key (inner page bs)

  pub data InBranches (key : List ℕ) : Branches → Type 0 where
    in_last : (t : BTree) → InNode key t → InBranches key (last t)
    in_front :
        (t : BTree) (x : Item) (bs : Branches)
        → bytescmp x.key key ≡ plus
        → InNode key t
        → InBranches key (branch t x bs)
    behind :
        (t : BTree) (x : Item) (bs : Branches)
        → bytescmp x.key key ≡ minus
        → InBranches key bs
        → InBranches key (branch t x bs)

-- The child in front of the item.
abbrev pub hit_child : (key : List ℕ) (bs : Branches) → Hits key bs → BTree
hit_child key _ (at_item t x bs e) = t
hit_child key _ (past_item t x bs e h) = hit_child key bs h

module _ (key : List ℕ) (f : List Item → List Item) (before : Item) where
  abbrev pub hit_replaced : (bs : Branches) → Hits key bs → Branches
  hit_replaced _ (at_item t x bs e) = branch (update_tree key f t) before bs
  hit_replaced _ (past_item t x bs e h) = branch t x (hit_replaced bs h)

  abbrev mutual
    -- The leaf in front changed, and the item replaced.
    pub replaced : (t : BTree) → InNode key t → BTree
    replaced _ (in_node page bs h) = inner page (hit_replaced bs h)
    replaced _ (under page bs b) = inner page (replaced_branches bs b)

    pub replaced_branches : (bs : Branches) → InBranches key bs → Branches
    replaced_branches _ (in_last t s) = last (replaced t s)
    replaced_branches _ (in_front t x bs e s) = branch (replaced t s) x bs
    replaced_branches _ (behind t x bs e b) = branch t x (replaced_branches bs b)

  abbrev mutual
    -- The inner node that has the key, with the item replaced.
    pub site : (t : BTree) → InNode key t → Node
    site _ (in_node page bs h) = node_of (inner page (hit_replaced bs h))
    site _ (under page bs b) = site_branches bs b

    pub site_branches : (bs : Branches) → InBranches key bs → Node
    site_branches _ (in_last t s) = site t s
    site_branches _ (in_front t x bs e s) = site t s
    site_branches _ (behind t x bs e b) = site_branches bs b

  abbrev mutual
    -- The nodes on the way to the leaf, after both changes.
    pub replaced_path : (t : BTree) → InNode key t → List (ℕ × Node)
    replaced_path _ (in_node page bs h) =
        let u = update_tree key f (hit_child key bs h) in
        ((position key (items_of bs)).1, node_of u) ∷ path_below key u
    replaced_path _ (under page bs b) = replaced_path_from 0 bs b

    pub replaced_path_from : ℕ → (bs : Branches) → InBranches key bs → List (ℕ × Node)
    replaced_path_from i _ (in_last t s) = (i, node_of (replaced t s)) ∷ replaced_path t s
    replaced_path_from i _ (in_front t x bs e s) = (i, node_of (replaced t s)) ∷ replaced_path t s
    replaced_path_from i _ (behind t x bs e b) = replaced_path_from (suc i) bs b

  -- The step at the inner node that has the key.
  pub record HitStep (i : ℕ) (bs : Branches) (h : Hits key bs) : Type 0 where
    pub found : (position key (items_of bs)).0 ≡ true
    pub old : (x : Item) × (get_elem? (items_of bs) (position key (items_of bs)).1 ≡ some x)
    pub there :
        get_elem? (pages_of bs) (position key (items_of bs)).1 ≡ some (page_of (hit_child key bs h))
    pub path :
        indexes_of (path_branches key i bs)
        ≡ (i + (position key (items_of bs)).1) ∷ indexes_of (path_below key (hit_child key bs h))
    pub same_target : target_branches key bs ≡ target key (hit_child key bs h)
    pub items :
        items_of (hit_replaced bs h) ≡ set (items_of bs) (position key (items_of bs)).1 before
    pub pages : pages_of (hit_replaced bs h) ≡ pages_of bs
    pub lower : height (hit_child key bs h) ≤ height_branches bs
    pub same_height : height_branches (hit_replaced bs h) ≡ height_branches bs
    pub low :
        IsSorted (inorder_branches bs)
        → All (λ y. bytescmp y.key key ≡ minus) (inorder (hit_child key bs h))
    pub holds : ⦃p : Platform⦄ (d : Dal) → HoldsBranches d bs → HoldsTree d (hit_child key bs h)
    pub holds_after :
        ⦃p : Platform⦄ (d : Dal)
        → HoldsBranches d (update_branches key f bs)
        → HoldsBranches d (hit_replaced bs h)
    pub child_after :
        ⦃p : Platform⦄ (d : Dal)
        → HoldsBranches d (hit_replaced bs h)
        → HoldsTree d (update_tree key f (hit_child key bs h))

  pub hit_step : (i : ℕ) (bs : Branches) (h : Hits key bs) → HitStep i bs h
  unfolding position
  hit_step i _ (at_item t x bs e) =
      let place = position_at key x (items_of bs) zero_sign e in
      record {
        found = rw place;
        old = (x, rw place);
        there = rw place;
        path =
            ap indexes_of (path_branches_at key i t x bs zero_sign e)
            ∙ rw place (ap (λ j. j ∷ indexes_of (path_below key t)) (omega arith));
        same_target = target_branches_at key t x bs zero_sign e;
        items = rw place;
        pages = ap (λ q. q ∷ pages_of bs) (page_of-update_tree key f t);
        lower = omega arith;
        same_height = rw (height-update_tree key f t);
        low = λ s.
            let (_, low, _, _) = IsSorted-middle (inorder t) x (inorder_branches bs) s in
            All-below_equal key x (inorder t) e low;
        holds = λ d h. h.0;
        holds_after = λ d h. rw (update_branches_at key f t x bs zero_sign e) at h;
        child_after = λ d h. h.0;
      }
  hit_step i _ (past_item t x bs e h) =
      let place = position_at key x (items_of bs) minus e in
      let rest = hit_step (suc i) bs h in
      record {
        found = rw place rest.found;
        old = (rest.old.0, rw place rest.old.1);
        there = rw place rest.there;
        path =
            ap indexes_of (path_branches_at key i t x bs minus e)
            ∙ rest.path
            ∙ rw place
                (ap (λ j. j ∷ indexes_of (path_below key (hit_child key bs h))) (omega arith));
        same_target = target_branches_at key t x bs minus e ∙ rest.same_target;
        items = rw place (ap (x ∷◌) rest.items);
        pages = ap (page_of t ∷◌) rest.pages;
        lower = omega (arith, rest.lower);
        same_height = rw rest.same_height;
        low = λ s. rest.low (IsSorted-middle (inorder t) x (inorder_branches bs) s).3;
        holds = λ d h. rest.holds d h.1;
        holds_after = λ d h.
            let g = rw (update_branches_at key f t x bs minus e) at h in
            (g.0, rest.holds_after d g.1);
        child_after = λ d h. rest.child_after d h.1;
      }
