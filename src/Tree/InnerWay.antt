-- ===== src/Tree/InnerWay.antt =====
-- The steps of `find_key` of core/node.cpp down to the inner node that has the key.
use toocal.Prelude.{
  ℕ, suc, ◌+◌, ◌≤◌, false, some, List, [], ◌∷◌, ◌≡◌, refl, ap, ◌∙◌, arith, get_elem?,
}
use native.Mathlib.Nat.{le_refl}
use toocal.Platform.{Platform}
use toocal.Utils.{minus, plus}
use toocal.Node.{Item}
use toocal.Dal.{Dal}
use toocal.Tree.Shape.{
  BTree, Branches, page_of, items_of, pages_of, node_of, HoldsTree, HoldsBranches, height,
  height_branches, inorder, inorder_branches,
}
use toocal.Tree.Order.{IsSorted, IsSorted-middle}
use toocal.Tree.Search.{position, position_at}
use toocal.Tree.Descent.{
  target, target_branches, target_branches_at, path_below, path_branches, path_branches_at,
  indexes_of,
}
use toocal.Tree.InnerSite.{
  InNode, in_node, under, InBranches, in_last, in_front, behind, site, site_branches, replaced,
  replaced_branches, replaced_path, replaced_path_from, hit_step,
}

module _ (key : List ℕ) (f : List Item → List Item) (before : Item) where
  pub page_of-replaced :
      (t : BTree) (s : InNode key t) → page_of (replaced key f before t s) ≡ page_of t
  page_of-replaced _ (in_node page bs h) = refl
  page_of-replaced _ (under page bs b) = refl

  -- The step at a node above the one that has the key.
  pub record UnderStep (i : ℕ) (bs : Branches) (b : InBranches key bs) : Type 0 where
    pub child : BTree
    pub child_site : InNode key child
    pub missed : (position key (items_of bs)).0 ≡ false
    pub there : get_elem? (pages_of bs) (position key (items_of bs)).1 ≡ some (page_of child)
    pub path :
        indexes_of (path_branches key i bs)
        ≡ (i + (position key (items_of bs)).1) ∷ indexes_of (path_below key child)
    pub same_target : target_branches key bs ≡ target key child
    pub same_site : site_branches key f before bs b ≡ site key f before child child_site
    pub items : items_of (replaced_branches key f before bs b) ≡ items_of bs
    pub pages : pages_of (replaced_branches key f before bs b) ≡ pages_of bs
    pub path_after :
        replaced_path_from key f before i bs b
        ≡ (i + (position key (items_of bs)).1, node_of (replaced key f before child child_site))
          ∷ replaced_path key f before child child_site
    pub lower : height child ≤ height_branches bs
    pub sorted : IsSorted (inorder_branches bs) → IsSorted (inorder child)
    pub holds : ⦃p : Platform⦄ (d : Dal) → HoldsBranches d bs → HoldsTree d child
    pub holds_after :
        ⦃p : Platform⦄ (d : Dal)
        → HoldsBranches d (replaced_branches key f before bs b)
        → HoldsTree d (replaced key f before child child_site)

  pub under_step : (i : ℕ) (bs : Branches) (b : InBranches key bs) → UnderStep i bs b
  unfolding position
  under_step i _ (in_last t s) = record {
    child = t;
    child_site = s;
    missed = refl;
    there = refl;
    path = ap (λ j. j ∷ indexes_of (path_below key t)) (omega arith);
    same_target = refl;
    same_site = refl;
    items = refl;
    pages = ap (λ q. q ∷ []) (page_of-replaced t s);
    path_after =
        ap (λ j. (j, node_of (replaced key f before t s)) ∷ replaced_path key f before t s)
          (omega arith);
    lower = le_refl (height t);
    sorted = λ o. o;
    holds = λ d h. h;
    holds_after = λ d h. h;
  }
  under_step i _ (in_front t x bs e s) =
      let place = position_at key x (items_of bs) plus e in
      record {
        child = t;
        child_site = s;
        missed = rw place;
        there = rw place;
        path =
            ap indexes_of (path_branches_at key i t x bs plus e)
            ∙ rw place (ap (λ j. j ∷ indexes_of (path_below key t)) (omega arith));
        same_target = target_branches_at key t x bs plus e;
        same_site = refl;
        items = refl;
        pages = ap (λ q. q ∷ pages_of bs) (page_of-replaced t s);
        path_after = rw place (
            ap (λ j. (j, node_of (replaced key f before t s)) ∷ replaced_path key f before t s)
              (omega arith));
        lower = omega arith;
        sorted = λ o. (IsSorted-middle (inorder t) x (inorder_branches bs) o).0;
        holds = λ d h. h.0;
        holds_after = λ d h. h.0;
      }
  under_step i _ (behind t x bs e b) =
      let place = position_at key x (items_of bs) minus e in
      let rest = under_step (suc i) bs b in
      record {
        child = rest.child;
        child_site = rest.child_site;
        missed = rw place rest.missed;
        there = rw place rest.there;
        path =
            ap indexes_of (path_branches_at key i t x bs minus e)
            ∙ rest.path
            ∙ rw place (ap (λ j. j ∷ indexes_of (path_below key rest.child)) (omega arith));
        same_target = target_branches_at key t x bs minus e ∙ rest.same_target;
        same_site = rest.same_site;
        items = ap (x ∷◌) rest.items;
        pages = ap (page_of t ∷◌) rest.pages;
        path_after =
            rest.path_after
            ∙ rw place (
                ap
                  (λ j.
                    (j, node_of (replaced key f before rest.child rest.child_site))
                    ∷ replaced_path key f before rest.child rest.child_site)
                  (omega arith));
        lower = omega (arith, rest.lower);
        sorted = λ o. rest.sorted (IsSorted-middle (inorder t) x (inorder_branches bs) o).3;
        holds = λ d h. rest.holds d h.1;
        holds_after = λ d h. rest.holds_after d h.1;
      }

  mutual
    pub height-replaced :
        (t : BTree) (s : InNode key t) → height (replaced key f before t s) ≡ height t
    height-replaced _ (in_node page bs h) = ap suc (hit_step key f before 0 bs h).same_height
    height-replaced _ (under page bs b) = ap suc (height_branches-replaced bs b)

    height_branches-replaced :
        (bs : Branches) (b : InBranches key bs)
        → height_branches (replaced_branches key f before bs b) ≡ height_branches bs
    height_branches-replaced _ (in_last t s) = height-replaced t s
    height_branches-replaced _ (in_front t x bs e s) = rw (height-replaced t s)
    height_branches-replaced _ (behind t x bs e b) = rw (height_branches-replaced bs b)
