-- ===== src/Tree/InnerSearch.antt =====
-- `find_key` of core/node.cpp for a key in an inner node, on a store that holds a tree with growing
-- keys; the child in front of the item, and its last leaf.
use toocal.Prelude.{
  ℕ, zero, suc, ◌<◌, true, List, [], ◌∷◌, ◌++◌, ◌≡◌, refl, sym, ap, ◌∙◌, All, arith, set,
}
use mathlib.Core.List.{append_assoc, append-nil}
use native.Mathlib.Nat.{zero-add}
use toocal.Platform.{Platform}
use toocal.Effects.{ok}
use toocal.Utils.{minus, bytescmp}
use toocal.Node.{Item}
use toocal.Dal.{Dal}
use toocal.Dal.Pages.{IsHealthy}
use toocal.Dal.Nodes.{HoldsNode, get_node-HoldsNode}
use toocal.Tree.{located, find_key_helper}
use toocal.Tree.Shape.{
  BTree, Branches, leaf, inner, last, branch, page_of, items_of, node_of, inorder, inorder_branches,
  HoldsTree, HoldsTree-root, height,
}
use toocal.Tree.Order.{IsSorted}
use toocal.Tree.Search.{position, find_key_in_node-position, inner_not_leaf}
use toocal.Tree.Deletion.{All-append}
use toocal.Tree.Descent.{
  target, target_branches, target_branches_at, path_below, path_branches, path_branches_at,
  indexes_of,
}
use toocal.Tree.InnerRemoval.{
  rightmost, rightmost_branches, rightmost_indexes, rightmost_indexes_from,
}
use toocal.Tree.InnerSite.{Hits, InNode, in_node, under, hit_child, site, hit_step}
use toocal.Tree.InnerWay.{under_step}

mutual
  -- Where all keys are smaller, the way to the key is the one to the last leaf.
  pub rightmost-target :
      (key : List ℕ) (t : BTree)
      → All (λ y. bytescmp y.key key ≡ minus) (inorder t)
      → (rightmost t ≡ target key t) × (rightmost_indexes t ≡ indexes_of (path_below key t))
  rightmost-target key (leaf page items) low = (refl, refl)
  rightmost-target key (inner page bs) low = rightmost_branches-target key 0 bs low

  rightmost_branches-target :
      (key : List ℕ) (i : ℕ) (bs : Branches)
      → All (λ y. bytescmp y.key key ≡ minus) (inorder_branches bs)
      → (rightmost_branches bs ≡ target_branches key bs)
        × (rightmost_indexes_from i bs ≡ indexes_of (path_branches key i bs))
  rightmost_branches-target key i (last t) low =
      let (leaf_there, indexes) = rightmost-target key t low in (leaf_there, ap (i ∷◌) indexes)
  rightmost_branches-target key i (branch t x bs) low =
      let (_, rest) =
        All-append (λ y. bytescmp y.key key ≡ minus) (inorder t) (x ∷ inorder_branches bs) low in
      let (leaf_there, indexes) = rightmost_branches-target key (suc i) bs rest.1 in
      (
        leaf_there ∙ sym (target_branches_at key t x bs minus rest.0),
        indexes ∙ ap indexes_of (sym (path_branches_at key i t x bs minus rest.0)),
      )

module _ ⦃p : Platform⦄ (key : List ℕ) (f : List Item → List Item) (before : Item) where
  -- The inner node that has the key, and the search that finds it.
  pub record SiteFound (fuel : ℕ) (t : BTree) (s : InNode key t) : Type 0 where
    pub page : ℕ
    pub bs : Branches
    pub hit : Hits key bs
    pub same_site : site key f before t s ≡ record (node_of (inner page bs)) {
      items = set (items_of bs) (position key (items_of bs)).1 before;
    }
    pub way : List ℕ
    pub path :
        indexes_of (path_below key t)
        ≡ way
          ++ ((position key (items_of bs)).1 ∷ indexes_of (path_below key (hit_child key bs hit)))
    pub same_target : target key t ≡ target key (hit_child key bs hit)
    pub lower : height (hit_child key bs hit) < height t
    pub sorted : IsSorted (inorder t) → IsSorted (inorder_branches bs)
    pub node_holds : (d : Dal) → HoldsTree d t → HoldsNode d page (node_of (inner page bs))
    pub child_holds : (d : Dal) → HoldsTree d t → HoldsTree d (hit_child key bs hit)
    pub search :
        (d : Dal) (ancestors : List ℕ)
        → IsHealthy d
        → HoldsTree d t
        → find_key_helper fuel key true (node_of t) ancestors d
          ≡ ok
              (located (position key (items_of bs)).1 (node_of (inner page bs)), ancestors ++ way)
              d

  pub site_found : (fuel : ℕ) (t : BTree) (s : InNode key t) → height t < fuel → SiteFound fuel t s
  unfolding find_key_helper
  site_found zero t s lt = absurd (omega arith)
  site_found (suc fuel) _ (in_node page bs h) lt =
      let st = hit_step key f before 0 bs h in
      record {
        page = page;
        bs = bs;
        hit = h;
        same_site = rw (st.items, st.pages);
        way = [];
        path = st.path ∙ rw zero-add;
        same_target = st.same_target;
        lower = omega (arith, st.lower);
        sorted = λ o. o;
        node_holds = λ d held. held.0;
        child_holds = λ d held. st.holds d held.1;
        search = λ d ancestors healthy held. rw (
          find_key_in_node-position key (node_of (inner page bs)),
          st.found,
          append-nil ancestors,
        );
      }
  site_found (suc fuel) _ (under page bs b) lt =
      let st = under_step key f before 0 bs b in
      let rest = site_found fuel st.child st.child_site (omega (arith, st.lower)) in
      let i : ℕ = (position key (items_of bs)).1 in
      record {
        page = rest.page;
        bs = rest.bs;
        hit = rest.hit;
        same_site = st.same_site ∙ rest.same_site;
        way = i ∷ rest.way;
        path = st.path ∙ rw (zero-add, rest.path);
        same_target = st.same_target ∙ rest.same_target;
        lower = omega (arith, st.lower, rest.lower);
        sorted = λ o. rest.sorted (st.sorted o);
        node_holds = λ d held. rest.node_holds d (st.holds d held.1);
        child_holds = λ d held. rest.child_holds d (st.holds d held.1);
        search = λ d ancestors healthy held.
            let next =
              get_node-HoldsNode d (page_of st.child) (node_of st.child) healthy
                (HoldsTree-root d st.child (st.holds d held.1)) in
            let last_part = rest.search d (ancestors ++ (i ∷ [])) healthy (st.holds d held.1) in
            rw (
              find_key_in_node-position key (node_of (inner page bs)),
              st.missed,
              inner_not_leaf d page bs,
              st.there,
              next,
              last_part,
              append_assoc ancestors (i ∷ []) rest.way,
            );
      }
