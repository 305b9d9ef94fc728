-- ===== src/Collection/InnerPath.antt =====
-- The nodes on the way to the last leaf in front of an item of an inner node, as `get_nodes` of
-- core/collection.cpp reads them after the removal of the item.
use toocal.Prelude.{ℕ, zero, suc, ◌<◌, List, ◌∷◌, ◌≡◌, ap, ◌∙◌, sym, arith}
use native.Mathlib.Nat.{zero-add}
use toocal.Platform.{Platform}
use toocal.Effects.{ok}
use toocal.Node.{Item}
use toocal.Dal.{Dal}
use toocal.Dal.Pages.{IsHealthy}
use toocal.Dal.Nodes.{get_node-HoldsNode}
use toocal.Tree.Shape.{BTree, page_of, items_of, node_of, height, HoldsTree, HoldsTree-root}
use toocal.Tree.Search.{position}
use toocal.Tree.Update.{update_tree, page_of-update_tree}
use toocal.Tree.Descent.{path_below, indexes_of, nodes_of}
use toocal.Tree.InnerSite.{InNode, in_node, under, hit_child, replaced, replaced_path, hit_step}
use toocal.Tree.InnerWay.{page_of-replaced, under_step}
use toocal.Collection.{follow}
use toocal.Collection.Path.{indexes_of-update_tree, follow-path_below}

module _ (key : List ℕ) (f : List Item → List Item) (before : Item) where
  -- The removal does not change the way.
  pub indexes_of-replaced_path :
      (fuel : ℕ) (t : BTree) (s : InNode key t)
      → height t < fuel
      → indexes_of (replaced_path key f before t s) ≡ indexes_of (path_below key t)
  indexes_of-replaced_path zero t s lt = absurd (omega arith)
  indexes_of-replaced_path (suc fuel) _ (in_node page bs h) lt =
      let st = hit_step key f before 0 bs h in
      ap ((position key (items_of bs)).1 ∷◌) (indexes_of-update_tree key f (hit_child key bs h))
      ∙ sym (st.path ∙ rw zero-add)
  indexes_of-replaced_path (suc fuel) _ (under page bs b) lt =
      let st = under_step key f before 0 bs b in
      let rest = indexes_of-replaced_path fuel st.child st.child_site (omega (arith, st.lower)) in
      rw (st.path_after, st.path, rest)

  module _ ⦃p : Platform⦄ where
    pub follow-replaced_path :
        (d : Dal) (fuel : ℕ) (t : BTree) (s : InNode key t)
        → IsHealthy d
        → HoldsTree d (replaced key f before t s)
        → height t < fuel
        → follow
            (node_of (replaced key f before t s))
            (indexes_of (replaced_path key f before t s))
            d
          ≡ ok (nodes_of (replaced_path key f before t s)) d
    unfolding follow
    follow-replaced_path d zero t s healthy held lt = absurd (omega arith)
    follow-replaced_path d (suc fuel) _ (in_node page bs h) healthy held lt =
        let st = hit_step key f before 0 bs h in
        let u : BTree = update_tree key f (hit_child key bs h) in
        let u_held = st.child_after d held.1 in
        let next =
          rw (page_of-update_tree key f (hit_child key bs h)) at
            (get_node-HoldsNode d (page_of u) (node_of u) healthy (HoldsTree-root d u u_held)) in
        let rest = follow-path_below d (suc (height u)) key u healthy u_held (omega arith) in
        rw (st.pages, st.there, next, rest)
    follow-replaced_path d (suc fuel) _ (under page bs b) healthy held lt =
        let st = under_step key f before 0 bs b in
        let u : BTree = replaced key f before st.child st.child_site in
        let u_held = st.holds_after d held.1 in
        let next =
          rw (page_of-replaced key f before st.child st.child_site) at
            (get_node-HoldsNode d (page_of u) (node_of u) healthy (HoldsTree-root d u u_held)) in
        let rest =
          follow-replaced_path d fuel st.child st.child_site healthy u_held
            (omega (arith, st.lower)) in
        rw (st.path_after, zero-add, st.pages, st.there, next, rest)
