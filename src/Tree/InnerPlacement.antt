-- ===== src/Tree/InnerPlacement.antt =====
-- The store after the two writes of `remove_item_from_internal` of core/node.cpp holds the tree with
-- both changes.
use toocal.Prelude.{ℕ, ◌≤◌, List, ◌≡◌, ◌≢◌, arith}
use toocal.Platform.{Platform}
use toocal.Utils.{minus, plus}
use toocal.Freelist.Allocation.{count, count-append}
use toocal.Node.{Item, Node}
use toocal.Dal.{Dal}
use toocal.Dal.Nodes.{HoldsNode}
use toocal.Tree.Shape.{BTree, Branches, inner, node_of, HoldsTree, HoldsBranches}
use toocal.Tree.Update.{
  update_tree, update_branches, update_branches_at, items_of-update_branches,
  pages_of-update_branches,
}
use toocal.Tree.Placement.{
  pages, pages_branches, pages-update_branches, HoldsTree-other, HoldsBranches-other,
}
use toocal.Tree.InnerSite.{
  InNode, in_node, under, InBranches, in_last, in_front, behind, site, site_branches, replaced,
  replaced_branches, hit_step,
}
use toocal.Tree.InnerWay.{under_step}

module _ (key : List ℕ) (f : List Item → List Item) (before : Item) where
  mutual
    pub site-page :
        (t : BTree) (s : InNode key t) → 1 ≤ count (site key f before t s).page_num (pages t)
    site-page _ (in_node page bs h) = ground arith
    site-page _ (under page bs b) = ground (arith, site_branches-page bs b)

    site_branches-page :
        (bs : Branches) (b : InBranches key bs)
        → 1 ≤ count (site_branches key f before bs b).page_num (pages_branches bs)
    site_branches-page _ (in_last t s) = site-page t s
    site_branches-page _ (in_front t x bs e s) = omega (
      arith,
      site-page t s,
      count-append (site key f before t s).page_num (pages t) (pages_branches bs),
    )
    site_branches-page _ (behind t x bs e b) = omega (
      arith,
      site_branches-page bs b,
      count-append (site_branches key f before bs b).page_num (pages t) (pages_branches bs),
    )

  module _ ⦃p : Platform⦄ (d d' : Dal) (page : ℕ)
      (others : (q : ℕ) (m : Node) → q ≢ page → HoldsNode d q m → HoldsNode d' q m) where
    mutual
      -- The inner node written with the new item, where the leaf has been written before.
      pub HoldsTree-replaced :
          (t : BTree) (s : InNode key t)
          → (site key f before t s).page_num ≡ page
          → HoldsNode d' page (site key f before t s)
          → count page (pages t) ≤ 1
          → HoldsTree d (update_tree key f t)
          → HoldsTree d' (replaced key f before t s)
      HoldsTree-replaced _ (in_node q bs h) here written once held =
          let st = hit_step key f before 0 bs h in
          let none_here : count page (pages_branches bs) ≡ 0 = ground arith in
          (
            rw (← here) at written,
            st.holds_after d' (
                HoldsBranches-other d d' page others (update_branches key f bs)
                  (rw (pages-update_branches key f bs) none_here) held.1),
          )
      HoldsTree-replaced _ (under q bs b) here written once held =
          let st = under_step key f before 0 bs b in
          let inside : 1 ≤ count page (pages_branches bs) = rw here at (site_branches-page bs b) in
          let root =
            rw (items_of-update_branches key f bs, pages_of-update_branches key f bs) at held.0 in
          (
            rw (st.items, st.pages) (others q (node_of (inner q bs)) (λ e. ground arith) root),
            HoldsBranches-replaced bs b here written (omega arith) held.1,
          )

      HoldsBranches-replaced :
          (bs : Branches) (b : InBranches key bs)
          → (site_branches key f before bs b).page_num ≡ page
          → HoldsNode d' page (site_branches key f before bs b)
          → count page (pages_branches bs) ≤ 1
          → HoldsBranches d (update_branches key f bs)
          → HoldsBranches d' (replaced_branches key f before bs b)
      HoldsBranches-replaced _ (in_last t s) here written once held =
          HoldsTree-replaced t s here written once held
      HoldsBranches-replaced _ (in_front t x bs e s) here written once held =
          let split = count-append page (pages t) (pages_branches bs) in
          let inside : 1 ≤ count page (pages t) = rw here at (site-page t s) in
          let h = rw (update_branches_at key f t x bs plus e) at held in
          (
            HoldsTree-replaced t s here written (omega arith) h.0,
            HoldsBranches-other d d' page others bs (omega arith) h.1,
          )
      HoldsBranches-replaced _ (behind t x bs e b) here written once held =
          let split = count-append page (pages t) (pages_branches bs) in
          let inside : 1 ≤ count page (pages_branches bs) = rw here at (site_branches-page bs b) in
          let h = rw (update_branches_at key f t x bs minus e) at held in
          (
            HoldsTree-other d d' page others t (omega arith) h.0,
            HoldsBranches-replaced bs b here written (omega arith) h.1,
          )
