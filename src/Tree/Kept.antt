-- ===== src/Tree/Kept.antt =====
-- The pages of a tree, and a change of the store at none of them.
use toocal.Prelude.{ℕ, ◌≤◌, ◌≡◌, List, refl, arith}
use toocal.Platform.{Platform}
use toocal.Freelist.Allocation.{count, count-append}
use toocal.Node.{Node}
use toocal.Dal.{Dal}
use toocal.Dal.Nodes.{HoldsNode}
use toocal.Tree.Shape.{
  BTree, Branches, leaf, inner, last, branch, page_of, node_of, HoldsTree, HoldsBranches,
}
use toocal.Tree.Placement.{pages, pages_branches}

pub node_of-page : (t : BTree) → page_of t ≡ (node_of t).page_num
node_of-page (leaf q items) = refl
node_of-page (inner q bs) = refl

pub page_of-pages : (t : BTree) → 1 ≤ count (page_of t) (pages t)
page_of-pages (leaf q items) = ground arith
page_of-pages (inner q bs) = ground arith

module _ ⦃p : Platform⦄ where
  -- The nodes of the pages in the list stay.
  abbrev pub Keeps : Dal → Dal → List ℕ → Type 0
  Keeps d d' ps = (q : ℕ) → 1 ≤ count q ps → (m : Node) → HoldsNode d q m → HoldsNode d' q m

  mutual
    pub HoldsTree-kept :
        (d d' : Dal) (t : BTree) → Keeps d d' (pages t) → HoldsTree d t → HoldsTree d' t
    HoldsTree-kept d d' (leaf q items) k h = k q (ground arith) (node_of (leaf q items)) h
    HoldsTree-kept d d' (inner q bs) k h = (
      k q (ground arith) (node_of (inner q bs)) h.0,
      HoldsBranches-kept d d' bs (λ r some_there. k r (ground arith)) h.1,
    )

    pub HoldsBranches-kept :
        (d d' : Dal) (bs : Branches)
        → Keeps d d' (pages_branches bs)
        → HoldsBranches d bs
        → HoldsBranches d' bs
    HoldsBranches-kept d d' (last t) k h = HoldsTree-kept d d' t k h
    HoldsBranches-kept d d' (branch t x bs) k h = (
      HoldsTree-kept d d' t
          (λ q there. k q (omega (arith, there, count-append q (pages t) (pages_branches bs)))) h.0,
      HoldsBranches-kept d d' bs
          (λ q there. k q (omega (arith, there, count-append q (pages t) (pages_branches bs)))) h.1,
    )
