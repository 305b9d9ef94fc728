-- ===== src/Tree/WaySplit/Store.antt =====
-- The store after `Node::split` of core/node.cpp has split a node on the way: it holds the tree with the
-- node split.
use toocal.Prelude.{ℕ, zero, suc, ◌≤◌, ◌<◌, List, ◌≡◌, ◌≢◌, sym, ◌∙◌, arith, inl, inr}
use toocal.Platform.{Platform}
use toocal.Freelist.{get_next_page}
use toocal.Freelist.Allocation.{count}
use toocal.Node.{Node}
use toocal.Dal.{Dal}
use toocal.Dal.Nodes.{HoldsNode}
use toocal.Tree.Shape.{Branches, inner, page_of, node_of, HoldsTree, height_branches}
use toocal.Tree.Placement.{pages}
use toocal.Tree.Kept.{page_of-pages, node_of-page}
use toocal.Tree.Split.{SplitDone, left_half, right_half, grown}
use toocal.Tree.SplitParts.{BelowKept, HoldsTree-left_part, HoldsTree-right_part}
use toocal.Tree.WaySplit.{Cut, Turn, split_tree}
use toocal.Tree.WaySplit.Steps.{Ends, Continues}
use toocal.Tree.WaySplit.Cases.{way_cases}
use toocal.Tree.WaySplit.Order.{turn_of, IsCut, at_end, at_next, IsCut-next, turn_of-pages}

module _ ⦃p : Platform⦄ (key : List ℕ) (cut : Cut) (d d' : Dal) where
  -- What is left of a child and of its parent.
  pub record IsSplit (t : Turn) : Type 0 where
    pub left : HoldsNode d' (page_of t.child) (left_half cut.at (node_of t.child))
    pub right : HoldsNode d' cut.page (right_half cut.at cut.page (node_of t.child))
    pub up : HoldsNode d' t.parent.page_num (grown t.index cut.middle cut.page t.parent)
    pub others :
        (q : ℕ) (n : Node)
        → q ≢ page_of t.child
        → q ≢ cut.page
        → q ≢ t.parent.page_num
        → HoldsNode d q n
        → HoldsNode d' q n

  module _ (q : ℕ) (bs : Branches) (once : (r : ℕ) → count r (pages (inner q bs)) ≤ 1)
      (fresh : count cut.page (pages (inner q bs)) ≡ 0) (h : HoldsTree d (inner q bs))
      (c : IsCut key cut q bs) where
    HoldsTree-Ends :
        (end : Ends key cut bs)
        → IsSplit
            (record { parent = node_of (inner q bs); index = end.position; child = end.child })
        → HoldsTree d' (split_tree key cut (inner q bs))
    HoldsTree-Ends end s =
        let middle = (rw (at_end key cut q bs end) at c).1 in
        let held = end.held d h.1 in
        let below : BelowKept d d' end.child = λ r there apart n.
          let part = end.among r in
          let all = once r in s.others r n apart (λ e. ground arith) (λ e. ground arith) in
        let one : count (page_of end.child) (pages end.child) ≤ 1 =
          (let part = end.among (page_of end.child) in
            let all = once (page_of end.child) in omega arith) in
        (
          rw (end.new_items, end.new_pages) s.up,
          end.holds d d'
              (HoldsTree-left_part d d' cut.at cut.middle end.child middle held below one s.left)
              (HoldsTree-right_part d d' cut.at cut.middle cut.page end.child middle held below one
                s.right)
              (λ r there outside n.
                let all = once r in
                let root = page_of-pages end.child in
                s.others r n (λ e. ground arith) (λ e. ground arith) (λ e. ground arith))
              (λ r. let all = once r in omega arith) h.1,
        )

    HoldsTree-Continues :
        (go : Continues key cut bs)
        → IsSplit (turn_of key cut go.number go.branches)
        → HoldsTree d' (split_tree key cut (inner go.number go.branches))
        → HoldsTree d' (split_tree key cut (inner q bs))
    HoldsTree-Continues go s below =
        let c' = IsCut-next key cut q bs go c in
        let (parent_below, child_below) =
          turn_of-pages key cut (suc (height_branches go.branches)) go.number go.branches
            (omega arith) c' in
        let child_page = c'.0 in
        (
          rw (go.same_items, go.same_pages)
              (s.others q (node_of (inner q bs))
                (λ e. let all = once q in let part = go.among q in ground arith) (λ e. ground arith)
                (λ e. let all = once q in let part = go.among q in ground arith) h.0),
          go.holds d d' below
              (λ r there outside n.
                s.others r n (λ e. ground arith) (λ e. ground arith) (λ e. ground arith))
              (λ r. let all = once r in omega arith) h.1,
        )

  pub HoldsTree-split_tree :
      (fuel q : ℕ) (bs : Branches)
      → height_branches bs < fuel
      → IsSplit (turn_of key cut q bs)
      → IsCut key cut q bs
      → ((r : ℕ) → count r (pages (inner q bs)) ≤ 1)
      → count cut.page (pages (inner q bs)) ≡ 0
      → HoldsTree d (inner q bs)
      → HoldsTree d' (split_tree key cut (inner q bs))
  HoldsTree-split_tree zero q bs lt s c once fresh h = absurd (omega arith)
  HoldsTree-split_tree (suc fuel) q bs lt s c once fresh h =
      elim (way_cases key cut bs (node_of (inner q bs)) 0 c.0) [
        | inl end ↦ HoldsTree-Ends q bs once fresh h c end (rw (at_end key cut q bs end) at s)
        | inr go ↦
            let s' = rw (at_next key cut q bs go) at s in
            let below =
              HoldsTree-split_tree fuel go.number go.branches (omega (arith, go.lower)) s'
                (IsCut-next key cut q bs go c)
                (λ r. let all = once r in let part = go.among r in omega arith)
                (let part = go.among cut.page in omega arith) (go.held d h.1) in
            HoldsTree-Continues q bs once fresh h c go s' below
      ]

module _ ⦃p : Platform⦄ (key : List ℕ) (cut : Cut) {d : Dal} (t : Turn) where
  pub SplitDone-IsSplit :
      (done : SplitDone d t.parent (node_of t.child) t.index cut.at cut.middle)
      → (get_next_page d.freelist).0 ≡ cut.page
      → IsSplit key cut d done.after t
  SplitDone-IsSplit done e =
      let same = node_of-page t.child in
      record {
        left = rw same done.left;
        right = rw (← e) done.right;
        up = rw (← e) done.up;
        others = λ q n not_left not_right not_parent h.
            done.others q n (λ x. not_left (x ∙ sym same)) (λ x. not_right (x ∙ e)) not_parent h;
      }
