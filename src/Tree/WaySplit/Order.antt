-- ===== src/Tree/WaySplit/Order.antt =====
-- The items, the height and the pages of a tree with a node on the way split.
use toocal.Prelude.{ℕ, zero, suc, ◌≤◌, ◌<◌, List, ◌≡◌, ap, ◌∙◌, arith, inl, inr}
use native.Mathlib.Nat.{zero-add}
use toocal.Freelist.Allocation.{count}
use toocal.Tree.Shape.{
  Branches, inner, page_of, node_of, inorder, height, height_branches, inorder_branches,
}
use toocal.Tree.Placement.{pages, pages_branches}
use toocal.Tree.Kept.{page_of-pages}
use toocal.Tree.SplitParts.{IsMiddle}
use toocal.Tree.WaySplit.{Cut, Turn, split_tree, split_branches, turn}
use toocal.Tree.WaySplit.Steps.{Ends, Continues}
use toocal.Tree.WaySplit.Cases.{way_cases}

-- Where the way from an inner node comes to the node that is split.
abbrev pub turn_of : List ℕ → Cut → ℕ → Branches → Turn
turn_of key cut q bs = turn key cut.node (node_of (inner q bs)) 0 bs

-- The node is on the way, and is cut at its middle item.
abbrev pub IsCut : List ℕ → Cut → ℕ → Branches → Type 0
IsCut key cut q bs =
    let t = turn_of key cut q bs in
    (page_of t.child ≡ cut.node) × IsMiddle cut.at cut.middle (node_of t.child).items

module _ (key : List ℕ) (cut : Cut) where
  pub at_end :
      (q : ℕ) (bs : Branches) (end : Ends key cut bs)
      → turn_of key cut q bs
        ≡ record { parent = node_of (inner q bs); index = end.position; child = end.child }
  at_end q bs end =
      end.turns (node_of (inner q bs)) 0
      ∙ ap (λ j. record { parent = node_of (inner q bs); index = j; child = end.child })
          (zero-add end.position)

  pub at_next :
      (q : ℕ) (bs : Branches) (go : Continues key cut bs)
      → turn_of key cut q bs ≡ turn_of key cut go.number go.branches
  at_next q bs go = go.turns (node_of (inner q bs)) 0

  pub IsCut-next :
      (q : ℕ) (bs : Branches) (go : Continues key cut bs)
      → IsCut key cut q bs
      → IsCut key cut go.number go.branches
  IsCut-next q bs go c = rw (← at_next q bs go) c

  inorder-split :
      (fuel q : ℕ) (bs : Branches)
      → height_branches bs < fuel
      → IsCut key cut q bs
      → (inorder_branches (split_branches key cut bs) ≡ inorder_branches bs)
        × (height_branches (split_branches key cut bs) ≡ height_branches bs)
  inorder-split zero q bs lt c = absurd (omega arith)
  inorder-split (suc fuel) q bs lt c = elim (way_cases key cut bs (node_of (inner q bs)) 0 c.0) [
    | inl end ↦ let middle = (rw (at_end q bs end) at c).1 in (end.order middle, end.level middle)
    | inr go ↦
        let rest =
          inorder-split fuel go.number go.branches (omega (arith, go.lower))
            (IsCut-next q bs go c) in
        (go.order rest.0, go.level rest.1)
  ]

  -- No item is lost or moved past another, and the tree is as high as before.
  pub inorder-split_tree :
      (q : ℕ) (bs : Branches)
      → IsCut key cut q bs
      → inorder (split_tree key cut (inner q bs)) ≡ inorder (inner q bs)
  inorder-split_tree q bs c = (inorder-split (suc (height_branches bs)) q bs (omega arith) c).0

  pub height-split_tree :
      (q : ℕ) (bs : Branches)
      → IsCut key cut q bs
      → height (split_tree key cut (inner q bs)) ≡ height (inner q bs)
  height-split_tree q bs c =
      ap suc (inorder-split (suc (height_branches bs)) q bs (omega arith) c).1

  -- The parent and the child stand in the tree.
  pub turn_of-pages :
      (fuel q : ℕ) (bs : Branches)
      → height_branches bs < fuel
      → IsCut key cut q bs
      → (1 ≤ count (turn_of key cut q bs).parent.page_num (pages (inner q bs)))
        × (1 ≤ count cut.node (pages_branches bs))
  turn_of-pages zero q bs lt c = absurd (omega arith)
  turn_of-pages (suc fuel) q bs lt c = elim (way_cases key cut bs (node_of (inner q bs)) 0 c.0) [
    | inl end ↦
        let same =
          ap (λ (t : Turn). count t.parent.page_num (pages (inner q bs))) (at_end q bs end) in
        let here : 1 ≤ count q (pages (inner q bs)) = ground arith in
        let root : 1 ≤ count (page_of end.child) (pages end.child) = page_of-pages end.child in
        let part = end.among cut.node in
        let root' = rw end.is_node at root in
        (omega (arith, same, here), omega (arith, root', part))
    | inr go ↦
        let rest =
          turn_of-pages fuel go.number go.branches (omega (arith, go.lower))
            (IsCut-next q bs go c) in
        let same =
          ap (λ (t : Turn). count t.parent.page_num (pages (inner q bs))) (at_next q bs go) in
        (
          omega (
            arith,
            same,
            rest.0,
            go.among (turn_of key cut go.number go.branches).parent.page_num,
          ),
          omega (arith, rest.1, go.among cut.node),
        )
  ]
