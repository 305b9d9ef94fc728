-- ===== src/Tree/WaySplit/Steps.antt =====
-- What one step of the way to the node that is split amounts to: the node is a child, or the way goes on.
use toocal.Prelude.{ℕ, ◌+◌, ◌≤◌, ◌<◌, List, ◌∷◌, ◌≡◌, ◌≢◌, insert_idx}
use toocal.Platform.{Platform}
use toocal.Freelist.Allocation.{count}
use toocal.Node.{Node}
use toocal.Dal.{Dal}
use toocal.Dal.Nodes.{HoldsNode}
use toocal.Tree.Shape.{
  BTree, Branches, inner, page_of, items_of, pages_of, node_of, HoldsTree, HoldsBranches,
  height_branches, inorder_branches,
}
use toocal.Tree.SplitParts.{left_part, right_part, IsMiddle}
use toocal.Tree.Descent.{path_below, path_branches}
use toocal.Tree.Placement.{pages, pages_branches}
use toocal.Tree.WaySplit.{Cut, split_branches, turn}

module _ (key : List ℕ) (cut : Cut) where
  abbrev pub Kept : ⦃p : Platform⦄ → Dal → Dal → (t : BTree) → (bs : Branches) → Type 0
  Kept d d' t bs =
      (q : ℕ)
      → 1 ≤ count q (pages_branches bs)
      → count q (pages t) ≡ 0
      → (m : Node) → HoldsNode d q m
      → HoldsNode d' q m

  -- The node is the child at the position.
  pub record Ends (bs : Branches) : Type 0 where
    pub position : ℕ
    pub child : BTree
    pub is_node : page_of child ≡ cut.node
    pub path :
        (i : ℕ) → path_branches key i bs ≡ (i + position, node_of child) ∷ path_below key child
    pub turns :
        (n : Node) (i : ℕ)
        → turn key cut.node n i bs ≡ record { parent = n; index = i + position; child = child }
    pub new_items :
        items_of (split_branches key cut bs) ≡ insert_idx (items_of bs) position cut.middle
    pub new_pages :
        pages_of (split_branches key cut bs) ≡ insert_idx (pages_of bs) (position + 1) cut.page
    pub order :
        IsMiddle cut.at cut.middle (node_of child).items
        → inorder_branches (split_branches key cut bs) ≡ inorder_branches bs
    pub level :
        IsMiddle cut.at cut.middle (node_of child).items
        → height_branches (split_branches key cut bs) ≡ height_branches bs
    pub among : (q : ℕ) → count q (pages child) ≤ count q (pages_branches bs)
    pub held : ⦃p : Platform⦄ (d : Dal) → HoldsBranches d bs → HoldsTree d child
    pub holds :
        ⦃p : Platform⦄ (d d' : Dal)
        → HoldsTree d' (left_part cut.at child)
        → HoldsTree d' (right_part cut.at cut.page child)
        → Kept d d' child bs
        → ((q : ℕ) → count q (pages_branches bs) ≤ 1)
        → HoldsBranches d bs
        → HoldsBranches d' (split_branches key cut bs)

  -- The child at the position is another inner node.
  pub record Continues (bs : Branches) : Type 0 where
    pub position : ℕ
    pub number : ℕ
    pub branches : Branches
    pub other : number ≢ cut.node
    pub path :
        (i : ℕ)
        → path_branches key i bs
          ≡ (i + position, node_of (inner number branches)) ∷ path_branches key 0 branches
    pub turns :
        (n : Node) (i : ℕ)
        → turn key cut.node n i bs ≡ turn key cut.node (node_of (inner number branches)) 0 branches
    pub same_items : items_of (split_branches key cut bs) ≡ items_of bs
    pub same_pages : pages_of (split_branches key cut bs) ≡ pages_of bs
    pub order :
        inorder_branches (split_branches key cut branches) ≡ inorder_branches branches
        → inorder_branches (split_branches key cut bs) ≡ inorder_branches bs
    pub level :
        height_branches (split_branches key cut branches) ≡ height_branches branches
        → height_branches (split_branches key cut bs) ≡ height_branches bs
    pub lower : height_branches branches < height_branches bs
    pub among : (q : ℕ) → count q (pages (inner number branches)) ≤ count q (pages_branches bs)
    pub held : ⦃p : Platform⦄ (d : Dal) → HoldsBranches d bs → HoldsTree d (inner number branches)
    pub holds :
        ⦃p : Platform⦄ (d d' : Dal)
        → HoldsTree d' (inner number (split_branches key cut branches))
        → Kept d d' (inner number branches) bs
        → ((q : ℕ) → count q (pages_branches bs) ≤ 1)
        → HoldsBranches d bs
        → HoldsBranches d' (split_branches key cut bs)
