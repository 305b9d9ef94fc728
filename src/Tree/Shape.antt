-- ===== src/Tree/Shape.antt =====
-- The tree that the pages of a store hold, as a value, and its items in order. An inner node has one
-- child more than it has items.
use toocal.Prelude.{ℕ, suc, List, [], ◌∷◌, ◌++◌}
use Prim.Native.Nat.{max}
use toocal.Platform.{Platform}
use toocal.Node.{Item, Node}
use toocal.Dal.{Dal}
use toocal.Dal.Nodes.{HoldsNode}

mutual
  pub data BTree : Type 0 where
    leaf : ℕ → List Item → BTree
    inner : ℕ → Branches → BTree

  pub data Branches : Type 0 where
    last : BTree → Branches
    branch : BTree → Item → Branches → Branches

abbrev pub page_of : BTree → ℕ
page_of (leaf page items) = page
page_of (inner page bs) = page

abbrev pub items_of : Branches → List Item
items_of (last t) = []
items_of (branch t item bs) = item ∷ items_of bs

abbrev pub pages_of : Branches → List ℕ
pages_of (last t) = page_of t ∷ []
pages_of (branch t item bs) = page_of t ∷ pages_of bs

abbrev pub node_of : BTree → Node
node_of (leaf page items) = record { page_num = page; items = items; children = [] }
node_of (inner page bs) = record { page_num = page; items = items_of bs; children = pages_of bs }

abbrev mutual
  -- The items from left to right.
  pub inorder : BTree → List Item
  inorder (leaf page items) = items
  inorder (inner page bs) = inorder_branches bs

  pub inorder_branches : Branches → List Item
  inorder_branches (last t) = inorder t
  inorder_branches (branch t item bs) = inorder t ++ (item ∷ inorder_branches bs)

abbrev mutual
  pub height : BTree → ℕ
  height (leaf page items) = 0
  height (inner page bs) = suc (height_branches bs)

  pub height_branches : Branches → ℕ
  height_branches (last t) = height t
  height_branches (branch t item bs) = max (height t) (height_branches bs)

module _ ⦃p : Platform⦄ (d : Dal) where
  -- Every node of the tree stands on its page.
  abbrev mutual
    pub HoldsTree : BTree → Type 0
    HoldsTree (leaf page items) = HoldsNode d page (node_of (leaf page items))
    HoldsTree (inner page bs) = HoldsNode d page (node_of (inner page bs)) × HoldsBranches bs

    pub HoldsBranches : Branches → Type 0
    HoldsBranches (last t) = HoldsTree t
    HoldsBranches (branch t item bs) = HoldsTree t × HoldsBranches bs

  pub HoldsTree-root : (t : BTree) → HoldsTree t → HoldsNode d (page_of t) (node_of t)
  HoldsTree-root (leaf page items) h = h
  HoldsTree-root (inner page bs) h = h.0
