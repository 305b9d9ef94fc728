-- ===== src/Tree/SplitParts.antt =====
-- The two halves of a node that `Node::split` of core/node.cpp makes, as trees.
use toocal.Prelude.{
  ℕ, zero, suc, ◌+◌, ◌≤◌, List, ◌∷◌, ◌++◌, ◌≡◌, ◌≢◌, refl, sym, ap, ◌∙◌, arith, some, take, drop,
  get_elem?,
}
use Prim.Native.Nat.{max}
use mathlib.Core.List.{append_assoc}
use native.Mathlib.Nat.{suc-add}
use toocal.Platform.{Platform}
use toocal.Freelist.Allocation.{count}
use toocal.Node.{Item, Node}
use toocal.Dal.{Dal}
use toocal.Dal.Nodes.{HoldsNode}
use toocal.Tree.Shape.{
  BTree, Branches, leaf, inner, last, branch, page_of, items_of, pages_of, node_of, inorder,
  inorder_branches, height, height_branches, HoldsTree, HoldsBranches,
}
use toocal.Tree.Split.{left_half, right_half, take-append-middle, HoldsNode-same}
use toocal.Tree.Placement.{pages, pages_branches}
use toocal.Tree.Kept.{Keeps, HoldsBranches-kept}

-- Up to the item of the index, and from it on; an index out of range does not matter.
abbrev pub take_branches : ℕ → Branches → Branches
take_branches r (last t) = last t
take_branches zero (branch t x bs) = last t
take_branches (suc r) (branch t x bs) = branch t x (take_branches r bs)

abbrev pub drop_branches : ℕ → Branches → Branches
drop_branches r (last t) = last t
drop_branches zero (branch t x bs) = bs
drop_branches (suc r) (branch t x bs) = drop_branches r bs

abbrev pub left_part : ℕ → BTree → BTree
left_part r (leaf q items) = leaf q (take r items)
left_part r (inner q bs) = inner q (take_branches r bs)

abbrev pub right_part : ℕ → ℕ → BTree → BTree
right_part r page (leaf q items) = leaf page (drop (r + 1) items)
right_part r page (inner q bs) = inner page (drop_branches r bs)

pub page_of-left_part : (r : ℕ) (t : BTree) → page_of (left_part r t) ≡ page_of t
page_of-left_part r (leaf q items) = refl
page_of-left_part r (inner q bs) = refl

pub page_of-right_part : (r page : ℕ) (t : BTree) → page_of (right_part r page t) ≡ page
page_of-right_part r page (leaf q items) = refl
page_of-right_part r page (inner q bs) = refl

-- The item of the index is the middle item.
abbrev pub IsMiddle : ℕ → Item → List Item → Type 0
IsMiddle r middle items = get_elem? items r ≡ some middle

items_of-take_branches :
    (r : ℕ) (middle : Item) (bs : Branches)
    → IsMiddle r middle (items_of bs)
    → items_of (take_branches r bs) ≡ take r (items_of bs)
items_of-take_branches r middle (last t) h = refl
items_of-take_branches zero middle (branch t x bs) h = refl
items_of-take_branches (suc r) middle (branch t x bs) h =
    ap (x ∷◌) (items_of-take_branches r middle bs h)

pages_of-take_branches :
    (r : ℕ) (middle : Item) (bs : Branches)
    → IsMiddle r middle (items_of bs)
    → pages_of (take_branches r bs) ≡ take (r + 1) (pages_of bs)
pages_of-take_branches r middle (last t) h = cc
pages_of-take_branches zero middle (branch t x (last u)) h = refl
pages_of-take_branches zero middle (branch t x (branch u y bs)) h = refl
pages_of-take_branches (suc r) middle (branch t x bs) h =
    rw suc-add (ap (page_of t ∷◌) (pages_of-take_branches r middle bs h))

items_of-drop_branches :
    (r : ℕ) (middle : Item) (bs : Branches)
    → IsMiddle r middle (items_of bs)
    → items_of (drop_branches r bs) ≡ drop (r + 1) (items_of bs)
items_of-drop_branches r middle (last t) h = refl
items_of-drop_branches zero middle (branch t x (last u)) h = refl
items_of-drop_branches zero middle (branch t x (branch u y bs)) h = refl
items_of-drop_branches (suc r) middle (branch t x bs) h =
    rw suc-add (items_of-drop_branches r middle bs h)

pages_of-drop_branches :
    (r : ℕ) (middle : Item) (bs : Branches)
    → IsMiddle r middle (items_of bs)
    → pages_of (drop_branches r bs) ≡ drop (r + 1) (pages_of bs)
pages_of-drop_branches r middle (last t) h = cc
pages_of-drop_branches zero middle (branch t x (last u)) h = refl
pages_of-drop_branches zero middle (branch t x (branch u y bs)) h = refl
pages_of-drop_branches (suc r) middle (branch t x bs) h =
    rw suc-add (pages_of-drop_branches r middle bs h)

inorder-take-drop_branches :
    (r : ℕ) (middle : Item) (bs : Branches)
    → IsMiddle r middle (items_of bs)
    → inorder_branches (take_branches r bs) ++ (middle ∷ inorder_branches (drop_branches r bs))
      ≡ inorder_branches bs
inorder-take-drop_branches r middle (last t) h = cc
inorder-take-drop_branches zero middle (branch t x bs) h = cc
inorder-take-drop_branches (suc r) middle (branch t x bs) h =
    append_assoc (inorder t) (x ∷ inorder_branches (take_branches r bs))
      (middle ∷ inorder_branches (drop_branches r bs))
    ∙ ap (λ zs. inorder t ++ (x ∷ zs)) (inorder-take-drop_branches r middle bs h)

height-take-drop_branches :
    (r : ℕ) (middle : Item) (bs : Branches)
    → IsMiddle r middle (items_of bs)
    → max (height_branches (take_branches r bs)) (height_branches (drop_branches r bs))
      ≡ height_branches bs
height-take-drop_branches r middle (last t) h = cc
height-take-drop_branches zero middle (branch t x bs) h = refl
height-take-drop_branches (suc r) middle (branch t x bs) h =
    omega (arith, height-take-drop_branches r middle bs h)

module _ (r : ℕ) (middle : Item) where
  -- The nodes of the parts are the halves of the node.
  pub left_part-left_half :
      (t : BTree)
      → IsMiddle r middle (node_of t).items
      → node_of (left_part r t) ≡ left_half r (node_of t)
  left_part-left_half (leaf q items) h = refl
  left_part-left_half (inner q bs) h =
      rw (items_of-take_branches r middle bs h, pages_of-take_branches r middle bs h)

  pub right_part-right_half :
      (page : ℕ) (t : BTree)
      → IsMiddle r middle (node_of t).items
      → node_of (right_part r page t) ≡ right_half r page (node_of t)
  right_part-right_half page (leaf q items) h = refl
  right_part-right_half page (inner q bs) h =
      rw (items_of-drop_branches r middle bs h, pages_of-drop_branches r middle bs h)

  -- No item is lost or moved past another.
  pub inorder-parts :
      (page : ℕ) (t : BTree)
      → IsMiddle r middle (node_of t).items
      → inorder (left_part r t) ++ (middle ∷ inorder (right_part r page t)) ≡ inorder t
  inorder-parts page (leaf q items) h = take-append-middle r items middle h
  inorder-parts page (inner q bs) h = inorder-take-drop_branches r middle bs h

  pub height-parts :
      (page : ℕ) (t : BTree)
      → IsMiddle r middle (node_of t).items
      → max (height (left_part r t)) (height (right_part r page t)) ≡ height t
  height-parts page (leaf q items) h = refl
  height-parts page (inner q bs) h = omega (arith, height-take-drop_branches r middle bs h)

module _ ⦃p : Platform⦄ (d : Dal) where
  HoldsBranches-take :
      (r : ℕ) (bs : Branches) → HoldsBranches d bs → HoldsBranches d (take_branches r bs)
  HoldsBranches-take r (last t) h = h
  HoldsBranches-take zero (branch t x bs) h = h.0
  HoldsBranches-take (suc r) (branch t x bs) h = (h.0, HoldsBranches-take r bs h.1)

  HoldsBranches-drop :
      (r : ℕ) (bs : Branches) → HoldsBranches d bs → HoldsBranches d (drop_branches r bs)
  HoldsBranches-drop r (last t) h = h
  HoldsBranches-drop zero (branch t x bs) h = h.1
  HoldsBranches-drop (suc r) (branch t x bs) h = HoldsBranches-drop r bs h.1

module _ ⦃p : Platform⦄ where
  -- The nodes below the root of the tree stay.
  abbrev pub BelowKept : Dal → Dal → BTree → Type 0
  BelowKept d d' t =
      (q : ℕ)
      → 1 ≤ count q (pages t)
      → q ≢ page_of t
      → (m : Node) → HoldsNode d q m
      → HoldsNode d' q m

-- A store that holds the halves, and what is below the node.
module _ ⦃p : Platform⦄ (d d' : Dal) (r : ℕ) (middle : Item) where
  below_kept :
      (q : ℕ) (bs : Branches)
      → BelowKept d d' (inner q bs)
      → count q (pages (inner q bs)) ≤ 1
      → Keeps d d' (pages_branches bs)
  below_kept q bs kept once x there = kept x (ground arith) (λ e. ground arith)

  pub HoldsTree-left_part :
      (t : BTree)
      → IsMiddle r middle (node_of t).items
      → HoldsTree d t
      → BelowKept d d' t
      → count (page_of t) (pages t) ≤ 1
      → HoldsNode d' (page_of t) (left_half r (node_of t))
      → HoldsTree d' (left_part r t)
  HoldsTree-left_part (leaf q items) h held kept once left = left
  HoldsTree-left_part (inner q bs) h held kept once left = (
    HoldsNode-same (sym (left_part-left_half r middle (inner q bs) h)) left,
    HoldsBranches-take d' r bs (HoldsBranches-kept d d' bs (below_kept q bs kept once) held.1),
  )

  pub HoldsTree-right_part :
      (page : ℕ) (t : BTree)
      → IsMiddle r middle (node_of t).items
      → HoldsTree d t
      → BelowKept d d' t
      → count (page_of t) (pages t) ≤ 1
      → HoldsNode d' page (right_half r page (node_of t))
      → HoldsTree d' (right_part r page t)
  HoldsTree-right_part page (leaf q items) h held kept once right = right
  HoldsTree-right_part page (inner q bs) h held kept once right = (
    HoldsNode-same (sym (right_part-right_half r middle page (inner q bs) h)) right,
    HoldsBranches-drop d' r bs (HoldsBranches-kept d d' bs (below_kept q bs kept once) held.1),
  )
