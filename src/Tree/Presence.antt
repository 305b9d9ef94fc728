-- ===== src/Tree/Presence.antt =====
-- A key in a leaf or in an inner node is found by the search in the tree, and where it is in none the
-- removal from the items in order changes nothing.
use toocal.Prelude.{ℕ, none, some, List, [], ◌∷◌, ◌≡◌, refl, ap, inl, inr}
use toocal.Utils.{minus, zero_sign, plus, bytescmp}
use toocal.Utils.Order.{Sign-cases}
use toocal.Node.{Item}
use toocal.Tree.Shape.{BTree, Branches, leaf, inner, last, branch, inorder, inorder_branches}
use toocal.Tree.Order.{
  IsSorted, IsSorted-middle, find_item, search_items, search_tree, search_branches,
}
use toocal.Tree.Search.{search_branches_at}
use toocal.Tree.Descent.{target, target_branches, target_branches_at}
use toocal.Tree.Deletion.{remove_sorted, not_passed}
use toocal.Tree.InnerSite.{
  Hits, at_item, past_item, InNode, in_node, under, InBranches, in_last, in_front, behind,
}

search_branches-hit :
    (key : List ℕ) (bs : Branches) → Hits key bs → (x : Item) × (search_branches key bs ≡ some x)
search_branches-hit key _ (at_item t x bs e) = (x, search_branches_at key t x bs zero_sign e)
search_branches-hit key _ (past_item t x bs e h) =
    rw (search_branches_at key t x bs minus e) (search_branches-hit key bs h)

mutual
  pub search_tree-site :
      (key : List ℕ) (t : BTree) → InNode key t → (x : Item) × (search_tree key t ≡ some x)
  search_tree-site key _ (in_node page bs h) = search_branches-hit key bs h
  search_tree-site key _ (under page bs b) = search_branches-site key bs b

  search_branches-site :
      (key : List ℕ) (bs : Branches)
      → InBranches key bs
      → (x : Item) × (search_branches key bs ≡ some x)
  search_branches-site key _ (in_last t s) = search_tree-site key t s
  search_branches-site key _ (in_front t x bs e s) =
      rw (search_branches_at key t x bs plus e) (search_tree-site key t s)
  search_branches-site key _ (behind t x bs e b) =
      rw (search_branches_at key t x bs minus e) (search_branches-site key bs b)

mutual
  pub search_tree-target :
      (key : List ℕ) (t : BTree) (item : Item)
      → IsSorted (inorder t)
      → search_items key (target key t).items ≡ some item
      → search_tree key t ≡ some item
  search_tree-target key (leaf page items) item s h = h
  search_tree-target key (inner page bs) item s h = search_branches-target key bs item s h

  search_branches-target :
      (key : List ℕ) (bs : Branches) (item : Item)
      → IsSorted (inorder_branches bs)
      → search_items key (target_branches key bs).items ≡ some item
      → search_branches key bs ≡ some item
  search_branches-target key (last t) item s h = search_tree-target key t item s h
  search_branches-target key (branch t x bs) item s h =
      let (left, low, _, right) = IsSorted-middle (inorder t) x (inorder_branches bs) s in
      elim (Sign-cases (bytescmp x.key key)) [
        | inl e ↦
            absurd
              (not_passed key t x item low (rw (target_branches_at key t x bs zero_sign e) at h) e)
        | inr (inl e) ↦
            rw (search_branches_at key t x bs plus e)
              (search_tree-target key t item left (rw (target_branches_at key t x bs plus e) at h))
        | inr (inr e) ↦ rw (search_branches_at key t x bs minus e) (
            search_branches-target key bs item right
              (rw (target_branches_at key t x bs minus e) at h))
      ]

pub remove_sorted-missing :
    (key : List ℕ) (xs : List Item) → find_item key xs ≡ none → remove_sorted key xs ≡ xs
remove_sorted-missing key [] h = refl
remove_sorted-missing key (x ∷ xs) h = elim (Sign-cases (bytescmp x.key key)) [
  | inl e ↦ let found = rw (e, find_item) at h in cc
  | inr (inl e) ↦ rw (e, remove_sorted)
  | inr (inr e) ↦
      rw (e, remove_sorted) (ap (x ∷◌) (remove_sorted-missing key xs (rw (e, find_item) at h)))
]
