-- ===== src/Collection/Lookup.antt =====
-- `Collection::put`, `Collection::remove` and `Collection::find` of core/collection.cpp together: a map from keys to items.
use toocal.Prelude.{ℕ, ◌<◌, List, ◌≡◌, ap, ◌∙◌, arith}
use toocal.Platform.{Platform}
use toocal.Effects.{ok}
use toocal.Tree.Shape.{BTree, inorder, height}
use toocal.Tree.Order.{IsSorted, find_item}
use toocal.Tree.SortedDeletion.{cleared, remove_sorted-IsSorted, find_item-remove_sorted}
use toocal.Collection.{Collection, find, remove}
use toocal.Collection.Find.{IsTree, find-find_item}
use toocal.Collection.Removing.{Removes, removal, remove-Removes}

module _ ⦃p : Platform⦄ where
  -- On a healthy store whose root page holds a tree with strictly growing keys, with fuel above its
  -- height, where the key is missing; or where the pages of the tree are not 0 and differ, the
  -- image of a node has at most 64 KiB and a page is as large, the key is in a leaf, or in an inner
  -- node and the last leaf in front of it has an item for its place, the nodes that change (the
  -- leaf, and that inner node) fit their pages with keys and values of at most 255 bytes, no node
  -- on the way below the root is under-populated then, and the root is a leaf or has items then.
  -- Then remove ends with the error that the key is not found exactly where it is missing, and
  -- succeeds otherwise, and find with the same fuel returns nothing for the key, and for every
  -- other key what it returned before.
  pub find-remove :
      (c : Collection) (t : BTree) (key : List ℕ) (fuel : ℕ)
      → IsTree c t
      → Removes c key t
      → IsSorted (inorder t)
      → height t < fuel
      → (c' : Collection) × (remove fuel key c ≡ removal key (find_item key (inorder t)) c')
        × ((k : List ℕ)
            → (find fuel k c ≡ ok (find_item k (inorder t)) c)
              × (find fuel k c' ≡ ok (cleared key k (inorder t)) c'))
  find-remove c t key fuel is_tree removes sorted enough =
      let (c', t', done, _, is_tree', items, same_height) =
        remove-Removes c t key fuel removes is_tree sorted enough in
      let sorted' : IsSorted (inorder t') =
        rw items (remove_sorted-IsSorted key (inorder t) sorted) in
      (
        c',
        done,
        λ k. (
          find-find_item fuel k c t is_tree sorted enough,
          find-find_item fuel k c' t' is_tree' sorted' (omega arith)
              ∙ ap (λ a. ok a c')
                  (ap (find_item k) items ∙ find_item-remove_sorted key k (inorder t) sorted),
        ),
      )
