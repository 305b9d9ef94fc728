-- ===== src/Collection/OnlyChild.antt =====
-- `Collection::remove` of core/collection.cpp below a root that has no items and one child, as the merge
-- of the two children of a root leaves it: the loop works on a copy of the root that was read before
-- the merge, so the root is not replaced.
use toocal.Prelude.{ℕ, ◌<◌, true, some, List, [], ◌∷◌, ◌≡◌, refl}
use toocal.Platform.{Platform}
use toocal.Effects.{undefined_behavior}
use toocal.Node.{Item, Node}
use toocal.Dal.{Dal, is_under_populated}
use toocal.Tree.{rebalance_remove, try_rotate_right, try_rotate_left}
use toocal.Tree.Shape.{BTree, leaf, inner, last, node_of}
use toocal.Tree.Order.{IsSorted, search_items}
use toocal.Tree.Deletion.{removed}
use toocal.Collection.{Collection, remove, remove_at, rebalance_ancestors}
use toocal.Collection.Find.{IsTree}
use toocal.Collection.LeafWrite.{CanUpdate, Updated}
use toocal.Collection.Remove.{under_as, removed_there, remove_item-leaf, remove-remove_at}

module _ ⦃p : Platform⦄ where
  -- The rebalancing of an only child reads a child behind it.
  rebalance_remove_only :
      (page child : ℕ) (items : List Item) (unbalanced : Node) (d : Dal)
      → rebalance_remove
          (record { page_num = page; items = items; children = child ∷ [] })
          unbalanced
          0
          d
        ≡ undefined_behavior
  unfolding rebalance_remove try_rotate_right try_rotate_left
  rebalance_remove_only page child items unbalanced d = refl

  -- Where the root has no items and a leaf as its only child, the removal of a key in the leaf that
  -- leaves the leaf under-populated is undefined, although the leaf could be written.
  pub remove-only_child :
      (c : Collection) (q number : ℕ) (items : List Item) (key : List ℕ) (item : Item) (fuel : ℕ)
      → IsTree c (inner q (last (leaf number items)))
      → CanUpdate c key (removed key) (inner q (last (leaf number items)))
      → IsSorted items
      → search_items key items ≡ some item
      → is_under_populated (node_of (leaf number (removed key items))) c.dal ≡ true
      → 1 < fuel
      → remove fuel key c ≡ undefined_behavior
  unfolding remove_at rebalance_ancestors
  remove-only_child c q number items key item fuel is_tree can sorted there under enough =
      let t : BTree = inner q (last (leaf number items)) in
      let r : Updated c key (removed key) t =
        removed_there c t key item is_tree can fuel enough there in
      rw (
        remove-remove_at c t key item is_tree can fuel enough there sorted,
        remove_item-leaf c t key item is_tree can fuel enough there,
        r.nodes,
        under_as (node_of (leaf number (removed key items))) c.dal r.written.after
            r.written.rest.same_options,
        under,
        rebalance_remove_only q number [] (node_of (leaf number (removed key items)))
            r.written.after,
      )
