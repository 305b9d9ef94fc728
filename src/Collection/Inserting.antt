-- ===== src/Collection/Inserting.antt =====
-- The ways in which `Collection::put` of core/collection.cpp adds an item to a tree.
use toocal.Prelude.{ℕ, suc, ◌≤◌, ◌<◌, none, List, ◌≡◌, arith}
use toocal.Platform.{Platform}
use toocal.Effects.{ok}
use toocal.Node.{Item}
use toocal.Tree.Shape.{BTree, Branches, inner, inorder, height}
use toocal.Tree.Order.{IsSorted, find_item}
use toocal.Tree.Insertion.{insert_sorted}
use toocal.Collection.{Collection, put}
use toocal.Collection.Find.{IsTree}
use toocal.Collection.Put.{HasRoom, put-insert_sorted}
use toocal.Collection.RootSplit.{Overflows, put-grows}
use toocal.Collection.WaySplit.{NeedsSplit, put-splits}

module _ ⦃p : Platform⦄ where
  -- With the item in its leaf, at most one node on the way is over-populated: none, one below the
  -- root, or the root; and that one can be split.
  pub data Inserts (c : Collection) (item : Item) : BTree → Type 0 where
    into_leaf : (t : BTree) → HasRoom c item t → Inserts c item t
    splits_node :
        (q : ℕ) (bs : Branches) (node r : ℕ) (middle : Item)
        → NeedsSplit c item q bs node r middle
        → Inserts c item (inner q bs)
    splits_root :
        (t : BTree) (r : ℕ) (middle : Item) → Overflows c item t r middle → Inserts c item t

  -- In each of them the tree has the new item in its place.
  pub put-Inserts :
      (c : Collection) (t : BTree) (key value : List ℕ) (fuel : ℕ) (stale : List ℕ)
      → Inserts c (record { key = key; value = value }) t
      → IsTree c t
      → IsSorted (inorder t)
      → find_item key (inorder t) ≡ none
      → height t < fuel
      → (c' : Collection) × (t' : BTree) × (put fuel stale key value c ≡ ok tt c')
        × IsTree c' t'
        × (inorder t' ≡ insert_sorted (record { key = key; value = value }) (inorder t))
        × (height t' ≤ suc (height t))
  put-Inserts c _ key value fuel stale (into_leaf t room) is_tree sorted absent enough =
      let (c', t', done, _, is_tree', items, same_height) =
        put-insert_sorted c t key value is_tree room fuel enough stale sorted absent in
      (c', t', done, is_tree', items, omega arith)
  put-Inserts c _ key value fuel stale (splits_node q bs node r middle needs) is_tree sorted absent
        enough =
      let (c', t', done, _, is_tree', items, same_height) =
        put-splits c q bs key value is_tree node r middle needs fuel enough stale sorted absent in
      (c', t', done, is_tree', items, omega arith)
  put-Inserts c _ key value fuel stale (splits_root t r middle o) is_tree sorted absent enough =
      let (c', t', done, _, is_tree', items, new_height) =
        put-grows c t key value is_tree r middle o fuel enough stale sorted absent in
      (c', t', done, is_tree', items, omega arith)
