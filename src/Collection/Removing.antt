-- ===== src/Collection/Removing.antt =====
-- The ways in which `Collection::remove` of core/collection.cpp takes an item out of a tree, or finds
-- none.
use toocal.Prelude.{ℕ, ◌<◌, Option, none, some, List, ◌≡◌, refl, ◌∙◌, sym}
use toocal.Platform.{Platform}
use toocal.Effects.{Outcome, ok, err, key_not_found}
use toocal.Node.{Item}
use toocal.Tree.Shape.{BTree, inorder, height}
use toocal.Tree.Order.{IsSorted, find_item, search_items, search_tree-find_item}
use toocal.Tree.Deletion.{remove_sorted}
use toocal.Tree.Descent.{target}
use toocal.Tree.InnerSite.{InNode}
use toocal.Tree.Presence.{search_tree-site, search_tree-target, remove_sorted-missing}
use toocal.Collection.{Collection, remove}
use toocal.Collection.Find.{IsTree}
use toocal.Collection.Missing.{remove-missing}
use toocal.Collection.Remove.{HasSpare, remove-remove_sorted}
use toocal.Collection.InnerRemove.{HasReplacement, remove-replaced}

-- How a removal ends, where the tree has the item or none.
abbrev pub removal : List ℕ → Option Item → Collection → Outcome Collection (Unit {0})
removal key none c = err (key_not_found key) c
removal key (some item) c = ok tt c

module _ ⦃p : Platform⦄ where
  -- The key is missing; or it is in a leaf, or in an inner node in front of which a leaf has an item for
  -- its place, no node on the way below the root becomes under-populated, and the root is a leaf or has
  -- items.
  pub data Removes (c : Collection) (key : List ℕ) : BTree → Type 0 where
    from_none : (t : BTree) → find_item key (inorder t) ≡ none → Removes c key t
    from_leaf :
        (t : BTree) (item : Item)
        → HasSpare c key t
        → search_items key (target key t).items ≡ some item
        → Removes c key t
    from_inner :
        (t : BTree) (s : InNode key t) (items : List Item) (before : Item)
        → HasReplacement c key t s items before
        → Removes c key t

  -- In each of them the tree has its other items.
  pub remove-Removes :
      (c : Collection) (t : BTree) (key : List ℕ) (fuel : ℕ)
      → Removes c key t
      → IsTree c t
      → IsSorted (inorder t)
      → height t < fuel
      → (c' : Collection) × (t' : BTree) × (remove fuel key c
          ≡ removal key (find_item key (inorder t)) c')
        × (c'.root ≡ c.root)
        × IsTree c' t'
        × (inorder t' ≡ remove_sorted key (inorder t))
        × (height t' ≡ height t)
  remove-Removes c _ key fuel (from_none t absent) is_tree sorted enough = (
    c,
    t,
    rw absent (remove-missing c t key fuel is_tree sorted absent enough),
    refl,
    is_tree,
    sym (remove_sorted-missing key (inorder t) absent),
    refl,
  )
  remove-Removes c _ key fuel (from_leaf t item spare there) is_tree sorted enough =
      let (c', t', done, same_root, is_tree', items', same_height) =
        remove-remove_sorted c t key item is_tree spare fuel enough there sorted in
      let has =
        sym (search_tree-find_item key t sorted) ∙ search_tree-target key t item sorted there in
      (c', t', rw has done, same_root, is_tree', items', same_height)
  remove-Removes c _ key fuel (from_inner t s items before can) is_tree sorted enough =
      let (c', t', done, same_root, is_tree', items', same_height) =
        remove-replaced c t key s items before is_tree can fuel enough sorted in
      let (_, there) = search_tree-site key t s in
      let has = sym (search_tree-find_item key t sorted) ∙ there in
      (c', t', rw has done, same_root, is_tree', items', same_height)
