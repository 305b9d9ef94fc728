-- ===== src/Collection/Remove.antt =====
-- `Collection::remove` of core/collection.cpp for a key in a leaf, where no node below the root becomes
-- too empty.
use toocal.Prelude.{
  ℕ, ◌<◌, true, false, some, List, [], ◌∷◌, ◌≡◌, refl, sym, ap, ◌∙◌, All, arith, inl, inr, ◌&&◌,
  not, get_elem?,
}
use toocal.Platform.{Platform}
use toocal.Effects.{ok, pure, ◌>>◌}
use toocal.Node.{Item, Node, is_leaf, is_empty}
use toocal.Node
use toocal.Dal.{Dal, Options, is_under_populated}
use toocal.Dal.Threshold.{below}
use toocal.Tree.{located, find_key, remove_item_from_leaf}
use toocal.Tree.Shape.{BTree, node_of, inorder, height}
use toocal.Tree.Order.{IsSorted, search_items}
use toocal.Tree.Search.{position, leaf_cases}
use toocal.Tree.Update.{update_tree, height-update_tree}
use toocal.Tree.Deletion.{removed, remove_sorted, inorder-remove_tree}
use toocal.Tree.SortedDeletion.{remove_sorted-IsSorted}
use toocal.Tree.Descent.{target, path_below, nodes_of, target-children}
use toocal.Tree.LeafSearch.{find_key_helper-leaf}
use toocal.Collection.{
  Collection, find, remove, remove_at, remove_item, rebalance_ancestors, drop_empty_root,
}
use toocal.Collection.Find.{IsTree, find-find_item}
use toocal.Collection.LeafWrite.{CanUpdate, Updated, way_indexes, update_leaf, root_there}

pub under_as :
    (n : Node) (d d' : Dal)
    → d'.options ≡ d.options
    → is_under_populated n d' ≡ is_under_populated n d
under_as n d d' e = ap (λ (o : Options). below (Node.size n) o.min_fill_percent o.page_size) e

hit_item :
    (key : List ℕ) (items : List Item) (item : Item)
    → search_items key items ≡ some item
    → get_elem? items (position key items).1 ≡ some item
hit_item key items item h = elim (leaf_cases key items) [
  | inl hit ↦ let same = hit.is_answer in hit.there ∙ sym same ∙ h
  | inr miss ↦ let two = miss.is_answer in cc
]

leaf_of_children : (n : Node) → n.children ≡ [] → is_leaf n ≡ true
leaf_of_children n e = rw e refl

module _ ⦃p : Platform⦄ where
  pub rebalance_ancestors-calm :
      (d d' : Dal) (n : Node) (ns : List Node) (indexes : List ℕ)
      → d'.options ≡ d.options
      → All (λ m. is_under_populated m d ≡ false) ns
      → rebalance_ancestors (n ∷ ns) indexes d' ≡ ok tt d'
  unfolding rebalance_ancestors
  rebalance_ancestors-calm d d' n [] indexes e calm = refl
  rebalance_ancestors-calm d d' n (m ∷ ns) [] e calm = refl
  rebalance_ancestors-calm d d' n (m ∷ ns) (i ∷ []) e calm = refl
  rebalance_ancestors-calm d d' n (m ∷ ns) (i ∷ (j ∷ is)) e calm =
      rw (rebalance_ancestors-calm d d' m ns (j ∷ is) e calm.1, under_as m d d' e, calm.0)

  -- What a `remove` needs so that it writes one leaf: the leaf can be written without the item, no
  -- node below the root is under-populated then, and the root is a leaf or has items.
  pub record HasSpare (c : Collection) (key : List ℕ) (t : BTree) : Type 0 where
    pub can : CanUpdate c key (removed key) t
    pub calm :
        All
          (λ n. is_under_populated n c.dal ≡ false)
          (nodes_of (path_below key (update_tree key (removed key) t)))
    pub root_stays :
        let root = node_of (update_tree key (removed key) t) in
        is_empty root.items && not (is_leaf root) ≡ false

  -- The outcome of a `remove` that writes one leaf.
  pub record RemoveDone (c : Collection) (key : List ℕ) (t : BTree) (fuel : ℕ) : Type 0 where
    pub after : Collection
    pub result : remove fuel key c ≡ ok tt after
    pub same_root : after.root ≡ c.root
    pub is_tree : IsTree after (update_tree key (removed key) t)

  -- The removal from the leaf, and the nodes on the way read again.
  module _ (c : Collection) (t : BTree) (key : List ℕ) (item : Item) (is_tree : IsTree c t)
      (can : CanUpdate c key (removed key) t) (fuel : ℕ) (enough : height t < fuel)
      (there : search_items key (target key t).items ≡ some item) where
    pub removed_there : Updated c key (removed key) t
    removed_there = update_leaf c t key (removed key) is_tree can fuel enough

    pub remove_item-leaf :
        remove_item fuel
          (position key (target key t).items).1
          (target key t)
          (way_indexes key t)
          c.dal
        ≡ ok (way_indexes key t) removed_there.written.after
    unfolding remove_item remove_item_from_leaf
    remove_item-leaf = rw (
      leaf_of_children (target key t) (target-children fuel key t enough),
      hit_item key (target key t).items item there,
      removed_there.written.result,
    )

    pub remove-remove_at :
        IsSorted (inorder t)
        → remove fuel key c
          ≡ (remove_at fuel key
                  (located (position key (target key t).items).1 (target key t), way_indexes key t)
                >> (find fuel key >> pure tt))
              c
    unfolding remove find_key
    remove-remove_at sorted =
        let way =
          find_key_helper-leaf c.dal fuel key true t item (0 ∷ []) is_tree.healthy is_tree.holds
            sorted there enough in
        rw (root_there c t is_tree, way)

  module _ (c : Collection) (t : BTree) (key : List ℕ) (item : Item) (is_tree : IsTree c t)
      (spare : HasSpare c key t) (fuel : ℕ) (enough : height t < fuel)
      (there : search_items key (target key t).items ≡ some item) where
    updated : Updated c key (removed key) t
    updated = removed_there c t key item is_tree spare.can fuel enough there

    after : Collection
    after = record c { dal = updated.written.after }

    remove_at-after :
        remove_at fuel key
          (located (position key (target key t).items).1 (target key t), way_indexes key t)
          c
        ≡ ok tt after
    unfolding remove_at after updated drop_empty_root
    remove_at-after = rw (
      remove_item-leaf c t key item is_tree spare.can fuel enough there,
      updated.nodes,
      rebalance_ancestors-calm c.dal updated.written.after
          (node_of (update_tree key (removed key) t))
          (nodes_of (path_below key (update_tree key (removed key) t))) (way_indexes key t)
          updated.written.rest.same_options spare.calm,
      spare.root_stays,
    )

    pub remove_leaf : IsSorted (inorder t) → RemoveDone c key t fuel
    unfolding after
    remove_leaf sorted =
        let t' : BTree = update_tree key (removed key) t in
        let items = inorder-remove_tree key t item sorted there in
        let same_height = height-update_tree key (removed key) t in
        let last_find =
          find-find_item fuel key after t' updated.is_tree
            (rw items (remove_sorted-IsSorted key (inorder t) sorted)) (omega arith) in
        record {
          after = after;
          result =
              remove-remove_at c t key item is_tree spare.can fuel enough there sorted
              ∙ rw (remove_at-after, last_find);
          same_root = refl;
          is_tree = updated.is_tree;
        }

    -- On a healthy store whose root page holds a tree with strictly growing keys that has the key
    -- in a leaf, with fuel above its height, where the pages of the tree are not 0 and differ, the
    -- image of a node has at most 64 KiB and a page is as large, the leaf without the item fits its
    -- page with keys and values of at most 255 bytes, no node on the way below the root is
    -- under-populated then, and the root is a leaf or has items. Then remove succeeds and keeps the
    -- root page, which then holds a tree of the same height whose items are those of before without
    -- the one that has the key.
    pub remove-remove_sorted :
        IsSorted (inorder t)
        → (c' : Collection) × (t' : BTree) × (remove fuel key c ≡ ok tt c')
          × (c'.root ≡ c.root)
          × IsTree c' t'
          × (inorder t' ≡ remove_sorted key (inorder t))
          × (height t' ≡ height t)
    remove-remove_sorted sorted =
        let done = remove_leaf sorted in
        (
          done.after,
          update_tree key (removed key) t,
          done.result,
          done.same_root,
          done.is_tree,
          inorder-remove_tree key t item sorted there,
          height-update_tree key (removed key) t,
        )
