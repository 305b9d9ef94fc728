-- ===== src/Collection/Put.antt =====
-- `Collection::put` of core/collection.cpp where no node on the way becomes too full.
use toocal.Prelude.{ℕ, ◌<◌, false, none, List, [], ◌∷◌, ◌≡◌, refl, ◌∙◌, All, ne→==}
use toocal.Platform.{Platform}
use toocal.Effects.{ok}
use toocal.Node.{Item}
use toocal.Dal.{is_over_populated}
use toocal.Tree.{located, find_key}
use toocal.Tree.Shape.{BTree, node_of, inorder, height}
use toocal.Tree.Order.{IsSorted, find_item, search_tree, search_tree-find_item}
use toocal.Tree.Search.{position}
use toocal.Tree.Update.{height-update_tree}
use toocal.Tree.Insertion.{inserted, insert_tree, insert_sorted, inorder-insert_tree}
use toocal.Tree.Descent.{target, path_below, nodes_of}
use toocal.Tree.Placement.{find_key_helper-target}
use toocal.Collection.{Collection, split_root, put_at, put}
use toocal.Collection.Find.{IsTree}
use toocal.Collection.Path.{insert_item-placed, over_as, split_ancestors-calm}
use toocal.Collection.LeafWrite.{
  CanUpdate, Updated, way_nodes, way_indexes, update_leaf, root_there, root_number,
}

module _ ⦃p : Platform⦄ where
  -- What a `put` needs so that it writes one leaf: the leaf can be written with the item, and no node
  -- on the way is over-populated then.
  pub record HasRoom (c : Collection) (item : Item) (t : BTree) : Type 0 where
    pub can : CanUpdate c item.key (inserted item) t
    pub calm :
        All (λ n. is_over_populated n c.dal ≡ false) (way_nodes item.key (insert_tree item t))

  -- The outcome of a `put` that writes one leaf.
  pub record PutDone (c : Collection) (item : Item) (t : BTree) (fuel : ℕ) (stale : List ℕ)
      : Type 0 where
    pub after : Collection
    pub result : put fuel stale item.key item.value c ≡ ok tt after
    pub same_root : after.root ≡ c.root
    pub is_tree : IsTree after (insert_tree item t)
    pub same_options : after.dal.options ≡ c.dal.options

  module _ (c : Collection) (t : BTree) (key value : List ℕ) (is_tree : IsTree c t)
      (room : HasRoom c (record { key = key; value = value }) t) (fuel : ℕ)
      (enough : height t < fuel) where
    abbrev item : Item
    item = record { key = key; value = value }

    updated : Updated c key (inserted item) t
    updated = update_leaf c t key (inserted item) is_tree room.can fuel enough

    after : Collection
    after = record c { dal = updated.written.after }

    split_root-calm : split_root (node_of (insert_tree item t)) after ≡ ok tt after
    unfolding split_root after
    split_root-calm = rw (
      over_as (node_of (insert_tree item t)) c.dal updated.written.after
          updated.written.rest.same_options,
      room.calm.0,
    )

    put_at-after :
        (stale : List ℕ)
        → put_at stale item
            (located (position key (target key t).items).1 (target key t), way_indexes key t)
            c
          ≡ ok tt after
    unfolding put_at after
    put_at-after stale =
        rw
          (
            insert_item-placed stale item (target key t),
            updated.written.result,
            updated.nodes,
            split_ancestors-calm c.dal updated.written.after (node_of (insert_tree item t))
                (nodes_of (path_below key (insert_tree item t))) (way_indexes key t)
                updated.written.rest.same_options room.calm.1,
          )
          split_root-calm

    pub put_leaf :
        (stale : List ℕ)
        → find_item key (inorder t) ≡ none
        → IsSorted (inorder t)
        → PutDone c item t fuel stale
    unfolding put find_key after
    put_leaf stale absent sorted =
        let none_there : search_tree key t ≡ none = search_tree-find_item key t sorted ∙ absent in
        let way =
          find_key_helper-target c.dal fuel key t (0 ∷ []) is_tree.healthy is_tree.holds none_there
            enough in
        record {
          after = after;
          result =
              rw
                (
                  ne→== c.root 0 (root_number c t is_tree room.can.numbered),
                  root_there c t is_tree,
                  way,
                )
                (put_at-after stale);
          same_root = refl;
          is_tree = updated.is_tree;
          same_options = updated.written.rest.same_options;
        }

    -- Into a tree with strictly growing keys, none of them the key, and with room for the item, `put`
    -- writes one leaf: it succeeds and keeps the root page, and the root page then holds a tree whose
    -- items are those of before with the new item in its place, and which is as high as before.
    pub put-insert_sorted :
        (stale : List ℕ)
        → IsSorted (inorder t)
        → find_item key (inorder t) ≡ none
        → (c' : Collection) × (t' : BTree) × (put fuel stale key value c ≡ ok tt c')
          × (c'.root ≡ c.root)
          × IsTree c' t'
          × (inorder t' ≡ insert_sorted (record { key = key; value = value }) (inorder t))
          × (height t' ≡ height t)
    put-insert_sorted stale sorted absent =
        let done = put_leaf stale absent sorted in
        (
          done.after,
          insert_tree item t,
          done.result,
          done.same_root,
          done.is_tree,
          inorder-insert_tree item t sorted,
          height-update_tree key (inserted item) t,
        )
