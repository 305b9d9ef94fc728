-- ===== src/Collection/InnerRemove.antt =====
-- `Collection::remove` of core/collection.cpp for a key in an inner node, where no node below the root
-- becomes too empty.
use toocal.Prelude.{
  ℕ, ◌≤◌, ◌<◌, false, List, [], ◌∷◌, ◌++◌, ◌≡◌, refl, sym, ap, ◌∙◌, All, arith, ◌&&◌, not, set,
  unsnoc-append,
}
use toocal.Platform.{Platform, default_page_size}
use toocal.Effects.{ok}
use toocal.Freelist.Allocation.{count}
use toocal.Node.{Item, Node, is_leaf, is_empty}
use toocal.Node.Serializer.RoundTrip.{IsStorable}
use toocal.Dal.{is_under_populated}
use toocal.Dal.Nodes.{get_node-HoldsNode, Written, write_numbered}
use toocal.Tree.{located, find_key, remove_item_from_internal}
use toocal.Tree.Shape.{BTree, inner, page_of, items_of, node_of, inorder, height, HoldsTree-root}
use toocal.Tree.Order.{IsSorted}
use toocal.Tree.Search.{position, inner_not_leaf}
use toocal.Tree.Split.{CanHold-after}
use toocal.Tree.Deletion.{remove_sorted}
use toocal.Tree.SortedDeletion.{remove_sorted-IsSorted}
use toocal.Tree.Descent.{target, path_below, indexes_of, nodes_of}
use toocal.Tree.Placement.{pages}
use toocal.Tree.InnerRemoval.{rightmost, rightmost_indexes, rightmost_leaf-rightmost}
use toocal.Tree.InnerSite.{InNode, site, hit_child, hit_step, replaced, replaced_path}
use toocal.Tree.InnerWay.{page_of-replaced, height-replaced}
use toocal.Tree.InnerSearch.{SiteFound, site_found, rightmost-target}
use toocal.Tree.InnerPlacement.{site-page, HoldsTree-replaced}
use toocal.Tree.InnerDeletion.{keep, inorder-replaced}
use toocal.Collection.{Collection, get_nodes, remove, remove_at, remove_item, drop_empty_root}
use toocal.Collection.Find.{IsTree, find-find_item}
use toocal.Collection.LeafWrite.{CanUpdate, Updated, way_indexes, update_leaf, root_there}
use toocal.Collection.InnerPath.{indexes_of-replaced_path, follow-replaced_path}
use toocal.Collection.Remove.{rebalance_ancestors-calm}

module _ ⦃p : Platform⦄ where
  -- What a `remove` of a key in an inner node needs so that it writes two nodes: the last leaf in
  -- front of the item has one that takes its place, both nodes can be written, no node below the root
  -- is under-populated then, and the root has items.
  pub record HasReplacement (c : Collection) (key : List ℕ) (t : BTree) (s : InNode key t)
      (items : List Item) (before : Item) : Type 0 where
    pub can : CanUpdate c key (keep items) t
    pub leaf_items : (target key t).items ≡ items ++ (before ∷ [])
    pub node_storable : IsStorable default_page_size (site key (keep items) before t s)
    pub calm :
        All
          (λ n. is_under_populated n c.dal ≡ false)
          (nodes_of (replaced_path key (keep items) before t s))
    pub root_stays :
        let root = node_of (replaced key (keep items) before t s) in
        is_empty root.items && not (is_leaf root) ≡ false

  module _ (c : Collection) (t : BTree) (key : List ℕ) (s : InNode key t) (items : List Item)
      (before : Item) (is_tree : IsTree c t) (can : HasReplacement c key t s items before)
      (fuel : ℕ) (enough : height t < fuel) (sorted : IsSorted (inorder t)) where
    found : SiteFound key (keep items) before fuel t s
    found = site_found key (keep items) before fuel t s enough

    index : ℕ
    index = (position key (items_of found.bs)).1

    child : BTree
    child = hit_child key found.bs found.hit

    there : Node
    there = node_of (inner found.page found.bs)

    new_node : Node
    new_node = record there { items = set there.items index before }

    same_site : site key (keep items) before t s ≡ new_node
    unfolding new_node there index found
    same_site = found.same_site

    -- The leaf is written first.
    updated : Updated c key (keep items) t
    updated = update_leaf c t key (keep items) is_tree can.can fuel enough

    site_inside : 1 ≤ count found.page (pages t)
    unfolding new_node there
    site_inside =
        rw (ap (λ (n : Node). n.page_num) same_site) at (site-page key (keep items) before t s)

    second : Written updated.written.after new_node
    unfolding new_node there
    second =
        let held = found.node_holds c.dal is_tree.holds in
        write_numbered updated.written.after updated.written.healthy new_node
          (rw same_site at can.node_storable)
          (rw updated.written.rest.same_options can.can.page_fits)
          (CanHold-after updated.written found.page
            (omega (arith, held.inside, is_tree.healthy.within)))
          (λ e. let once = rw e at site_inside in omega (arith, can.can.numbered))

    last_leaf :
        (rightmost child ≡ target key t)
        × (rightmost_indexes child ≡ indexes_of (path_below key child))
    unfolding child
    last_leaf =
        let st = hit_step key (keep items) before 0 found.bs found.hit in
        let (same, indexes) = rightmost-target key child (st.low (found.sorted sorted)) in
        (same ∙ sym found.same_target, indexes)

    remove_internal :
        remove_item_from_internal fuel index there c.dal
        ≡ ok (index ∷ indexes_of (path_below key child)) second.after
    unfolding remove_item_from_internal new_node there index child
    remove_internal =
        let st = hit_step key (keep items) before 0 found.bs found.hit in
        let held = found.child_holds c.dal is_tree.holds in
        let root =
          get_node-HoldsNode c.dal (page_of child) (node_of child) is_tree.healthy
            (HoldsTree-root c.dal child held) in
        let way =
          rightmost_leaf-rightmost c.dal fuel child (index ∷ []) is_tree.healthy held
            (omega (arith, found.lower)) in
        rw (
          st.there,
          root,
          way,
          st.old.1,
          last_leaf.0,
          can.leaf_items,
          unsnoc-append items before,
          updated.written.result,
          second.result,
          last_leaf.1,
        )

    after : Collection
    after = record c { dal = second.after }

    after-IsTree : IsTree after (replaced key (keep items) before t s)
    unfolding after new_node there
    after-IsTree =
        let once = can.can.distinct found.page in
        record {
          healthy = second.healthy;
          root_page = is_tree.root_page ∙ sym (page_of-replaced key (keep items) before t s);
          holds =
              HoldsTree-replaced key (keep items) before updated.written.after second.after
                found.page second.others t s (ap (λ (n : Node). n.page_num) same_site)
                (rw same_site second.holds) once updated.is_tree.holds;
        }

    nodes_after :
        get_nodes c.root (way_indexes key t) second.after
        ≡ ok
            (node_of (replaced key (keep items) before t s)
              ∷ nodes_of (replaced_path key (keep items) before t s))
            second.after
    unfolding get_nodes after
    nodes_after =
        let t' : BTree = replaced key (keep items) before t s in
        let held = after-IsTree.holds in
        let root =
          get_node-HoldsNode second.after (page_of t') (node_of t') second.healthy
            (HoldsTree-root second.after t' held) in
        let rest =
          follow-replaced_path key (keep items) before second.after fuel t s second.healthy held
            enough in
        rw (
          after-IsTree.root_page,
          root,
          sym (indexes_of-replaced_path key (keep items) before fuel t s enough),
          rest,
        )

    remove_at-after : remove_at fuel key (located index there, 0 ∷ found.way) c ≡ ok tt after
    unfolding remove_at remove_item drop_empty_root after there index child
    remove_at-after = rw (
      inner_not_leaf c.dal found.page found.bs,
      remove_internal,
      sym found.path,
      nodes_after,
      rebalance_ancestors-calm c.dal second.after (node_of (replaced key (keep items) before t s))
          (nodes_of (replaced_path key (keep items) before t s)) (way_indexes key t)
          (second.rest.same_options ∙ updated.written.rest.same_options) can.calm,
      can.root_stays,
    )

    -- On a healthy store whose root page holds a tree with strictly growing keys that has the key
    -- in an inner node, with fuel above its height, where the pages of the tree are not 0 and
    -- differ, the image of a node has at most 64 KiB and a page is as large, the last leaf in front
    -- of the key has an item that takes its place, the leaf and the inner node fit their pages
    -- after the change with keys and values of at most 255 bytes, no node on the way below the root
    -- down to that leaf is under-populated then, and the root has items. Then remove succeeds and
    -- keeps the root page, which then holds a tree of the same height whose items are those of
    -- before without the one that has the key.
    pub remove-replaced :
        (c' : Collection) × (t' : BTree) × (remove fuel key c ≡ ok tt c')
        × (c'.root ≡ c.root)
        × IsTree c' t'
        × (inorder t' ≡ remove_sorted key (inorder t))
        × (height t' ≡ height t)
    unfolding remove find_key after there index
    remove-replaced =
        let t' : BTree = replaced key (keep items) before t s in
        let items_after = inorder-replaced key items before t s sorted can.leaf_items in
        let same_height = height-replaced key (keep items) before t s in
        let last_find =
          find-find_item fuel key after t' after-IsTree
            (rw items_after (remove_sorted-IsSorted key (inorder t) sorted)) (omega arith) in
        let way = found.search c.dal (0 ∷ []) is_tree.healthy is_tree.holds in
        (
          after,
          t',
          rw (root_there c t is_tree, way, remove_at-after, last_find),
          refl,
          after-IsTree,
          items_after,
          same_height,
        )
