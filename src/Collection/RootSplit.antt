-- ===== src/Collection/RootSplit.antt =====
-- `Collection::put` of core/collection.cpp where the root becomes too full: the tree grows by a level.
use toocal.Prelude.{
  ℕ, suc, ◌<◌, true, false, none, List, [], ◌∷◌, ◌≡◌, refl, sym, ap, ◌∙◌, arith, ne→==, All, ◌≤◌,
}
use toocal.Platform.{Platform}
use toocal.Effects.{ok}
use toocal.Freelist.{get_next_page}
use toocal.Node.{Item, Node}
use toocal.Dal.{Dal, new_node, is_over_populated}
use toocal.Dal.Nodes.{HoldsNode, Written, write_numbered}
use toocal.Tree.{located, find_key}
use toocal.Tree.Shape.{BTree, inner, last, branch, page_of, node_of, inorder, height}
use toocal.Tree.Kept.{node_of-page, page_of-pages}
use toocal.Tree.SplitParts.{
  left_part, right_part, page_of-left_part, page_of-right_part, IsMiddle, BelowKept,
  HoldsTree-left_part, HoldsTree-right_part, inorder-parts, height-parts,
}
use toocal.Tree.Descent.{target, path_below, nodes_of}
use toocal.Tree.Order.{IsSorted, find_item, search_tree, search_tree-find_item}
use toocal.Tree.Search.{position}
use toocal.Freelist.Allocation.{count}
use toocal.Tree.Update.{page_of-update_tree, height-update_tree}
use toocal.Tree.Insertion.{inserted, insert_tree, insert_sorted, inorder-insert_tree}
use toocal.Tree.Placement.{pages, pages-update_tree, find_key_helper-target}
use toocal.Tree.Split.{CanSplit, SplitDone, split_done, left_half, right_half, grown}
use toocal.Tree.SplitElsewhere.{CanSplit-elsewhere}
use toocal.Collection.{Collection, split_root, put_at, put}
use toocal.Collection.Find.{IsTree}
use toocal.Collection.Path.{insert_item-placed, over_as, split_ancestors-calm}
use toocal.Collection.LeafWrite.{
  CanUpdate, Updated, way_indexes, update_leaf, root_there, root_number,
}

module _ ⦃p : Platform⦄ where
  -- The page of the new root, and the store without it.
  abbrev pub root_page : Dal → ℕ
  root_page d = (get_next_page d.freelist).0

  abbrev pub without_root_page : Dal → Dal
  without_root_page d = record d { freelist = (get_next_page d.freelist).1 }

  -- The root with one child and no items that `put` makes.
  abbrev pub blank_root : Dal → ℕ → Node
  blank_root d page = record { page_num = root_page d; items = []; children = page ∷ [] }

  -- What a `put` needs so that it splits the root: the leaf can be written with the item, the root is
  -- over-populated then, no other node on the way is, and the root can be split at `r` below a new
  -- root, with both new pages outside of the tree.
  pub record Overflows (c : Collection) (item : Item) (t : BTree) (r : ℕ) (middle : Item)
      : Type 0 where
    pub can : CanUpdate c item.key (inserted item) t
    pub over : is_over_populated (node_of (insert_tree item t)) c.dal ≡ true
    pub calm :
        All
          (λ n. is_over_populated n c.dal ≡ false)
          (nodes_of (path_below item.key (insert_tree item t)))
    pub can_split :
        CanSplit
          (without_root_page c.dal)
          (blank_root c.dal (page_of t))
          (node_of (insert_tree item t))
          0
          r
          middle
    pub fresh :
        (count (root_page c.dal) (pages t) ≡ 0)
        × (count (get_next_page (get_next_page c.dal.freelist).1).0 (pages t) ≡ 0)

  module _ (c : Collection) (t : BTree) (key value : List ℕ) (is_tree : IsTree c t) (r : ℕ)
      (middle : Item) (o : Overflows c (record { key = key; value = value }) t r middle) (fuel : ℕ)
      (enough : height t < fuel) where
    abbrev item : Item
    item = record { key = key; value = value }

    abbrev full : BTree
    full = insert_tree item t

    updated : Updated c key (inserted item) t
    updated = update_leaf c t key (inserted item) is_tree o.can fuel enough

    abbrev after_leaf : Dal
    after_leaf = updated.written.after

    abbrev taken : Dal
    taken = record after_leaf { freelist = (get_next_page c.dal.freelist).1 }

    halved : SplitDone taken (blank_root c.dal (page_of t)) (node_of full) 0 r middle
    halved = split_done (
        CanSplit-elsewhere {d = without_root_page c.dal} {d' = taken}
          (record {
            opened = updated.written.healthy.opened;
            sound = updated.written.healthy.sound;
            within = updated.written.healthy.within;
            addressable = updated.written.healthy.addressable;
          })
          updated.written.rest.same_options updated.written.rest.same_capacity refl o.can_split)

    -- The page of the right half, and the new root.
    abbrev right_page : ℕ
    right_page = (get_next_page (get_next_page c.dal.freelist).1).0

    abbrev new_root : Node
    new_root = grown 0 middle right_page (blank_root c.dal (page_of t))

    rewritten : Written halved.after new_root
    rewritten =
        write_numbered halved.after halved.healthy new_root o.can_split.parent_storable
          (rw (halved.same_options, updated.written.rest.same_options) o.can_split.page_fits)
          (rw
            (
              halved.same_options, halved.same_capacity, updated.written.rest.same_options,
              updated.written.rest.same_capacity,
            )
            o.can_split.room.1)
          o.can_split.numbered.1

    after : Collection
    after = record c { dal = rewritten.after; root = root_page c.dal }

    same_root : page_of full ≡ page_of t
    same_root = page_of-update_tree key (inserted item) t

    split_root-grows : split_root (node_of full) (record c { dal = after_leaf }) ≡ ok tt after
    unfolding split_root new_node after
    split_root-grows = rw (
      over_as (node_of full) c.dal updated.written.after updated.written.rest.same_options,
      o.over,
      updated.written.rest.same_freelist,
      sym (node_of-page full) ∙ same_root,
      halved.result,
      rewritten.result,
    )

    abbrev grown_tree : BTree
    grown_tree =
        inner (root_page c.dal)
          (branch (left_part r full) middle (last (right_part r right_page full)))

    is_middle : IsMiddle r middle (node_of full).items
    is_middle = o.can_split.middle_item

    in_tree : (q : ℕ) → count q (pages full) ≡ count q (pages t)
    in_tree q = ap (count q) (pages-update_tree key (inserted item) t)

    -- Below the root nothing is written after the leaf.
    below : BelowKept after_leaf rewritten.after full
    below q there apart n h =
        let same = in_tree q in
        let new = o.fresh in
        rewritten.others q n (λ e. ground arith)
          (halved.others q n (λ e. apart (e ∙ sym (node_of-page full))) (λ e. ground arith)
            (λ e. ground arith)
            (record { inside = h.inside; decoded = h.decoded; number = h.number }))

    after-IsTree : IsTree after grown_tree
    unfolding after
    after-IsTree =
        let once : count (page_of full) (pages full) ≤ 1 =
          rw (in_tree (page_of full)) (o.can.distinct (page_of full)) in
        record {
          healthy = rewritten.healthy;
          root_page = refl;
          holds = (
            new_root_holds,
            (
              HoldsTree-left_part after_leaf rewritten.after r middle full is_middle
                  updated.is_tree.holds below once left_holds,
              HoldsTree-right_part after_leaf rewritten.after r middle right_page full is_middle
                  updated.is_tree.holds below once
                  (rewritten.others right_page (right_half r right_page (node_of full))
                    o.can_split.fresh.0 halved.right),
            ),
          );
        }
      where
        new_root_holds : HoldsNode rewritten.after (root_page c.dal) (node_of grown_tree)
        new_root_holds =
            rw (page_of-left_part r full, page_of-right_part r right_page full, same_root)
              rewritten.holds

        left_holds : HoldsNode rewritten.after (page_of full) (left_half r (node_of full))
        left_holds =
            rewritten.others (page_of full) (left_half r (node_of full))
              (λ e.
                let there = page_of-pages full in
                let same = in_tree (root_page c.dal) in
                let new = o.fresh.0 in let there' = rw e at there in omega arith)
              (rw (node_of-page full) halved.left)

    put_at-grows :
        (stale : List ℕ)
        → put_at stale item
            (located (position key (target key t).items).1 (target key t), way_indexes key t)
            c
          ≡ ok tt after
    unfolding put_at
    put_at-grows stale =
        rw
          (
            insert_item-placed stale item (target key t),
            updated.written.result,
            updated.nodes,
            split_ancestors-calm c.dal updated.written.after (node_of full)
                (nodes_of (path_below key full)) (way_indexes key t)
                updated.written.rest.same_options o.calm,
          )
          split_root-grows

    -- On a healthy store whose root page holds a tree with strictly growing keys, none of them the
    -- key, with fuel above its height, where the pages of the tree are not 0 and differ, the image
    -- of a node has at most 64 KiB and a page is as large, the leaf on the way fits its page with
    -- the item and has keys and values of at most 255 bytes, and with the item the root and no
    -- other node on the way is over-populated, which can be split: it has a split index, its two
    -- halves and the new root with the middle item fit their pages with such keys and values, and
    -- the next two free pages are not 0, differ, are not in the tree and have room in the file.
    -- Then put succeeds and makes the next free page the root of a tree that is higher by one level
    -- and whose items are those of before with the new item in its place.
    pub put-grows :
        (stale : List ℕ)
        → IsSorted (inorder t)
        → find_item key (inorder t) ≡ none
        → (c' : Collection) × (t' : BTree) × (put fuel stale key value c ≡ ok tt c')
          × (c'.root ≡ root_page c.dal)
          × IsTree c' t'
          × (inorder t' ≡ insert_sorted (record { key = key; value = value }) (inorder t))
          × (height t' ≡ suc (height t))
    unfolding put find_key after
    put-grows stale sorted absent =
        let none_there : search_tree key t ≡ none = search_tree-find_item key t sorted ∙ absent in
        let found =
          find_key_helper-target c.dal fuel key t (0 ∷ []) is_tree.healthy is_tree.holds none_there
            enough in
        (
          after,
          grown_tree,
          rw
              (
                ne→== c.root 0 (root_number c t is_tree o.can.numbered),
                root_there c t is_tree,
                found,
              )
              (put_at-grows stale),
          refl,
          after-IsTree,
          inorder-parts r middle right_page full is_middle ∙ inorder-insert_tree item t sorted,
          ap suc (
              height-parts r middle right_page full is_middle
              ∙ height-update_tree key (inserted item) t),
        )
