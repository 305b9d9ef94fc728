-- ===== src/Collection/PutBack.antt =====
-- `Collection::put` and then `Collection::remove` of the same key (core/collection.cpp).
use toocal.Prelude.{
  ℕ, ◌<◌, false, none, some, List, [], ◌∷◌, ◌≡◌, sym, ap, subst, ◌∙◌, All, ◌&&◌, not, arith,
}
use toocal.Platform.{Platform, default_page_size}
use toocal.Effects.{ok}
use toocal.Node.{Item, Node, is_leaf, is_empty}
use toocal.Node.Serializer.RoundTrip.{IsStorable}
use toocal.Dal.{is_under_populated}
use toocal.Tree.Shape.{BTree, node_of, inorder, height}
use toocal.Tree.Order.{IsSorted, find_item, search_tree, search_tree-find_item, search_items}
use toocal.Tree.Update.{height-update_tree}
use toocal.Tree.Insertion.{inserted, insert_tree, inorder-insert_tree}
use toocal.Tree.SortedInsert.{insert_sorted-IsSorted}
use toocal.Tree.Deletion.{removed}
use toocal.Tree.PutBack.{
  removed-inserted, search_items-target, target-update_tree, remove-insert_tree,
}
use toocal.Tree.Descent.{target, path_below, nodes_of}
use toocal.Tree.Placement.{pages-update_tree, changed}
use toocal.Collection.{Collection, put, remove}
use toocal.Collection.Find.{IsTree}
use toocal.Collection.Put.{HasRoom, PutDone, put_leaf}
use toocal.Collection.Remove.{HasSpare, remove_leaf, under_as}

All-under_as :
    (c c' : Collection) (ns : List Node)
    → c'.dal.options ≡ c.dal.options
    → All (λ n. is_under_populated n c.dal ≡ false) ns
    → All (λ n. is_under_populated n c'.dal ≡ false) ns
All-under_as c c' [] e calm = tt
All-under_as c c' (n ∷ ns) e calm =
    (under_as n c.dal c'.dal e ∙ calm.0, All-under_as c c' ns e calm.1)

module _ ⦃p : Platform⦄ (c : Collection) (t : BTree) (key value : List ℕ) (fuel : ℕ)
    (stale : List ℕ) (is_tree : IsTree c t)
    (room : HasRoom c (record { key = key; value = value }) t) (sorted : IsSorted (inorder t))
    (absent : find_item key (inorder t) ≡ none) (enough : height t < fuel)
    (storable : IsStorable default_page_size (target key t))
    (calm : All (λ n. is_under_populated n c.dal ≡ false) (nodes_of (path_below key t)))
    (root_stays : is_empty (node_of t).items && not (is_leaf (node_of t)) ≡ false) where
  abbrev item : Item
  item = record { key = key; value = value }

  not_there : search_tree key t ≡ none
  not_there = search_tree-find_item key t sorted ∙ absent

  done : PutDone c item t fuel stale
  done = put_leaf c t key value is_tree room fuel enough stale absent sorted

  same_leaf : changed (removed key) (target key (insert_tree item t)) ≡ target key t
  same_leaf =
      ap (changed (removed key)) (target-update_tree key (inserted item) t)
      ∙ ap (λ is. record (target key t) { items = is })
          (removed-inserted item (target key t).items (search_items-target key t not_there)).0

  spare : HasSpare done.after key (insert_tree item t)
  spare =
      let same_pages = pages-update_tree key (inserted item) t in
      let back = remove-insert_tree item t not_there in
      record {
        can = record {
          storable = rw same_leaf storable;
          page_fits = rw done.same_options room.can.page_fits;
          numbered = rw same_pages room.can.numbered;
          distinct = λ q. rw same_pages (room.can.distinct q);
        };
        calm =
            subst
              (λ u.
                All (λ n. is_under_populated n done.after.dal ≡ false)
                  (nodes_of (path_below key u)))
              (sym back)
              (All-under_as c done.after (nodes_of (path_below key t)) done.same_options calm);
        root_stays =
            subst (λ u. is_empty (node_of u).items && not (is_leaf (node_of u)) ≡ false) (sym back)
              root_stays;
      }

  -- A `put` of a new key with room for it, and then a `remove` of the key, succeed and keep the root
  -- page, which then holds the very tree of before, where the leaf fits its page and no node on the
  -- way below the root was under-populated, and the root is a leaf or has items.
  pub remove-put :
      (c' : Collection) × (c'' : Collection) × (put fuel stale key value c ≡ ok tt c')
      × (remove fuel key c' ≡ ok tt c'')
      × (c''.root ≡ c.root)
      × IsTree c'' t
  remove-put =
      let found : search_items key (target key (insert_tree item t)).items ≡ some item =
        rw (target-update_tree key (inserted item) t)
          (removed-inserted item (target key t).items (search_items-target key t not_there)).1 in
      let same_height = height-update_tree key (inserted item) t in
      let gone =
        remove_leaf done.after (insert_tree item t) key item done.is_tree spare fuel (omega arith)
          found
          (rw (inorder-insert_tree item t sorted)
            (insert_sorted-IsSorted item (inorder t) sorted absent)) in
      (
        done.after,
        gone.after,
        done.result,
        gone.result,
        gone.same_root ∙ done.same_root,
        subst (IsTree gone.after) (remove-insert_tree item t not_there) gone.is_tree,
      )
