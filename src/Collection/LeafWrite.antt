-- ===== src/Collection/LeafWrite.antt =====
-- The part that `put` and `remove` of core/collection.cpp share on a tree: the leaf on the way is
-- written, and the nodes on the way to it are read again.
use toocal.Prelude.{ℕ, suc, ◌≤◌, ◌<◌, List, ◌∷◌, ◌≡◌, ◌≢◌, refl, sym, ◌∙◌, arith}
use toocal.Platform.{Platform, default_page_size}
use toocal.Effects.{ok}
use toocal.Freelist.Allocation.{count}
use toocal.Node.{Item, Node}
use toocal.Node.Serializer.RoundTrip.{IsStorable}
use toocal.Dal.{get_node}
use toocal.Dal.Nodes.{get_node-HoldsNode, Written, write_numbered}
use toocal.Tree.Shape.{BTree, page_of, node_of, height, HoldsTree, HoldsTree-root}
use toocal.Tree.Update.{update_tree, page_of-update_tree}
use toocal.Tree.Descent.{target, path_below, indexes_of, nodes_of}
use toocal.Tree.Placement.{pages, changed, HoldsTree-update_tree, target-page}
use toocal.Collection.{Collection, get_nodes}
use toocal.Collection.Find.{IsTree}
use toocal.Collection.Path.{
  indexes_of-update_tree, follow-path_below, numbered_root, target-HoldsNode,
}

module _ ⦃p : Platform⦄ where
  -- The leaf fits its page with its new items, and the pages of the tree are numbered and differ.
  pub record CanUpdate (c : Collection) (key : List ℕ) (f : List Item → List Item) (t : BTree)
      : Type 0 where
    pub storable : IsStorable default_page_size (changed f (target key t))
    pub page_fits : default_page_size ≤ c.dal.page_size
    pub numbered : count 0 (pages t) ≡ 0
    pub distinct : (q : ℕ) → count q (pages t) ≤ 1

  -- The nodes on the way.
  abbrev pub way_nodes : List ℕ → BTree → List Node
  way_nodes key t = node_of t ∷ nodes_of (path_below key t)

  abbrev pub way_indexes : List ℕ → BTree → List ℕ
  way_indexes key t = 0 ∷ indexes_of (path_below key t)

  -- The store and the tree after the leaf has been written.
  pub record Updated (c : Collection) (key : List ℕ) (f : List Item → List Item) (t : BTree)
      : Type 0 where
    pub written : Written c.dal (changed f (target key t))
    pub is_tree : IsTree (record c { dal = written.after }) (update_tree key f t)
    pub nodes :
        get_nodes c.root (way_indexes key t) written.after
        ≡ ok (way_nodes key (update_tree key f t)) written.after

  pub root_there :
      (c : Collection) (t : BTree) → IsTree c t → get_node c.root c.dal ≡ ok (node_of t) c.dal
  root_there c t is_tree = rw is_tree.root_page (
      get_node-HoldsNode c.dal (page_of t) (node_of t) is_tree.healthy
        (HoldsTree-root c.dal t is_tree.holds))

  pub root_number : (c : Collection) (t : BTree) → IsTree c t → count 0 (pages t) ≡ 0 → c.root ≢ 0
  root_number c t is_tree numbered e = numbered_root t numbered (sym is_tree.root_page ∙ e)

  module _ (c : Collection) (t : BTree) (key : List ℕ) (f : List Item → List Item)
      (is_tree : IsTree c t) (can : CanUpdate c key f t) (fuel : ℕ) (enough : height t < fuel) where
    written : Written c.dal (changed f (target key t))
    written =
        let there = target-HoldsNode c.dal fuel key t is_tree.holds enough in
        write_numbered c.dal is_tree.healthy (changed f (target key t)) can.storable can.page_fits
          (omega (arith, there.inside, is_tree.healthy.within))
          (λ e. let once = rw e at (target-page key t) in omega (arith, can.numbered))

    after-HoldsTree : HoldsTree written.after (update_tree key f t)
    after-HoldsTree =
        HoldsTree-update_tree c.dal written.after (target key t).page_num written.others key f t
          refl written.holds (can.distinct (target key t).page_num) is_tree.holds

    get_nodes-after :
        get_nodes c.root (way_indexes key t) written.after
        ≡ ok (way_nodes key (update_tree key f t)) written.after
    unfolding get_nodes
    get_nodes-after =
        let root =
          get_node-HoldsNode written.after (page_of (update_tree key f t))
            (node_of (update_tree key f t)) written.healthy
            (HoldsTree-root written.after (update_tree key f t) after-HoldsTree) in
        let rest =
          follow-path_below written.after (suc (height (update_tree key f t))) key
            (update_tree key f t) written.healthy after-HoldsTree (omega arith) in
        rw (
          is_tree.root_page ∙ sym (page_of-update_tree key f t),
          root,
          sym (indexes_of-update_tree key f t),
          rest,
        )

    pub update_leaf : Updated c key f t
    update_leaf = record {
      written = written;
      is_tree = record {
        healthy = written.healthy;
        root_page = is_tree.root_page ∙ sym (page_of-update_tree key f t);
        holds = after-HoldsTree;
      };
      nodes = get_nodes-after;
    }
