-- ===== src/Collection/Find.antt =====
-- `Collection::find` of core/collection.cpp looks a key up among the items of the tree.
use toocal.Prelude.{ℕ, ◌<◌, Option, none, some, List, [], ◌∷◌, ◌≡◌, refl, ap, ◌∙◌}
use toocal.Platform.{Platform}
use toocal.Effects.{ok}
use toocal.Node.{Item}
use toocal.Dal.{get_node}
use toocal.Dal.Pages.{IsHealthy}
use toocal.Dal.Nodes.{get_node-HoldsNode}
use toocal.Tree.{Found, missing, located, find_key}
use toocal.Tree.Shape.{BTree, page_of, node_of, inorder, height, HoldsTree, HoldsTree-root}
use toocal.Tree.Order.{IsSorted, find_item, search_tree, search_tree-find_item}
use toocal.Tree.Search.{Answers, find_key_helper-Searched}
use toocal.Collection.{Collection, find, item_at}

module _ ⦃p : Platform⦄ where
  -- The collection's root page holds the tree.
  pub record IsTree (c : Collection) (t : BTree) : Type 0 where
    pub healthy : IsHealthy c.dal
    pub root_page : c.root ≡ page_of t
    pub holds : HoldsTree c.dal t

  item_at-Answers :
      (result : Found) (answer : Option Item) (c : Collection)
      → Answers result answer
      → item_at result c ≡ ok answer c
  item_at-Answers missing none c a = refl
  item_at-Answers missing (some item) c a = absurd a
  item_at-Answers (located index n) none c a = absurd a
  item_at-Answers (located index n) (some item) c a = rw a

  -- On a healthy store whose root page holds a tree with strictly growing keys, `find` with fuel for
  -- its height returns the item with the key, or none where no item of the tree has it, and leaves
  -- the store as it was.
  pub find-find_item :
      (fuel : ℕ) (key : List ℕ) (c : Collection) (t : BTree)
      → IsTree c t
      → IsSorted (inorder t)
      → height t < fuel
      → find fuel key c ≡ ok (find_item key (inorder t)) c
  unfolding find find_key
  find-find_item fuel key c t h sorted enough =
      let root : get_node c.root c.dal ≡ ok (node_of t) c.dal = rw h.root_page (
        get_node-HoldsNode c.dal (page_of t) (node_of t) h.healthy
          (HoldsTree-root c.dal t h.holds)) in
      let s = find_key_helper-Searched c.dal fuel key t (0 ∷ []) h.healthy h.holds enough in
      rw (root, s.ends)
        (item_at-Answers s.result (search_tree key t) c s.answers
          ∙ ap (λ a. ok a c) (search_tree-find_item key t sorted))
