-- ===== src/Collection/Missing.antt =====
-- `Collection::remove` of core/collection.cpp for a key that the tree does not have.
use toocal.Prelude.{ℕ, ◌<◌, none, List, [], ◌∷◌, ◌≡◌, refl, ◌∙◌}
use toocal.Platform.{Platform}
use toocal.Effects.{err, key_not_found}
use toocal.Tree.{Found, missing, located, find_key}
use toocal.Tree.Shape.{BTree, inorder, height}
use toocal.Tree.Order.{IsSorted, find_item, search_tree, search_tree-find_item}
use toocal.Tree.Search.{Answers, find_key_helper-Searched}
use toocal.Collection.{Collection, remove, remove_at}
use toocal.Collection.Find.{IsTree}
use toocal.Collection.LeafWrite.{root_there}

nothing_found : (r : Found) → Answers r none → r ≡ missing
nothing_found missing h = refl
nothing_found (located index n) h = absurd h

module _ ⦃p : Platform⦄ where
  -- The removal ends with the error and changes nothing.
  pub remove-missing :
      (c : Collection) (t : BTree) (key : List ℕ) (fuel : ℕ)
      → IsTree c t
      → IsSorted (inorder t)
      → find_item key (inorder t) ≡ none
      → height t < fuel
      → remove fuel key c ≡ err (key_not_found key) c
  unfolding remove remove_at find_key
  remove-missing c t key fuel is_tree sorted absent enough =
      let s =
        find_key_helper-Searched c.dal fuel key t (0 ∷ []) is_tree.healthy is_tree.holds enough in
      let none_there : search_tree key t ≡ none = search_tree-find_item key t sorted ∙ absent in
      rw (root_there c t is_tree, s.ends, nothing_found s.result (rw none_there at s.answers))
