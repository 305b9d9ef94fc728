-- ===== src/Tests/CollectionRemovals.antt =====
-- The theorems on removals from a collection at concrete inputs.
use toocal.Prelude.{ℕ, ◌≡◌, refl, inr, List, [], ◌∷◌, arith}
use toocal.Effects.{ok, undefined_behavior, ◌>>◌}
use toocal.Utils.{bytescmp}
use toocal.Node.{Item}
use toocal.Node
use toocal.Tree
use toocal.Tree.Shape.{BTree, leaf, inner, last, branch, inorder, height}
use toocal.Tree.Order.{find_item, IsSorted}
use toocal.Tree.Deletion.{remove_sorted}
use toocal.Tree.SortedDeletion.{cleared}
use toocal.Collection.{Collection, find, remove}
use toocal.Collection.Find.{IsTree}
use toocal.Collection.Remove.{HasSpare, remove-remove_sorted}
use toocal.Tree.InnerSite.{InNode, in_node, at_item}
use toocal.Collection.InnerRemove.{HasReplacement, remove-replaced}
use toocal.Collection.Removing.{from_inner}
use toocal.Collection.Lookup.{find-remove}
use toocal.Collection.OnlyChild.{remove-only_child}
use toocal.Tests.Storable.{item, one_item-IsStorable}
use toocal.Tests.{little_endian, options, new_database, fresh, put_byte, program}

-- The collection after four puts: the last leaf has two items.
unfoldable pub four : Collection
unfolding fresh program
four = elim ((put_byte 1 >> put_byte 2 >> put_byte 3 >> put_byte 4) fresh) [
  | ok _ c ↦ c
  | _ ↦ fresh
]

abbrev pub four_tree : BTree
four_tree = inner 4 (branch (leaf 3 (item 1 ∷ [])) (item 2) (last (leaf 5 (item 3 ∷ item 4 ∷ []))))

pub four-IsTree : IsTree four four_tree
unfolding four
four-IsTree = record {
  healthy = record { opened = refl; sound = refl; within = omega arith; addressable = omega arith };
  root_page = refl;
  holds = (
    record { inside = omega arith; decoded = refl; number = refl },
    (
      record { inside = omega arith; decoded = refl; number = refl },
      record { inside = omega arith; decoded = refl; number = refl },
    ),
  );
}

pub four-IsSorted : IsSorted (inorder four_tree)
unfolding bytescmp
four-IsSorted = ((refl, (refl, (refl, tt))), ((refl, (refl, tt)), ((refl, tt), (tt, tt))))

four-HasSpare : HasSpare four (3 ∷ []) four_tree
unfolding four bytescmp Tree.Search.position Node.size
four-HasSpare = record {
  can = record {
    storable = one_item-IsStorable _ _;
    page_fits = omega arith;
    numbered = refl;
    distinct = λ q. ground arith;
  };
  calm = (refl, tt);
  root_stays = refl;
}

remove-remove_sorted_example :
    (c' : Collection) × (t' : BTree) × (remove 2 (3 ∷ []) four ≡ ok tt c')
    × (c'.root ≡ four.root)
    × IsTree c' t'
    × (inorder t' ≡ remove_sorted (3 ∷ []) (inorder four_tree))
    × (height t' ≡ height four_tree)
unfolding bytescmp
remove-remove_sorted_example =
    remove-remove_sorted four four_tree (3 ∷ []) (item 3) four-IsTree four-HasSpare 2 (omega arith)
      refl four-IsSorted

-- After four puts in another order the first leaf has two items.
unfoldable two_left : Collection
unfolding fresh program
two_left = elim ((put_byte 2 >> put_byte 3 >> put_byte 4 >> put_byte 1) fresh) [
  | ok _ c ↦ c
  | _ ↦ fresh
]

abbrev two_left_tree : BTree
two_left_tree =
    inner 4 (branch (leaf 3 (item 1 ∷ item 2 ∷ [])) (item 3) (last (leaf 5 (item 4 ∷ []))))

two_left-IsTree : IsTree two_left two_left_tree
unfolding two_left
two_left-IsTree = record {
  healthy = record { opened = refl; sound = refl; within = omega arith; addressable = omega arith };
  root_page = refl;
  holds = (
    record { inside = omega arith; decoded = refl; number = refl },
    (
      record { inside = omega arith; decoded = refl; number = refl },
      record { inside = omega arith; decoded = refl; number = refl },
    ),
  );
}

two_left-IsSorted : IsSorted (inorder two_left_tree)
unfolding bytescmp
two_left-IsSorted = ((refl, (refl, (refl, tt))), ((refl, (refl, tt)), ((refl, tt), (tt, tt))))

-- The key 3 is in the root.
abbrev two_left-InNode : InNode (3 ∷ []) two_left_tree
unfolding bytescmp
two_left-InNode = in_node 4 _ (at_item _ _ _ refl)

two_left-HasReplacement :
    HasReplacement two_left (3 ∷ []) two_left_tree two_left-InNode (item 1 ∷ []) (item 2)
unfolding two_left bytescmp Tree.Search.position Node.size
two_left-HasReplacement = record {
  can = record {
    storable = one_item-IsStorable _ _;
    page_fits = omega arith;
    numbered = refl;
    distinct = λ q. ground arith;
  };
  leaf_items = refl;
  node_storable = record {
    short = (record { short_key = omega arith; short_value = omega arith }, tt);
    pages = (omega arith, (omega arith, tt));
    shape = inr refl;
    fits = omega arith;
    offsets = omega arith;
  };
  calm = (refl, tt);
  root_stays = refl;
}

find-remove_example :
    (c' : Collection) × (remove 2 (3 ∷ []) two_left ≡ ok tt c')
    × ((k : List ℕ)
        → (find 2 k two_left ≡ ok (find_item k (inorder two_left_tree)) two_left)
          × (find 2 k c' ≡ ok (cleared (3 ∷ []) k (inorder two_left_tree)) c'))
unfolding bytescmp
find-remove_example =
    find-remove two_left two_left_tree (3 ∷ []) 2 two_left-IsTree
      (from_inner two_left_tree two_left-InNode (item 1 ∷ []) (item 2) two_left-HasReplacement)
      two_left-IsSorted (omega arith)

remove-replaced_example :
    (c' : Collection) × (t' : BTree) × (remove 2 (3 ∷ []) two_left ≡ ok tt c')
    × (c'.root ≡ two_left.root)
    × IsTree c' t'
    × (inorder t' ≡ remove_sorted (3 ∷ []) (inorder two_left_tree))
    × (height t' ≡ height two_left_tree)
unfolding bytescmp
remove-replaced_example =
    remove-replaced two_left two_left_tree (3 ∷ []) two_left-InNode (item 1 ∷ []) (item 2)
      two_left-IsTree two_left-HasReplacement 2 (omega arith) two_left-IsSorted

-- A new collection where a leaf with one of the items is under-populated.
tight : Collection
unfolding new_database
tight = record {
  dal = record new_database {
    options = record options { min_fill_percent = record { mantissa = 7; exponent = 6 } };
  };
  name = [];
  root = 0;
}

-- The collection after three puts and the removal of the first item: the root has one child.
merged : Collection
unfolding tight program
merged = elim ((put_byte 1 >> put_byte 2 >> put_byte 3 >> remove 10 (1 ∷ [])) tight) [
  | ok _ c ↦ c
  | _ ↦ tight
]

abbrev merged_items : List Item
merged_items = item 2 ∷ item 3 ∷ []

merged-IsTree : IsTree merged (inner 4 (last (leaf 3 merged_items)))
unfolding merged
merged-IsTree = record {
  healthy = record { opened = refl; sound = refl; within = omega arith; addressable = omega arith };
  root_page = refl;
  holds = (
    record { inside = omega arith; decoded = refl; number = refl },
    record { inside = omega arith; decoded = refl; number = refl },
  );
}

remove-only_child_example : remove 2 (2 ∷ []) merged ≡ undefined_behavior
unfolding merged bytescmp Tree.Search.position Node.size
remove-only_child_example =
    remove-only_child merged 4 3 merged_items (2 ∷ []) (item 2) 2 merged-IsTree
      (record {
        storable = one_item-IsStorable _ _;
        page_fits = omega arith;
        numbered = refl;
        distinct = λ q. ground arith;
      })
      ((refl, tt), (tt, tt)) refl refl (omega arith)
