-- ===== src/Tests/CollectionSplits.antt =====
-- The theorems on `put` with a split at concrete inputs.
use toocal.Prelude.{◌≡◌, refl, inl, inr, List, [], ◌∷◌, arith}
use toocal.Effects.{ok, ◌>>◌}
use toocal.Utils.{bytescmp}
use toocal.Freelist.{get_next_page}
use toocal.Node.{Item}
use toocal.Node
use toocal.Dal
use toocal.Tree
use toocal.Tree.Shape.{BTree, leaf, last, branch, inorder, height}
use toocal.Tree.Insertion.{insert_sorted}
use toocal.Collection.{Collection, put}
use toocal.Collection.Find.{IsTree}
use toocal.Collection.RootSplit.{Overflows, put-grows}
use toocal.Collection.WaySplit.{NeedsSplit, put-splits}
use toocal.Tests.Storable.{item, one_item-IsStorable, three_items-IsStorable}
use toocal.Tests.{little_endian, fresh, put_byte, program}
use toocal.Tests.CollectionRemovals.{four, four_tree, four-IsTree, four-IsSorted}

-- The collection after two puts: the root is a leaf.
two : Collection
unfolding fresh program
two = elim ((put_byte 1 >> put_byte 2) fresh) [ ok _ c ↦ c | _ ↦ fresh ]

abbrev two_items : List Item
two_items = item 1 ∷ item 2 ∷ []

two-IsTree : IsTree two (leaf 3 two_items)
unfolding two
two-IsTree = record {
  healthy = record { opened = refl; sound = refl; within = omega arith; addressable = omega arith };
  root_page = refl;
  holds = record { inside = omega arith; decoded = refl; number = refl };
}

two-Overflows : Overflows two (item 3) (leaf 3 two_items) 1 (item 2)
unfolding two bytescmp Tree.Search.position Node.size get_next_page Dal.get_split_index
two-Overflows = record {
  can = record {
    storable = three_items-IsStorable _ _ _ _;
    page_fits = omega arith;
    numbered = refl;
    distinct = λ q. ground arith;
  };
  over = refl;
  calm = tt;
  can_split = record {
    healthy = record {
      opened = refl;
      sound = refl;
      within = omega arith;
      addressable = omega arith;
    };
    split_at = refl;
    middle_item = refl;
    shape = inl refl;
    parent_item = omega arith;
    parent_child = omega arith;
    numbered = (omega arith, omega arith, omega arith);
    fresh = (omega arith, omega arith, omega arith);
    left_storable = one_item-IsStorable _ _;
    right_storable = one_item-IsStorable _ _;
    parent_storable = record {
      short = (record { short_key = omega arith; short_value = omega arith }, tt);
      pages = (omega arith, (omega arith, tt));
      shape = inr refl;
      fits = omega arith;
      offsets = omega arith;
    };
    page_fits = omega arith;
    room = (omega arith, omega arith, omega arith);
  };
  fresh = (refl, refl);
}

put-grows_example :
    (c' : Collection) × (t' : BTree) × (put 1 [] (3 ∷ []) (103 ∷ []) two ≡ ok tt c')
    × (c'.root ≡ (get_next_page two.dal.freelist).0)
    × IsTree c' t'
    × (inorder t' ≡ insert_sorted (item 3) two_items)
    × (height t' ≡ 1)
unfolding bytescmp
put-grows_example =
    put-grows two (leaf 3 two_items) (3 ∷ []) (103 ∷ []) two-IsTree 1 (item 2) two-Overflows 1
      (omega arith) [] ((refl, tt), (tt, tt)) refl

four-NeedsSplit :
    NeedsSplit four
      (item 5)
      4
      (branch (leaf 3 (item 1 ∷ [])) (item 2) (last (leaf 5 (item 3 ∷ item 4 ∷ []))))
      5
      1
      (item 4)
unfolding four bytescmp Tree.Search.position Node.size get_next_page Dal.get_split_index
four-NeedsSplit = record {
  can = record {
    storable = three_items-IsStorable _ _ _ _;
    page_fits = omega arith;
    numbered = refl;
    distinct = λ q. ground arith;
  };
  on_way = refl;
  over = refl;
  root_calm = refl;
  calm = tt;
  can_split = record {
    healthy = record {
      opened = refl;
      sound = refl;
      within = omega arith;
      addressable = omega arith;
    };
    split_at = refl;
    middle_item = refl;
    shape = inl refl;
    parent_item = omega arith;
    parent_child = omega arith;
    numbered = (omega arith, omega arith, omega arith);
    fresh = (omega arith, omega arith, omega arith);
    left_storable = one_item-IsStorable _ _;
    right_storable = one_item-IsStorable _ _;
    parent_storable = record {
      short = (
        record { short_key = omega arith; short_value = omega arith },
        (record { short_key = omega arith; short_value = omega arith }, tt),
      );
      pages = (omega arith, (omega arith, (omega arith, tt)));
      shape = inr refl;
      fits = omega arith;
      offsets = omega arith;
    };
    page_fits = omega arith;
    room = (omega arith, omega arith, omega arith);
  };
  fresh = refl;
}

put-splits_example :
    (c' : Collection) × (t' : BTree) × (put 2 [] (5 ∷ []) (105 ∷ []) four ≡ ok tt c')
    × (c'.root ≡ four.root)
    × IsTree c' t'
    × (inorder t' ≡ insert_sorted (item 5) (inorder four_tree))
    × (height t' ≡ height four_tree)
unfolding bytescmp
put-splits_example =
    put-splits four 4
      (branch (leaf 3 (item 1 ∷ [])) (item 2) (last (leaf 5 (item 3 ∷ item 4 ∷ [])))) (5 ∷ [])
      (105 ∷ []) four-IsTree 5 1 (item 4) four-NeedsSplit 2 (omega arith) [] four-IsSorted refl
