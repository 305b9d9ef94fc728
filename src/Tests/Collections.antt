-- ===== src/Tests/Collections.antt =====
-- The theorems on collections at concrete inputs.
use toocal.Prelude.{◌≡◌, ◌≢◌, true, refl, [], ◌∷◌, arith}
use toocal.Effects.{ok, err, terminated, io_error, ◌>>◌}
use toocal.Utils.{bytescmp}
use toocal.Node.{Item}
use toocal.Collection.{Collection, put, find, remove}
use toocal.Tree.Shape.{BTree, leaf, inner, last, branch, inorder, height}
use toocal.Tree.Order.{find_item, IsSorted}
use toocal.Meta
use toocal.Dal.Startup.{HoldsImage, first_meta}
use toocal.Collection.Empty.{broken, find_no_root}
use toocal.Collection.Failure.{failed_stream}
use toocal.Collection.Insert.{put-stale}
use toocal.Tree
use toocal.Node
use toocal.Tree.Insertion.{insert_sorted}
use toocal.Collection.Put.{HasRoom, put-insert_sorted}
use toocal.Collection.PutBack.{remove-put}
use toocal.Collection.Find.{IsTree, find-find_item}
use toocal.Tests.Storable.{item, one_item-IsStorable, two_items-IsStorable}
use toocal.Tests.{little_endian, blank, new_database, fresh, put_byte, program}

-- The collection after three puts: the third splits the first node.
three : Collection
unfolding fresh program
three = elim ((put_byte 1 >> put_byte 2 >> put_byte 3) fresh) [ ok _ c ↦ c | _ ↦ fresh ]

abbrev three_tree : BTree
three_tree = inner 4 (branch (leaf 3 (item 1 ∷ [])) (item 2) (last (leaf 5 (item 3 ∷ []))))

three-IsTree : IsTree three three_tree
unfolding three
three-IsTree = record {
  healthy = record { opened = refl; sound = refl; within = omega arith; addressable = omega arith };
  root_page = refl;
  holds = (
    record { inside = omega arith; decoded = refl; number = refl },
    (
      record { inside = omega arith; decoded = refl; number = refl },
      record { inside = omega arith; decoded = refl; number = refl },
    ),
  );
}

find-find_item_example : find 2 (3 ∷ []) three ≡ ok (find_item (3 ∷ []) (inorder three_tree)) three
unfolding bytescmp
find-find_item_example =
    find-find_item 2 (3 ∷ []) three three_tree three-IsTree
      ((refl, (refl, tt)), ((refl, tt), (tt, tt))) (omega arith)

put-stale_example : put 2 [] (9 ∷ []) (1 ∷ []) ≡ put 2 (4 ∷ []) (9 ∷ []) (1 ∷ [])
put-stale_example = put-stale 2 [] (4 ∷ []) (9 ∷ []) (1 ∷ [])

abbrev failed_collection : Collection
failed_collection = record {
  dal = record blank {
    file = record { bytes = []; is_open = true; failed = true; capacity = 100000 };
  };
  name = [];
  root = 2;
}

failed_stream_example :
    (find 3 (5 ∷ []) failed_collection ≡ err io_error failed_collection)
    × (remove 3 (5 ∷ []) failed_collection ≡ err io_error failed_collection)
    × (failed_collection.root ≢ 0 → put 3 [] (5 ∷ []) (6 ∷ []) failed_collection ≡ terminated)
failed_stream_example = failed_stream failed_collection 3 (5 ∷ []) (6 ∷ []) [] refl

fresh-HoldsImage : HoldsImage fresh.dal 0 (Meta.Codec.image first_meta)
unfolding new_database fresh
fresh-HoldsImage = record { inside = omega arith; begins = refl }

find_no_root_example :
    (find 1 (5 ∷ []) fresh ≡ err io_error (record fresh { dal = broken fresh.dal }))
    × (remove 1 (5 ∷ []) fresh ≡ err io_error (record fresh { dal = broken fresh.dal }))
unfolding fresh new_database
find_no_root_example =
    find_no_root fresh 0 (5 ∷ [])
      (record { opened = refl; sound = refl; within = omega arith; addressable = omega arith }) refl
      (omega arith) (omega arith) fresh-HoldsImage

-- The fourth item goes into the last leaf.
three-HasRoom : HasRoom three (item 4) three_tree
unfolding three bytescmp Tree.Search.position Node.size
three-HasRoom = record {
  can = record {
    storable = two_items-IsStorable _ _ _;
    page_fits = omega arith;
    numbered = refl;
    distinct = λ q. ground arith;
  };
  calm = (refl, (refl, tt));
}

three-IsSorted : IsSorted (inorder three_tree)
unfolding bytescmp
three-IsSorted = ((refl, (refl, tt)), ((refl, tt), (tt, tt)))

put-insert_sorted_example :
    (c' : Collection) × (t' : BTree) × (put 2 [] (4 ∷ []) (104 ∷ []) three ≡ ok tt c')
    × (c'.root ≡ three.root)
    × IsTree c' t'
    × (inorder t' ≡ insert_sorted (item 4) (inorder three_tree))
    × (height t' ≡ height three_tree)
unfolding bytescmp
put-insert_sorted_example =
    put-insert_sorted three three_tree (4 ∷ []) (104 ∷ []) three-IsTree three-HasRoom 2
      (omega arith) [] three-IsSorted refl

remove-put_example :
    (c' : Collection) × (c'' : Collection) × (put 2 [] (4 ∷ []) (104 ∷ []) three ≡ ok tt c')
    × (remove 2 (4 ∷ []) c' ≡ ok tt c'')
    × (c''.root ≡ three.root)
    × IsTree c'' three_tree
unfolding three bytescmp Node.size
remove-put_example =
    remove-put three three_tree (4 ∷ []) (104 ∷ []) 2 [] three-IsTree three-HasRoom three-IsSorted
      refl (omega arith) (one_item-IsStorable _ _) (refl, tt) refl
