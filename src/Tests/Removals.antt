-- ===== src/Tests/Removals.antt =====
-- The theorem on removals from inner nodes at a concrete input.
use toocal.Prelude.{ℕ, ◌+◌, ◌≡◌, ◌≢◌, refl, List, [], ◌∷◌, ◌++◌, arith, inl, inr, set, true, false}
use toocal.Effects.{ok}
use toocal.Node.{Item, Node}
use toocal.Node.Serializer.Cells.{IsShort}
use toocal.Dal.{Dal, write_node}
use toocal.Dal.Pages.{IsHealthy}
use toocal.Dal.Nodes.{HoldsNode}
use toocal.Tree.{remove_item_from_internal}
use toocal.Tree.Shape.{BTree, leaf, node_of, inorder}
use toocal.Tree.InnerRemoval.{CanRemove, remove_item_from_internal-before}
use toocal.Tests.{little_endian, blank, program}

abbrev item : ℕ → Item
item k = record { key = k ∷ []; value = (k + 100) ∷ [] }

item-IsShort : (k : ℕ) → IsShort (item k)
item-IsShort k = record { short_key = omega arith; short_value = omega arith }

abbrev left_tree : BTree
left_tree = leaf 3 (item 1 ∷ item 2 ∷ [])

abbrev inner_node : Node
inner_node = record { page_num = 5; items = item 5 ∷ []; children = 3 ∷ 4 ∷ [] }

left_store : Dal
unfolding program
left_store =
    elim (write_node (node_of left_tree) (record blank {
      file = record { bytes = []; is_open = true; failed = false; capacity = 100000 };
    })) [ ok _ d ↦ d | _ ↦ blank ]

left_store-CanRemove : CanRemove left_store inner_node 0 left_tree (item 1 ∷ []) (item 2)
unfolding left_store
left_store-CanRemove = record {
  healthy = record { opened = refl; sound = refl; within = omega arith; addressable = omega arith };
  child = refl;
  holds = record { inside = omega arith; decoded = refl; number = refl };
  present = (item 5, refl);
  leaf_items = refl;
  numbered = (omega arith, omega arith);
  apart = omega arith;
  leaf_storable = record {
    short = (item-IsShort 1, tt);
    pages = tt;
    shape = inl refl;
    fits = omega arith;
    offsets = omega arith;
  };
  node_storable = record {
    short = (item-IsShort 2, tt);
    pages = (omega arith, (omega arith, tt));
    shape = inr refl;
    fits = omega arith;
    offsets = omega arith;
  };
  page_fits = omega arith;
  room = omega arith;
}

remove_item_from_internal-before_example :
    (d' : Dal) × (remove_item_from_internal 1 0 inner_node left_store ≡ ok (0 ∷ []) d')
    × IsHealthy d'
    × HoldsNode d' 3 (record (node_of left_tree) { items = item 1 ∷ [] })
    × HoldsNode d' 5 (record inner_node { items = set inner_node.items 0 (item 2) })
    × ((q : ℕ) (m : Node) → q ≢ 3 → q ≢ 5 → HoldsNode left_store q m → HoldsNode d' q m)
    × ((front : List Item) × (inorder left_tree ≡ front ++ (item 2 ∷ [])))
remove_item_from_internal-before_example =
    remove_item_from_internal-before left_store 1 inner_node 0 left_tree (item 1 ∷ []) (item 2)
      left_store-CanRemove (omega arith)
