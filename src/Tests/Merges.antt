-- ===== src/Tests/Merges.antt =====
-- The theorems on merges, and on the first item of a collection, at concrete inputs.
use toocal.Prelude.{ℕ, ◌+◌, ◌≡◌, ◌≢◌, refl, some, List, [], ◌∷◌, arith, inl, inr, true, false}
use toocal.Effects.{ok, ◌>>◌}
use toocal.Freelist.{release_page, get_next_page}
use toocal.Node.{Item, Node, Rotated, rotate_right, rotate_left}
use toocal.Node.Serializer.Cells.{IsShort}
use toocal.Dal.{Dal, write_node}
use toocal.Dal.Pages.{IsHealthy}
use toocal.Dal.Nodes.{HoldsNode}
use toocal.Tree.{merge}
use toocal.Tree.Shape.{leaf}
use toocal.Tree.Order.{find_item}
use toocal.Tree.Rebalance.{
  CanRebalanceLast, CanRebalanceFirst, Rebalanced, rebalance_remove-last, rebalance_remove-first,
}
use toocal.Tree.Merge.{CanMerge, joined, shrunk, merge-joined}
use toocal.Collection.{Collection, put, find}
use toocal.Collection.Find.{IsTree}
use toocal.Collection.First.{put-first}
use toocal.Tests.{little_endian, blank, new_database, fresh, program}

abbrev item : ℕ → Item
item k = record { key = k ∷ []; value = (k + 100) ∷ [] }

abbrev left_leaf : Node
left_leaf = record { page_num = 3; items = item 1 ∷ item 2 ∷ []; children = [] }

abbrev right_leaf : Node
right_leaf = record { page_num = 4; items = item 7 ∷ []; children = [] }

abbrev upper_node : Node
upper_node = record { page_num = 5; items = item 5 ∷ item 9 ∷ []; children = 3 ∷ 4 ∷ 6 ∷ [] }

item-IsShort : (k : ℕ) → IsShort (item k)
item-IsShort k = record { short_key = omega arith; short_value = omega arith }

-- A store that holds the left leaf.
one_leaf : Dal
unfolding program
one_leaf =
    elim (write_node left_leaf (record blank {
      file = record { bytes = []; is_open = true; failed = false; capacity = 100000 };
    })) [ ok _ d ↦ d | _ ↦ blank ]

one_leaf-CanMerge : CanMerge one_leaf upper_node left_leaf right_leaf 0 (item 5)
unfolding one_leaf
one_leaf-CanMerge = record {
  healthy = record { opened = refl; sound = refl; within = omega arith; addressable = omega arith };
  left_child = refl;
  right_child = refl;
  between = refl;
  held = record { inside = omega arith; decoded = refl; number = refl };
  same_kind = λ e. refl;
  numbered = (omega arith, omega arith);
  apart = omega arith;
  left_storable = record {
    short = (item-IsShort 1, (item-IsShort 2, (item-IsShort 5, (item-IsShort 7, tt))));
    pages = tt;
    shape = inl refl;
    fits = omega arith;
    offsets = omega arith;
  };
  parent_storable = record {
    short = (item-IsShort 9, tt);
    pages = (omega arith, (omega arith, tt));
    shape = inr refl;
    fits = omega arith;
    offsets = omega arith;
  };
  page_fits = omega arith;
  room = omega arith;
}

merge-joined_example :
    (d' : Dal) × (merge upper_node right_leaf 1 one_leaf ≡ ok tt d')
    × IsHealthy d'
    × HoldsNode d' 3 (joined left_leaf (item 5) right_leaf)
    × HoldsNode d' 5 (shrunk 0 upper_node)
    × ((q : ℕ) (n : Node) → q ≢ 3 → q ≢ 5 → HoldsNode one_leaf q n → HoldsNode d' q n)
    × (d'.freelist ≡ release_page 4 one_leaf.freelist)
merge-joined_example = merge-joined one_leaf-CanMerge

put-first_example :
    (c' : Collection) × (put 1 [] (7 ∷ []) (107 ∷ []) fresh ≡ ok tt c')
    × (c'.root ≡ (get_next_page fresh.dal.freelist).0)
    × (c'.dal.freelist ≡ (get_next_page fresh.dal.freelist).1)
    × IsTree c' (leaf c'.root (item 7 ∷ []))
    × ((k : List ℕ) → find 1 k c' ≡ ok (find_item k (item 7 ∷ [])) c')
unfolding fresh new_database get_next_page
put-first_example =
    put-first fresh (7 ∷ []) (107 ∷ []) 1 []
      (record { opened = refl; sound = refl; within = omega arith; addressable = omega arith }) refl
      (omega arith) (omega arith) (omega arith) (omega arith)
      (record { short_key = omega arith; short_value = omega arith }) (omega arith)

some_inj : {x y : Rotated} → some x ≡ some y → x ≡ y
some_inj e = cc

-- The right leaf is the last child here, and the left one can spare an item.
abbrev last_parent : Node
last_parent = record { page_num = 5; items = item 5 ∷ []; children = 3 ∷ 4 ∷ [] }

abbrev rotated_right : Rotated
rotated_right = record {
  anode = record left_leaf { items = item 1 ∷ [] };
  pnode = record last_parent { items = item 2 ∷ [] };
  bnode = record right_leaf { items = item 5 ∷ item 7 ∷ [] };
}

one_leaf-CanRebalanceLast : CanRebalanceLast one_leaf last_parent left_leaf right_leaf 0 (item 5)
unfolding one_leaf rotate_right
one_leaf-CanRebalanceLast = record {
  merges = record {
    healthy = record {
      opened = refl;
      sound = refl;
      within = omega arith;
      addressable = omega arith;
    };
    left_child = refl;
    right_child = refl;
    between = refl;
    held = record { inside = omega arith; decoded = refl; number = refl };
    same_kind = λ e. refl;
    numbered = (omega arith, omega arith);
    apart = omega arith;
    left_storable = record {
      short = (item-IsShort 1, (item-IsShort 2, (item-IsShort 5, (item-IsShort 7, tt))));
      pages = tt;
      shape = inl refl;
      fits = omega arith;
      offsets = omega arith;
    };
    parent_storable = record {
      short = tt;
      pages = (omega arith, tt);
      shape = inr refl;
      fits = omega arith;
      offsets = omega arith;
    };
    page_fits = omega arith;
    room = omega arith;
  };
  is_last_child = refl;
  rotates = λ r e.
      let same : rotated_right ≡ r = some_inj e in
      rw (← same) (record {
        numbered = omega arith;
        apart = (omega arith, omega arith);
        room = omega arith;
        left_storable = record {
          short = (item-IsShort 1, tt);
          pages = tt;
          shape = inl refl;
          fits = omega arith;
          offsets = omega arith;
        };
        parent_storable = record {
          short = (item-IsShort 2, tt);
          pages = (omega arith, (omega arith, tt));
          shape = inr refl;
          fits = omega arith;
          offsets = omega arith;
        };
        right_storable = record {
          short = (item-IsShort 5, (item-IsShort 7, tt));
          pages = tt;
          shape = inl refl;
          fits = omega arith;
          offsets = omega arith;
        };
        same_kind = λ _. refl;
      });
}

rebalance_remove-last_example :
    Rebalanced one_leaf last_parent right_leaf 1 left_leaf right_leaf 0 (item 5)
rebalance_remove-last_example =
    rebalance_remove-last one_leaf last_parent left_leaf right_leaf 0 (item 5)
      one_leaf-CanRebalanceLast

-- The first child has one item, and its right sibling two.
abbrev first_leaf : Node
first_leaf = record { page_num = 3; items = item 1 ∷ []; children = [] }

abbrev second_leaf : Node
second_leaf = record { page_num = 4; items = item 7 ∷ item 8 ∷ []; children = [] }

abbrev rotated_left : Rotated
rotated_left = record {
  anode = record first_leaf { items = item 1 ∷ item 5 ∷ [] };
  pnode = record last_parent { items = item 7 ∷ [] };
  bnode = record second_leaf { items = item 8 ∷ [] };
}

two_leaves : Dal
unfolding program
two_leaves =
    elim ((write_node first_leaf >> write_node second_leaf) (record blank {
      file = record { bytes = []; is_open = true; failed = false; capacity = 100000 };
    })) [ ok _ d ↦ d | _ ↦ blank ]

two_leaves-CanRebalanceFirst :
    CanRebalanceFirst two_leaves last_parent first_leaf second_leaf (item 5)
unfolding two_leaves rotate_left
two_leaves-CanRebalanceFirst = record {
  merges = record {
    healthy = record {
      opened = refl;
      sound = refl;
      within = omega arith;
      addressable = omega arith;
    };
    left_child = refl;
    right_child = refl;
    between = refl;
    held = record { inside = omega arith; decoded = refl; number = refl };
    same_kind = λ e. refl;
    numbered = (omega arith, omega arith);
    apart = omega arith;
    left_storable = record {
      short = (item-IsShort 1, (item-IsShort 5, (item-IsShort 7, (item-IsShort 8, tt))));
      pages = tt;
      shape = inl refl;
      fits = omega arith;
      offsets = omega arith;
    };
    parent_storable = record {
      short = tt;
      pages = (omega arith, tt);
      shape = inr refl;
      fits = omega arith;
      offsets = omega arith;
    };
    page_fits = omega arith;
    room = omega arith;
  };
  held_right = record { inside = omega arith; decoded = refl; number = refl };
  rotates = λ r e.
      let same : rotated_left ≡ r = some_inj e in
      rw (← same) (record {
        numbered = omega arith;
        apart = (omega arith, omega arith);
        room = omega arith;
        left_storable = record {
          short = (item-IsShort 1, (item-IsShort 5, tt));
          pages = tt;
          shape = inl refl;
          fits = omega arith;
          offsets = omega arith;
        };
        parent_storable = record {
          short = (item-IsShort 7, tt);
          pages = (omega arith, (omega arith, tt));
          shape = inr refl;
          fits = omega arith;
          offsets = omega arith;
        };
        right_storable = record {
          short = (item-IsShort 8, tt);
          pages = tt;
          shape = inl refl;
          fits = omega arith;
          offsets = omega arith;
        };
        same_kind = λ _. refl;
      });
}

rebalance_remove-first_example :
    Rebalanced two_leaves last_parent first_leaf 0 first_leaf second_leaf 0 (item 5)
rebalance_remove-first_example =
    rebalance_remove-first two_leaves last_parent first_leaf second_leaf (item 5)
      two_leaves-CanRebalanceFirst
