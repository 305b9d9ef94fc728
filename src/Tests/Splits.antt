-- ===== src/Tests/Splits.antt =====
-- The theorems on splits and on the built-in options at concrete inputs.
use toocal.Prelude.{
  ℕ, ◌+◌, ◌<◌, ◌≤◌, ◌≡◌, ◌≢◌, refl, [], ◌∷◌, ◌++◌, arith, take, drop, inl, inr, insert_idx,
  replicate, true, false,
}
use toocal.Platform.{Platform}
use toocal.Effects.{ok, undefined_behavior}
use toocal.Freelist.{get_next_page}
use toocal.Node
use toocal.Node.{Item, Node}
use toocal.Node.Serializer.RoundTrip.{IsStorable, layout_bytes}
use toocal.Dal
use toocal.Dal.{Dal, get_split_index, no_index, is_over_populated}
use toocal.Dal.Pages.{IsHealthy}
use toocal.Dal.Nodes.{HoldsNode}
use toocal.Dal.BuiltinOptions.{balance, best_file_size}
use toocal.Dal.BuiltinOptions.Balance.{IsKeyed, balance-IsStorable}
use toocal.Tree.{split}
use toocal.Tree.Split.{CanSplit, left_half, right_half, grown, split-halves}
use toocal.Tree.SplitSingle.{split_single}
use toocal.Tests.Storable.{item, one_item-IsStorable}
use toocal.Tests.{little_endian, blank}

abbrev store_five : Dal
store_five = record blank {
  file = record { bytes = []; is_open = true; failed = false; capacity = 100000 };
  freelist = record { max_page = 5; released_pages = [] };
}

abbrev full_leaf : Node
full_leaf = record { page_num = 3; items = item 1 ∷ item 2 ∷ item 3 ∷ []; children = [] }

abbrev full_parent : Node
full_parent = record { page_num = 4; items = item 9 ∷ []; children = 3 ∷ 2 ∷ [] }

full_leaf-CanSplit : CanSplit store_five full_parent full_leaf 0 1 (item 2)
unfolding Dal.get_split_index get_next_page
full_leaf-CanSplit = record {
  healthy = record { opened = refl; sound = refl; within = omega arith; addressable = omega arith };
  split_at = refl;
  middle_item = refl;
  shape = inl refl;
  parent_item = omega arith;
  parent_child = omega arith;
  numbered = (omega arith, omega arith, omega arith);
  fresh = (omega arith, omega arith, omega arith);
  left_storable = one_item-IsStorable _ _;
  right_storable = one_item-IsStorable _ _;
  parent_storable = record {
    short = (
      record { short_key = omega arith; short_value = omega arith },
      (record { short_key = omega arith; short_value = omega arith }, tt),
    );
    pages = (omega arith, (omega arith, (omega arith, tt)));
    shape = inr refl;
    fits = omega arith;
    offsets = omega arith;
  };
  page_fits = omega arith;
  room = (omega arith, omega arith, omega arith);
}

split-halves_example :
    (d' : Dal) × (split full_parent full_leaf 0 store_five ≡ ok (grown 0 (item 2) 6 full_parent) d')
    × IsHealthy d'
    × HoldsNode d' 3 (left_half 1 full_leaf)
    × HoldsNode d' 6 (right_half 1 6 full_leaf)
    × HoldsNode d' 4 (grown 0 (item 2) 6 full_parent)
    × ((q : ℕ) (m : Node) → q ≢ 3 → q ≢ 6 → q ≢ 4 → HoldsNode store_five q m → HoldsNode d' q m)
    × (take 1 full_leaf.items ++ (item 2 ∷ drop (1 + 1) full_leaf.items) ≡ full_leaf.items)
    × (take (1 + 1) full_leaf.children ++ drop (1 + 1) full_leaf.children ≡ full_leaf.children)
    × (d'.freelist ≡ (get_next_page store_five.freelist).1)
unfolding get_next_page
split-halves_example = split-halves full_leaf-CanSplit

split_single_example :
    let n : Node = record { page_num = 3; items = item 1 ∷ []; children = [] } in
    (get_split_index n blank ≡ no_index) × (split full_parent n 0 blank ≡ undefined_behavior)
split_single_example =
    split_single full_parent (record { page_num = 3; items = item 1 ∷ []; children = [] }) 0 blank
      (omega arith)

-- The platform with pages of 4096 bytes, and a store with the default options.
abbrev usual_platform : Platform
usual_platform = record little_endian { default_page_size = 4096 }

abbrev usual_store : Dal
usual_store = record blank { options = balance ⦃p = usual_platform⦄ }

balance-IsStorable_example :
    IsStorable 4096 full_leaf
    × ((item : Item) (index : ℕ)
        → full_leaf.children ≡ []
        → IsKeyed item
        → index ≤ 3
        → IsStorable 4096 (record full_leaf { items = insert_idx full_leaf.items index item }))
unfolding Node.size
balance-IsStorable_example =
    balance-IsStorable ⦃p = usual_platform⦄ usual_store full_leaf refl refl
      (
        record {
          some_key = omega arith;
          short = record { short_key = omega arith; short_value = omega arith };
        },
        (
          record {
            some_key = omega arith;
            short = record { short_key = omega arith; short_value = omega arith };
          },
          (
            record {
              some_key = omega arith;
              short = record { short_key = omega arith; short_value = omega arith };
            },
            tt,
          ),
        ),
      )
      (omega arith) tt (inl refl) refl

-- Under BEST_FILE_SIZE, an inner node that is not over-populated may take more than its page.
abbrev wide_node : Node
wide_node = record {
  page_num = 3;
  items =
      replicate 218
        (record { key = 1 ∷ 2 ∷ 3 ∷ 4 ∷ 5 ∷ 6 ∷ []; value = 1 ∷ 2 ∷ 3 ∷ 4 ∷ 5 ∷ 6 ∷ 7 ∷ 8 ∷ [] });
  children = replicate 219 7;
}

best_file_size_overfull :
    (is_over_populated wide_node (record blank { options = best_file_size ⦃p = usual_platform⦄ })
      ≡ false)
    × (4096 < layout_bytes wide_node)
unfolding Node.size
best_file_size_overfull = (refl, omega arith)
