-- ===== src/Tests/Parts.antt =====
-- The theorems on keys, nodes and the allocator at concrete inputs.
use toocal.Prelude.{
  ℕ, ◌+◌, ◌*◌, ◌<◌, ◌≤◌, ◌≡◌, ◌↔◌, ◌⊎◌, refl, List, [], ◌∷◌, ◌++◌, some, arith, length, take, inr,
  true,
}
use toocal.Utils.{zero_sign, minus, plus, bytescmp}
use toocal.Utils.Order.{Before, bytescmp_lex}
use toocal.Freelist
use toocal.Freelist.{Freelist, get_next_page, release_page}
use toocal.Freelist.Allocation.{
  IsPartition, count, erase, get_next_page-IsPartition, release_page-IsPartition,
}
use toocal.Freelist.Codec.{freelist_round_trip}
use toocal.Meta
use toocal.Meta.{Meta}
use toocal.Meta.Codec.{meta_round_trip}
use toocal.Node.{Item, Node, Rotated, rotate_right, rotate_left, add_item, header_size}
use toocal.Node.Rotation.{
  IsRotation, MovesRight, MovesLeft, rotate_right-IsRotation, rotate_left-IsRotation,
}
use toocal.Node.Serializer.{serialize, deserialize}
use toocal.Node.Serializer.RoundTrip.{IsStorable, deserialize-serialize}
use toocal.Dal.{get_split_index, no_index}
use toocal.Dal.SplitIndex.{IsBetween, exceeds, sizes_from, get_split_index-least}
use toocal.Collection.{insert_item}
use toocal.Collection.Insert.{insert_item-add_item}
use toocal.Tests.{little_endian, blank}

abbrev item : ℕ → Item
item k = record { key = k ∷ []; value = (k + 100) ∷ [] }

abbrev left_node : Node
left_node = record { page_num = 3; items = item 1 ∷ item 2 ∷ []; children = 10 ∷ 11 ∷ 12 ∷ [] }

abbrev right_node : Node
right_node = record { page_num = 4; items = item 7 ∷ []; children = 13 ∷ 14 ∷ [] }

abbrev parent_node : Node
parent_node = record { page_num = 5; items = item 5 ∷ []; children = 3 ∷ 4 ∷ [] }

bytescmp_lex_example :
    let k₁ : List ℕ = 1 ∷ 2 ∷ [] in
    let k₂ : List ℕ = 1 ∷ 3 ∷ [] in
    ((bytescmp k₁ k₂ ≡ zero_sign) ↔ (k₁ ≡ k₂))
    × ((bytescmp k₁ k₂ ≡ minus) ↔ Before k₁ k₂)
    × ((bytescmp k₁ k₂ ≡ plus) ↔ Before k₂ k₁)
bytescmp_lex_example = bytescmp_lex (1 ∷ 2 ∷ []) (1 ∷ 3 ∷ [])

abbrev two_pages : Freelist
two_pages = record { max_page = 2; released_pages = 2 ∷ [] }

two_pages-IsPartition : IsPartition two_pages (1 ∷ [])
two_pages-IsPartition p = ground arith

get_next_page-IsPartition_example :
    (count (get_next_page two_pages).0 (1 ∷ []) ≡ 0)
    × IsPartition (get_next_page two_pages).1 ((get_next_page two_pages).0 ∷ 1 ∷ [])
    × (two_pages.released_pages ≡ [] ⊎ ((get_next_page two_pages).1.max_page ≡ two_pages.max_page))
get_next_page-IsPartition_example =
    get_next_page-IsPartition two_pages (1 ∷ []) (omega arith) two_pages-IsPartition

release_page-IsPartition_example : IsPartition (release_page 1 two_pages) (erase 1 (1 ∷ []))
release_page-IsPartition_example =
    release_page-IsPartition two_pages (1 ∷ []) 1 (omega arith) two_pages-IsPartition

freelist_round_trip_example :
    (bytes : List ℕ) × (Freelist.serialize two_pages ≡ some bytes)
    × (length bytes ≡ 4 + 8 * 1)
    × ((padding : List ℕ) → Freelist.deserialize (bytes ++ padding) ≡ some two_pages)
freelist_round_trip_example =
    freelist_round_trip two_pages (omega arith) (omega arith) (omega arith, tt)

meta_round_trip_example :
    let m : Meta = record { root = 7; freelist_page = 1 } in
    (bytes : List ℕ) × (Meta.serialize m ≡ some bytes)
    × ((padding : List ℕ) → Meta.deserialize (bytes ++ padding) ≡ some m)
meta_round_trip_example =
    meta_round_trip (record { root = 7; freelist_page = 1 }) (omega arith) (omega arith)

left_node-IsStorable : IsStorable 128 left_node
left_node-IsStorable = record {
  short = (
    record { short_key = omega arith; short_value = omega arith },
    (record { short_key = omega arith; short_value = omega arith }, tt),
  );
  pages = (omega arith, (omega arith, (omega arith, tt)));
  shape = inr refl;
  fits = omega arith;
  offsets = omega arith;
}

deserialize-serialize_example :
    (image : List ℕ) × (serialize 128 left_node ≡ some image)
    × (length image ≡ 128)
    × ((padding : List ℕ)
        → deserialize (image ++ padding) ≡ some (record left_node { page_num = 0 }))
deserialize-serialize_example = deserialize-serialize 128 left_node left_node-IsStorable

rotate_right-IsRotation_example :
    (r : Rotated) × (rotate_right left_node parent_node right_node 1 ≡ some r)
    × (rot : IsRotation left_node parent_node right_node 0 r) × MovesRight left_node right_node
        rot.old rot.new r
rotate_right-IsRotation_example =
    rotate_right-IsRotation left_node parent_node right_node 0 (item 5) (λ e. cc) refl

rotate_left-IsRotation_example :
    (r : Rotated) × (rotate_left left_node parent_node right_node 0 ≡ some r)
    × (rot : IsRotation left_node parent_node right_node 0 r) × MovesLeft left_node right_node
        rot.old rot.new r
rotate_left-IsRotation_example =
    rotate_left-IsRotation left_node parent_node right_node 0 (item 5) (λ e. cc) refl

get_split_index-least_example :
    let r = get_split_index left_node blank in
    ((r ≡ no_index) ⊎ IsBetween blank left_node.items r)
    × ((j : ℕ)
        → 0 < j
        → j < length left_node.items
        → exceeds blank (sizes_from header_size (take j left_node.items)) ≡ true
        → r ≤ j)
get_split_index-least_example = get_split_index-least left_node blank

insert_item-add_item_example :
    insert_item (7 ∷ []) (item 7) 2 left_node ≡ add_item (item 7) 2 left_node
insert_item-add_item_example = insert_item-add_item (7 ∷ []) (item 7) 2 left_node
