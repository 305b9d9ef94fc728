-- ===== src/Tests.antt =====
-- Runs of the database on small pages, and the platform that the theorems are applied at.
mod Parts
mod Splits
mod Merges
mod Removals
mod Stores
mod Collections
mod Storable
mod CommandLine
mod Termination
mod Allocations
mod CollectionRemovals
mod CollectionSplits
use toocal.Prelude.{
  ℕ, zero, suc, ◌+◌, ◌*◌, ◌/◌, ◌%◌, ◌≡◌, refl, List, [], ◌∷◌, Option, some, none, true, false,
  slice, store, peek, poke,
}
use toocal.Platform.{Platform}
use toocal.Effects.{M, ok, undefined_behavior, ◌>>◌}
use toocal.Streams.{write_bytes, read_bytes, write_int, read_int}
use toocal.Utils.{bytescmp}
use toocal.Freelist
use toocal.Meta
use toocal.Node
use toocal.Node.Serializer
use toocal.Dal
use toocal.Dal.Fstream
use toocal.Tree
use toocal.Collection
use toocal.Node.{Item}
use toocal.Dal.{Dal, Options, open_database}
use toocal.Collection.{Collection, put, find, remove}

abbrev encode_le : ℕ → ℕ → List ℕ
encode_le zero v = []
encode_le (suc w) v = (v % 256) ∷ encode_le w (v / 256)

abbrev decode_le : List ℕ → ℕ
decode_le [] = 0
decode_le (b ∷ bs) = b + 256 * decode_le bs

instance abbrev pub little_endian : Platform
little_endian = record {
  encode = encode_le;
  decode = decode_le;
  default_page_size = 128;
  encode_zero = λ v. refl;
  encode_suc = λ w v. refl;
  decode_nil = refl;
  decode_cons = λ b bs. refl;
}

-- A node with more than 16 bytes is split; one with less than 8 is merged.
abbrev pub options : Options
options = record {
  page_size = 128;
  min_fill_percent = record { mantissa = 1; exponent = 4 };
  max_fill_percent = record { mantissa = 1; exponent = 3 };
}

abbrev pub blank : Dal
blank = record {
  options = options;
  file = record { bytes = []; is_open = false; failed = false; capacity = 0 };
  meta = record { root = 0; freelist_page = 0 };
  freelist = Freelist.empty;
}

-- The program, open: `program` names on its line what a run goes through.
pub program : Unit {0}
unfolding slice store peek poke write_bytes read_bytes write_int read_int bytescmp
    Freelist.get_next_page Freelist.release_page Freelist.serialize Freelist.deserialize
    Meta.serialize Meta.deserialize Node.size Node.find_key_from Node.find_key_in_node Node.add_item
    Node.rotate_right Node.rotate_left Serializer.write_child Serializer.write_cell
    Serializer.write_items Serializer.write_last_child Serializer.serialize Serializer.read_int_at
    Serializer.read_cell Serializer.read_items Serializer.read_last_child Serializer.deserialize
    Fstream.close Fstream.seek Fstream.extend Fstream.write Fstream.read Dal.close Dal.write_page
    Dal.read_page Dal.read_freelist Dal.write_freelist Dal.read_meta Dal.write_meta Dal.number_node
    Dal.write_node Dal.get_node Dal.delete_node Dal.new_node Dal.initialize_database
    Dal.load_database Dal.open_database Dal.split_index_from Dal.get_split_index
    Tree.find_key_helper Tree.find_key Tree.split_when_node_is_leaf Tree.split_when_node_is_not_leaf
    Tree.split Tree.remove_item_from_leaf Tree.rightmost_leaf Tree.remove_item_from_internal
    Tree.merge Tree.try_rotate_right Tree.try_rotate_left Tree.rebalance_remove
    Collection.insert_item Collection.follow Collection.get_nodes Collection.find
    Collection.split_ancestors Collection.split_root Collection.put_at Collection.put
    Collection.rebalance_ancestors Collection.drop_empty_root Collection.remove_item
    Collection.remove_at Collection.remove
program = tt

-- A new database, and a collection on it.
pub new_database : Dal
unfolding program
new_database = elim (open_database options none true 100000) [ ok _ d ↦ d | _ ↦ blank ]

pub fresh : Collection
unfolding new_database
fresh = record { dal = new_database; name = []; root = 0 }

pub run : {A : Type 0} → M Collection A → Option A
unfolding fresh
run m = elim (m fresh) [ ok a _ ↦ some a | _ ↦ none ]

abbrev pub put_byte : ℕ → M Collection (Unit {0})
put_byte k = put 10 [] (k ∷ []) ((k + 100) ∷ [])

eight_puts : M Collection (Unit {0})
eight_puts =
    put_byte 1
    >> put_byte 2
    >> put_byte 3
    >> put_byte 4
    >> put_byte 5
    >> put_byte 6
    >> put_byte 7
    >> put_byte 8

find_after_puts :
    run (eight_puts >> find 10 (5 ∷ [])) ≡ some (some (record { key = 5 ∷ []; value = 105 ∷ [] }))
unfolding run eight_puts program
find_after_puts = refl

remove_after_puts : run (eight_puts >> remove 10 (5 ∷ []) >> find 10 (5 ∷ [])) ≡ some none
unfolding run eight_puts program
remove_after_puts = refl

-- Items with long values: the second put leaves an empty leaf, and the item that the third puts there
-- is over-populated alone.
abbrev put_long : ℕ → M Collection (Unit {0})
put_long k = put 10 [] (k ∷ []) (0 ∷ 1 ∷ 2 ∷ 3 ∷ 4 ∷ [])

long_puts : (put_long 1 >> put_long 2 >> put_long 3) fresh ≡ undefined_behavior
unfolding fresh program
long_puts = refl

-- The last put overflows a leaf below a root that is over-populated already: the root is split as it
-- was before the leaf, and the items 13 and 14 are gone.
nine_puts : M Collection (Unit {0})
nine_puts =
    put_byte 10
    >> put_byte 20
    >> put_byte 30
    >> put_byte 11
    >> put_byte 31
    >> put_byte 12
    >> put_byte 13
    >> put_byte 32
    >> put_byte 14

lost_after_puts :
    (run (nine_puts >> find 10 (13 ∷ [])) ≡ some none)
    × (run (nine_puts >> find 10 (14 ∷ [])) ≡ some none)
unfolding run nine_puts program
lost_after_puts = (refl, refl)
