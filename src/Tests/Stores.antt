-- ===== src/Tests/Stores.antt =====
-- The theorems on the store at concrete inputs.
use toocal.Prelude.{ℕ, ◌≡◌, ◌≢◌, refl, [], ◌∷◌, arith, inl, true, false}
use toocal.Effects.{ok, ◌>>◌}
use toocal.Freelist
use toocal.Freelist.{Freelist, get_next_page}
use toocal.Meta
use toocal.Meta.{Meta}
use toocal.Node.{Node}
use toocal.Node.Serializer.RoundTrip.{IsStorable}
use toocal.Dal.{
  Dal, write_node, get_node, initialize_database, load_database, write_freelist, write_meta,
}
use toocal.Dal.Pages.{IsHealthy}
use toocal.Dal.Nodes.{HoldsNode, get_node-write_node}
use toocal.Dal.Startup.{IsNew, HoldsImage, first_meta, first_freelist, initialize_database-IsNew}
use toocal.Dal.Reopening.{load_database-write_node}
use toocal.Dal.Persistence.{IsSavable, load_database-saved}
use toocal.Tests.{little_endian, blank, new_database}

-- An empty file that is open.
abbrev empty_store : Dal
empty_store = record blank {
  file = record { bytes = []; is_open = true; failed = false; capacity = 100000 };
}

empty_store-IsHealthy : IsHealthy empty_store
empty_store-IsHealthy = record {
  opened = refl;
  sound = refl;
  within = omega arith;
  addressable = omega arith;
}

abbrev one_item : Node
one_item = record {
  page_num = 2;
  items = record { key = 7 ∷ []; value = 8 ∷ [] } ∷ [];
  children = [];
}

one_item-IsStorable : IsStorable 128 one_item
one_item-IsStorable = record {
  short = (record { short_key = omega arith; short_value = omega arith }, tt);
  pages = tt;
  shape = inl refl;
  fits = omega arith;
  offsets = omega arith;
}

get_node-write_node_example :
    (d' : Dal) × (write_node one_item empty_store ≡ ok one_item d')
    × (get_node 2 d' ≡ ok one_item d')
    × ((q : ℕ) (m : Node)
        → q ≢ 2
        → HoldsNode empty_store q m
        → (get_node q empty_store ≡ ok m empty_store) × (get_node q d' ≡ ok m d'))
get_node-write_node_example =
    get_node-write_node empty_store empty_store-IsHealthy one_item one_item-IsStorable (omega arith)
      (omega arith) (omega arith)

initialize_database-IsNew_example :
    (d' : Dal) × (initialize_database empty_store ≡ ok tt d') × IsNew empty_store d'
initialize_database-IsNew_example =
    initialize_database-IsNew empty_store empty_store-IsHealthy refl (omega arith) (omega arith)
      (omega arith) (omega arith) (omega arith)

new_database-IsHealthy : IsHealthy new_database
unfolding new_database
new_database-IsHealthy = record {
  opened = refl;
  sound = refl;
  within = omega arith;
  addressable = omega arith;
}

new_database-HoldsImage :
    HoldsImage new_database 0 (Meta.Codec.image first_meta)
    × HoldsImage new_database 1 (Freelist.Codec.image first_freelist)
unfolding new_database Freelist.Codec.pages_image
new_database-HoldsImage =
    (record { inside = omega arith; begins = refl }, record { inside = omega arith; begins = refl })

load_database-write_node_example :
    (d' : Dal) × (d'' : Dal) × (write_node one_item new_database ≡ ok one_item d')
    × (load_database d' ≡ ok tt d'')
    × HoldsNode d'' 2 one_item
    × (d''.meta.root ≡ 0)
    × ((get_next_page d''.freelist).0 ≡ 2)
unfolding new_database
load_database-write_node_example =
    load_database-write_node new_database one_item new_database-IsHealthy one_item-IsStorable
      (omega arith) (omega arith) (omega arith) new_database-HoldsImage.0 new_database-HoldsImage.1

-- A store that has a root, and a page to give out again.
abbrev used_store : Dal
used_store = record empty_store {
  meta = record { root = 2; freelist_page = 1 };
  freelist = record { max_page = 3; released_pages = 3 ∷ [] };
}

used_store-IsSavable : IsSavable used_store
unfolding Freelist.Codec.pages_image
used_store-IsSavable = record {
  root = omega arith;
  freelist_page = omega arith;
  apart = omega arith;
  max_page = omega arith;
  count = omega arith;
  pages = (omega arith, tt);
  freelist_fits = omega arith;
  meta_fits = omega arith;
  meta_room = omega arith;
  freelist_room = omega arith;
}

load_database-saved_example :
    (d' : Dal) × ((write_freelist >> write_meta used_store.meta) used_store ≡ ok tt d')
    × ((m : Meta) (f : Freelist) → load_database (record d' { meta = m; freelist = f }) ≡ ok tt d')
    × (d'.meta ≡ used_store.meta)
    × (d'.freelist ≡ used_store.freelist)
load_database-saved_example =
    load_database-saved used_store
      (record { opened = refl; sound = refl; within = omega arith; addressable = omega arith })
      used_store-IsSavable
