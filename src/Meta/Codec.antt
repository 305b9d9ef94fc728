-- ===== src/Meta/Codec.antt =====
-- The serialization of core/meta.h.
use toocal.Prelude.{ℕ, ◌<◌, ◌^◌, ◌≡◌, refl, some, List, [], ◌++◌, replicate}
use toocal.Platform.{Platform, encode}
use toocal.Meta.{Meta, serialize, deserialize}
use toocal.Streams.Laws.{read_int-between, write_int-between}
use mathlib.Core.List.{append_assoc, append-nil}

module _ ⦃p : Platform⦄ where
  abbrev pub image : Meta → List ℕ
  image m = encode 8 m.root ++ encode 8 m.freelist_page

  pub serialize-image : (m : Meta) → serialize m ≡ some (image m)
  unfolding serialize
  serialize-image m = rw (
    write_int-between 8 m.root [] (replicate 8 0) (replicate 8 0) refl,
    write_int-between 8 m.freelist_page (encode 8 m.root) (replicate 8 0) [] refl,
    append-nil,
  )

  pub deserialize-image :
      (m : Meta) (ys : List ℕ)
      → m.root < 2 ^ 64
      → m.freelist_page < 2 ^ 64
      → deserialize (image m ++ ys) ≡ some m
  unfolding deserialize
  deserialize-image m ys r f = rw (
    append_assoc,
    read_int-between 8 m.root [] (encode 8 m.freelist_page ++ ys) r,
    read_int-between 8 m.freelist_page (encode 8 m.root) ys f,
  )

  -- A meta page whose page numbers fit 64 bits is serialized, and is read back from any buffer that
  -- begins with its serialization.
  pub meta_round_trip :
      (m : Meta)
      → m.root < 2 ^ 64
      → m.freelist_page < 2 ^ 64
      → (bytes : List ℕ) × (serialize m ≡ some bytes)
        × ((padding : List ℕ) → deserialize (bytes ++ padding) ≡ some m)
  meta_round_trip m r f = (image m, serialize-image m, λ padding. deserialize-image m padding r f)
