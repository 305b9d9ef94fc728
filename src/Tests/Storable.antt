-- ===== src/Tests/Storable.antt =====
-- Small leaves that fit a page, for the examples.
use toocal.Prelude.{ℕ, ◌+◌, refl, inl, [], ◌∷◌, arith}
use toocal.Node.{Item}
use toocal.Node.Serializer.RoundTrip.{IsStorable}
use toocal.Tests.{little_endian}

abbrev pub item : ℕ → Item
item k = record { key = k ∷ []; value = (k + 100) ∷ [] }

pub one_item-IsStorable :
    (page a : ℕ) → IsStorable 128 (record { page_num = page; items = item a ∷ []; children = [] })
one_item-IsStorable page a = record {
  short = (record { short_key = omega arith; short_value = omega arith }, tt);
  pages = tt;
  shape = inl refl;
  fits = omega arith;
  offsets = omega arith;
}

pub two_items-IsStorable :
    (page a b : ℕ)
    → IsStorable 128 (record { page_num = page; items = item a ∷ item b ∷ []; children = [] })
two_items-IsStorable page a b = record {
  short = (
    record { short_key = omega arith; short_value = omega arith },
    (record { short_key = omega arith; short_value = omega arith }, tt),
  );
  pages = tt;
  shape = inl refl;
  fits = omega arith;
  offsets = omega arith;
}

pub three_items-IsStorable :
    (page a b c : ℕ)
    → IsStorable 128
        (record { page_num = page; items = item a ∷ item b ∷ item c ∷ []; children = [] })
three_items-IsStorable page a b c = record {
  short = (
    record { short_key = omega arith; short_value = omega arith },
    (
      record { short_key = omega arith; short_value = omega arith },
      (record { short_key = omega arith; short_value = omega arith }, tt),
    ),
  );
  pages = tt;
  shape = inl refl;
  fits = omega arith;
  offsets = omega arith;
}
