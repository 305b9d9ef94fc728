-- ===== src/Dal/Threshold.antt =====
-- The `float` fill percentages of core/data_access_layer.h. A `float` is a mantissa times a negative
-- power of two; its product with a page size that is a power of two is exact, and so is the
-- conversion of a node size below 2^24, so the comparisons are those of the real numbers.
use toocal.Prelude.{ℕ, ◌*◌, ◌^◌, Bool, ltb}

pub record Fill : Type 0 where
  pub mantissa : ℕ
  pub exponent : ℕ

-- size < percent * page_size
abbrev pub below : ℕ → Fill → ℕ → Bool
below size percent page_size = ltb (size * 2 ^ percent.exponent) (percent.mantissa * page_size)

-- size > percent * page_size
abbrev pub above : ℕ → Fill → ℕ → Bool
above size percent page_size = ltb (percent.mantissa * page_size) (size * 2 ^ percent.exponent)
