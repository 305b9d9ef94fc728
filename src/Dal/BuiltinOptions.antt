-- ===== src/Dal/BuiltinOptions.antt =====
-- `builtin_options` of core/data_access_layer.h: the three `float` pairs, exactly.
pub mod Balance
use toocal.Platform.{Platform, default_page_size}
use toocal.Prelude.{ℕ, Bool, Option, List}
use toocal.Effects.{Outcome}
use toocal.Dal.{Options, Dal, open_database}

module _ ⦃p : Platform⦄ where
  -- BALANCE, with 0.0125f and 0.025f
  abbrev pub balance : Options
  balance = record {
    page_size = default_page_size;
    min_fill_percent = record { mantissa = 13421773; exponent = 30 };
    max_fill_percent = record { mantissa = 13421773; exponent = 29 };
  }

  -- BEST_FILE_SIZE, with 0.75f twice
  abbrev pub best_file_size : Options
  best_file_size = record {
    page_size = default_page_size;
    min_fill_percent = record { mantissa = 3; exponent = 2 };
    max_fill_percent = record { mantissa = 3; exponent = 2 };
  }

  -- BEST_PERFORMANCE, with 0.125f twice
  abbrev pub best_performance : Options
  best_performance = record {
    page_size = default_page_size;
    min_fill_percent = record { mantissa = 1; exponent = 3 };
    max_fill_percent = record { mantissa = 1; exponent = 3 };
  }

  -- The constructor without options
  abbrev pub open_default : Option (List ℕ) → (opens : Bool) (capacity : ℕ) → Outcome Dal (Unit {0})
  open_default = open_database balance
