-- ===== src/Types.antt =====
-- core/types.hpp: the general `Serializer`, for the types without one of their own.
use toocal.Prelude.{ℕ, List}
use toocal.Effects.{M, terminate}

module _ {S A : Type 0} where
  -- `unimplemented`
  abbrev pub serialize : A → M S (List ℕ)
  serialize a = terminate

  abbrev pub deserialize : List ℕ → M S A
  deserialize bytes = terminate
