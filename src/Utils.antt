-- ===== src/Utils.antt =====
-- core/utils.h, core/utils.cpp: the comparisons of keys and of strings, and the size of a file.
pub mod Order
pub mod Strings
use toocal.Prelude.{
  ℕ, ◌+◌, ◌/◌, ◌%◌, Bool, true, false, Option, none, some, List, [], ◌∷◌, ltb, ◌==◌, if◌then◌else◌,
}
use toocal.Effects.{M, pure, terminate}

-- The `int` that a comparison returns: -1, 0 or 1.
pub data Sign : Type 0 where
  minus zero_sign plus : Sign

-- The bytes are compared one after the other; at the end of the shorter operand the sizes decide.
unfoldable pub bytescmp : List ℕ → List ℕ → Sign
bytescmp [] [] = zero_sign
bytescmp [] (b ∷ k₂) = minus
bytescmp (a ∷ k₁) [] = plus
bytescmp (a ∷ k₁) (b ∷ k₂) = if a == b then bytescmp k₁ k₂ else if ltb a b then minus else plus

-- A `char` in the order of its type, which is signed on some platforms.
abbrev pub char_rank : Bool → ℕ → ℕ
char_rank signed c = if signed then (c + 128) % 256 else c

unfoldable pub memcmp : Bool → List ℕ → List ℕ → Sign
memcmp signed [] [] = zero_sign
memcmp signed [] (b ∷ k₂) = minus
memcmp signed (a ∷ k₁) [] = plus
memcmp signed (a ∷ k₁) (b ∷ k₂) =
    if a == b
    then memcmp signed k₁ k₂
    else if ltb (char_rank signed a) (char_rank signed b)
    then minus
    else plus

-- In KB, from the bytes that `stat` gives; `fatal` where it fails.
unfoldable pub sizeof_file : {S : Type 0} → Option ℕ → M S ℕ
sizeof_file none = terminate
sizeof_file (some bytes) = pure (bytes / 1024)
