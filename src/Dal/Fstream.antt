-- ===== src/Dal/Fstream.antt =====
-- `std::fstream` as the store uses it (core/data_access_layer.cpp): a sequence of bytes, and the
-- state that the stream itself keeps. A failed call sets the fail bit, and no later call clears it.
use toocal.Prelude.{
  ℕ, ◌+◌, ◌-◌, Bool, true, false, Option, none, some, List, ◌++◌, length, replicate, leb, ltb,
  if◌then◌else◌, ◌&&◌, not, store, slice,
}

-- `capacity` is the size that the file system lets the file grow to.
pub record File : Type 0 where
  pub bytes : List ℕ
  pub is_open : Bool
  pub failed : Bool
  pub capacity : ℕ

abbrev pub fail : File → File
fail f = record f { failed = true }

unfoldable pub close : File → File
close f = record f { is_open = false }

-- `seekp` and `seekg`, with whether they leave the stream without the fail bit. An offset is an
-- `int64_t`, and one that the conversion from `uint64_t` made negative is refused.
unfoldable pub seek : ℕ → File → Bool × File
seek pos f =
    if f.is_open && not f.failed && ltb pos 9223372036854775808 then (true, f) else (false, fail f)

-- The bytes with zeros up to the length `n`: a write behind the end leaves a hole.
unfoldable pub extend : List ℕ → ℕ → List ℕ
extend bytes n = bytes ++ replicate (n - length bytes) 0

unfoldable pub write : ℕ → List ℕ → File → Bool × File
unfolding extend
write pos d f =
    if leb (pos + length d) f.capacity
    then (true, record f { bytes = store (extend f.bytes (pos + length d)) pos d })
    else (false, fail f)

-- A read that meets the end of the file sets the fail bit.
unfoldable pub read : ℕ → ℕ → File → Option (List ℕ) × File
read pos n f =
    if leb (pos + n) (length f.bytes) then (some (slice f.bytes pos n), f) else (none, fail f)
