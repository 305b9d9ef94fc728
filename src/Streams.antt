-- ===== src/Streams.antt =====
-- The streams of the endian library on a buffer: a position that each call moves on. A call that
-- would leave the buffer is refused by an assertion, or undefined without one: `none`.
pub mod Laws
use toocal.Prelude.{ℕ, ◌+◌, Option, none, some, List, poke, peek, length}
use toocal.Platform.{Platform, encode, decode}

-- A chain of accesses, any of which may leave its buffer.
infixl 5 ◌>>=◌
abbrev pub ◌>>=◌ {ℓ κ} : {A : Type ℓ} {B : Type κ} → Option A → (A → Option B) → Option B
none >>= f = none
some a >>= f = f a

pub record Stream : Type 0 where
  pub buffer : List ℕ
  pub position : ℕ

-- `stream.write(data, size)`
unfoldable pub write_bytes : List ℕ → Stream → Option Stream
write_bytes d s = do
  b ← poke s.buffer s.position d
  some (record { buffer = b; position = s.position + length d })

-- `stream.read(data, size)`
unfoldable pub read_bytes : ℕ → Stream → Option (List ℕ × Stream)
read_bytes n s = do d ← peek s.buffer s.position n; some (d, record s { position = s.position + n })

module _ ⦃p : Platform⦄ where
  -- `stream << value`, for a value of `w` bytes
  unfoldable pub write_int : ℕ → ℕ → Stream → Option Stream
  write_int w v s = write_bytes (encode w v) s

  -- `stream >> value`
  unfoldable pub read_int : ℕ → Stream → Option (ℕ × Stream)
  read_int w s = do (d, s) ← read_bytes w s; some (decode d, s)
