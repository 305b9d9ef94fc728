-- ===== src/Platform.antt =====
-- What the program takes from outside core/: the endian library's little-endian integers, which
-- the streams of core/meta.h, core/freelist.h and core/node.h are declared with, and the page
-- size of the operating system (core/page.cpp).
use toocal.Prelude.{
  ℕ, zero, suc, ◌+◌, ◌*◌, ◌/◌, ◌%◌, ◌^◌, ◌<◌, ◌≡◌, ap, List, [], ◌∷◌, arith, length,
}
use native.Mathlib.Nat.{pow-suc}

-- `encode w v` are the bytes that a `stream_writer` puts for an integer `v` of `w` bytes, and
-- `decode bs` is the integer that a `stream_reader` makes of the bytes `bs`. The laws are the
-- documented byte order: the least significant byte comes first.
pub record Platform : Type 0 where
  pub encode : ℕ → ℕ → List ℕ
  pub decode : List ℕ → ℕ
  pub default_page_size : ℕ
  pub encode_zero : (v : ℕ) → encode 0 v ≡ []
  pub encode_suc : (w v : ℕ) → encode (suc w) v ≡ (v % 256) ∷ encode w (v / 256)
  pub decode_nil : decode [] ≡ 0
  pub decode_cons : (b : ℕ) (bs : List ℕ) → decode (b ∷ bs) ≡ b + 256 * decode bs

div-lt_pow : (w v : ℕ) → v < 256 ^ suc w → v / 256 < 256 ^ w
div-lt_pow w v h = omega (arith, pow-suc 256 w)

module _ ⦃p : Platform⦄ where
  abbrev pub encode : ℕ → ℕ → List ℕ
  encode = p.encode

  abbrev pub decode : List ℕ → ℕ
  decode = p.decode

  abbrev pub default_page_size : ℕ
  default_page_size = p.default_page_size

  pub length-encode : (w v : ℕ) → length (encode w v) ≡ w
  length-encode zero v = rw p.encode_zero
  length-encode (suc w) v = rw p.encode_suc (ap suc (length-encode w (v / 256)))

  -- What is read back of an integer is its value modulo the range of its width.
  pub decode-encode : (w v : ℕ) → v < 256 ^ w → decode (encode w v) ≡ v
  decode-encode zero v h = rw (p.encode_zero, p.decode_nil) (omega arith)
  decode-encode (suc w) v h =
      rw (p.encode_suc, p.decode_cons) (omega (arith, decode-encode w (v / 256) (div-lt_pow w v h)))
