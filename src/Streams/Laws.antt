-- ===== src/Streams/Laws.antt =====
-- Sequential writing and reading: a stream between what it has passed and what is still to come.
use toocal.Prelude.{
  ℕ, ◌+◌, ◌^◌, ◌<◌, ◌≡◌, refl, ap, sym, ◌∙◌, some, List, [], ◌∷◌, ◌++◌, arith, store, slice, length,
  drop, length-append, peek-some, poke-some, drop_zero, take_zero,
}
use toocal.Platform.{Platform, encode, length-encode, decode-encode}
use toocal.Streams.{Stream, write_bytes, read_bytes, write_int, read_int}
use mathlib.Core.List.{append_assoc}

-- The stream that stands behind `pre` and in front of `ys`.
abbrev pub between : List ℕ → List ℕ → Stream
between pre ys = record { buffer = pre ++ ys; position = length pre }

slice-append : (pre d ys : List ℕ) → slice (pre ++ (d ++ ys)) (length pre) (length d) ≡ d
unfolding slice
slice-append [] [] ys = take_zero (drop 0 ys)
slice-append [] (b ∷ d) ys = ap (b ∷◌) (rw (← drop_zero (d ++ ys)) (slice-append [] d ys))
slice-append (x ∷ pre) d ys = slice-append pre d ys

store-append :
    (pre d zs ys : List ℕ)
    → length zs ≡ length d
    → store (pre ++ (zs ++ ys)) (length pre) d ≡ pre ++ (d ++ ys)
unfolding store
store-append [] [] [] [] h = refl
store-append [] [] [] (y ∷ ys) h = refl
store-append [] [] (z ∷ zs) ys h = absurd (omega arith)
store-append [] (b ∷ d) [] ys h = absurd (omega arith)
store-append [] (b ∷ d) (z ∷ zs) ys h = ap (b ∷◌) (store-append [] d zs ys (omega arith))
store-append (x ∷ pre) d zs ys h = ap (x ∷◌) (store-append pre d zs ys h)

between-append :
    (pre d ys : List ℕ)
    → between (pre ++ d) ys ≡ record { buffer = pre ++ (d ++ ys); position = length pre + length d }
between-append pre d ys = rw (append_assoc, length-append pre d)

-- Reading the bytes that come next.
pub read_bytes-between :
    (pre d ys : List ℕ)
    → read_bytes (length d) (between pre (d ++ ys)) ≡ some (d, between (pre ++ d) ys)
unfolding read_bytes
read_bytes-between pre d ys = rw (
  peek-some (pre ++ (d ++ ys)) (length pre) (length d)
      (omega (arith, length-append pre (d ++ ys), length-append d ys)),
  slice-append pre d ys,
  between-append pre d ys,
)

-- Writing over as many bytes as are written.
pub write_bytes-between :
    (pre d zs ys : List ℕ)
    → length zs ≡ length d
    → write_bytes d (between pre (zs ++ ys)) ≡ some (between (pre ++ d) ys)
unfolding write_bytes
write_bytes-between pre d zs ys h = rw (
  poke-some (pre ++ (zs ++ ys)) (length pre) d
      (omega (arith, length-append pre (zs ++ ys), length-append zs ys)),
  store-append pre d zs ys h,
  between-append pre d ys,
)

module _ ⦃p : Platform⦄ where
  pub read_int-between :
      (w v : ℕ) (pre ys : List ℕ)
      → v < 256 ^ w
      → read_int w (between pre (encode w v ++ ys)) ≡ some (v, between (pre ++ encode w v) ys)
  unfolding read_int
  read_int-between w v pre ys h =
      let e = read_bytes-between pre (encode w v) ys in
      let e' = rw (length-encode w v) at e in rw (e', decode-encode w v h)

  pub write_int-between :
      (w v : ℕ) (pre zs ys : List ℕ)
      → length zs ≡ w
      → write_int w v (between pre (zs ++ ys)) ≡ some (between (pre ++ encode w v) ys)
  unfolding write_int
  write_int-between w v pre zs ys h =
      write_bytes-between pre (encode w v) zs ys (h ∙ sym (length-encode w v))
