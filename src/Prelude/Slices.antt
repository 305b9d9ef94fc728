-- ===== src/Prelude/Slices.antt =====
-- Ranges of a byte buffer: reading and writing `n` elements at an offset.
use Prim.Native.Nat.{ℕ, zero, suc, ◌+◌, ◌≤◌}
use mathlib.Core.Path.{◌≡◌, refl, ap, sym, ◌∙◌}
use mathlib.Core.Logic.{◌⊎◌, inl, inr}
use mathlib.Core.List.{List, [], ◌∷◌, ◌++◌}
use mathlib.Core.Option.{Option, none, some}
use native.Mathlib.Omega.{arith}
use toocal.Prelude.Lists.{
  length, get_elem?, take, drop, take_zero, drop_zero, take-drop_zero, length-take, length-drop,
}
use toocal.Prelude.Tests.{leb, if◌then◌else◌, le→leb}

module _ {ℓ} {A : Type ℓ} where
  -- The elements from `pos` on, `n` of them.
  unfoldable pub slice : List A → ℕ → ℕ → List A
  slice xs pos n = take n (drop pos xs)

  -- Writes `d` at `pos`; what does not fit is dropped.
  unfoldable pub store : List A → ℕ → List A → List A
  store [] pos d = []
  store (x ∷ xs) zero [] = x ∷ xs
  store (x ∷ xs) zero (b ∷ d) = b ∷ store xs zero d
  store (x ∷ xs) (suc pos) d = x ∷ store xs pos d

  -- Bounds-checked access: `none` is an access outside the buffer.
  unfoldable pub peek : List A → ℕ → ℕ → Option (List A)
  peek xs pos n = if leb (pos + n) (length xs) then some (slice xs pos n) else none

  unfoldable pub poke : List A → ℕ → List A → Option (List A)
  poke xs pos d = if leb (pos + length d) (length xs) then some (store xs pos d) else none

  pub length-store : (xs : List A) (pos : ℕ) (d : List A) → length (store xs pos d) ≡ length xs
  unfolding store
  length-store [] pos d = refl
  length-store (x ∷ xs) zero [] = refl
  length-store (x ∷ xs) zero (b ∷ d) = ap suc (length-store xs zero d)
  length-store (x ∷ xs) (suc pos) d = ap suc (length-store xs pos d)

  -- A write leaves the ranges in front of it as they were.
  pub slice-store_before :
      (xs : List A) (pos : ℕ) (d : List A) (p n : ℕ)
      → p + n ≤ pos
      → slice (store xs pos d) p n ≡ slice xs p n
  unfolding slice store
  slice-store_before [] pos d p n h = refl
  slice-store_before (x ∷ xs) zero d zero zero h = take_zero (drop 0 (store (x ∷ xs) zero d))
  slice-store_before (x ∷ xs) zero d zero (suc n) h = absurd (omega arith)
  slice-store_before (x ∷ xs) zero d (suc p) n h = absurd (omega arith)
  slice-store_before (x ∷ xs) (suc pos) d zero zero h = refl
  slice-store_before (x ∷ xs) (suc pos) d zero (suc n) h = ap (x ∷◌) (
      sym (take-drop_zero n (store xs pos d))
      ∙ slice-store_before xs pos d zero n (omega arith)
      ∙ take-drop_zero n xs)
  slice-store_before (x ∷ xs) (suc pos) d (suc p) n h =
      slice-store_before xs pos d p n (omega arith)

  -- A write leaves the ranges behind it as they were.
  pub slice-store_after :
      (xs : List A) (pos : ℕ) (d : List A) (p n : ℕ)
      → pos + length d ≤ p
      → slice (store xs pos d) p n ≡ slice xs p n
  unfolding slice store
  slice-store_after [] pos d p n h = refl
  slice-store_after (x ∷ xs) zero [] p n h = refl
  slice-store_after (x ∷ xs) zero (b ∷ d) zero n h = absurd (omega arith)
  slice-store_after (x ∷ xs) zero (b ∷ d) (suc p) n h =
      slice-store_after xs zero d p n (omega arith)
  slice-store_after (x ∷ xs) (suc pos) d zero n h = absurd (omega arith)
  slice-store_after (x ∷ xs) (suc pos) d (suc p) n h = slice-store_after xs pos d p n (omega arith)

  pub slice-store_apart :
      (xs : List A) (pos : ℕ) (d : List A) (p n : ℕ)
      → (p + n ≤ pos) ⊎ (pos + length d ≤ p)
      → slice (store xs pos d) p n ≡ slice xs p n
  slice-store_apart xs pos d p n (inl h) = slice-store_before xs pos d p n h
  slice-store_apart xs pos d p n (inr h) = slice-store_after xs pos d p n h

  -- What was written is read back.
  pub slice-store_self :
      (xs : List A) (pos : ℕ) (d : List A)
      → pos + length d ≤ length xs
      → slice (store xs pos d) pos (length d) ≡ d
  unfolding slice store
  slice-store_self [] pos [] h = refl
  slice-store_self [] pos (b ∷ d) h = absurd (omega arith)
  slice-store_self (x ∷ xs) zero [] h = refl
  slice-store_self (x ∷ xs) zero (b ∷ d) h =
      ap (b ∷◌) (
        sym (take-drop_zero (length d) (store xs zero d))
        ∙ slice-store_self xs zero d (omega arith))
  slice-store_self (x ∷ xs) (suc pos) d h = slice-store_self xs pos d (omega arith)

  pub slice-append_left :
      (xs ys : List A) (p n : ℕ) → p + n ≤ length xs → slice (xs ++ ys) p n ≡ slice xs p n
  unfolding slice
  slice-append_left [] ys zero zero h = ap (take 0) (drop_zero ys) ∙ take_zero ys
  slice-append_left [] ys zero (suc n) h = absurd (omega arith)
  slice-append_left [] ys (suc p) n h = absurd (omega arith)
  slice-append_left (x ∷ xs) ys zero zero h = refl
  slice-append_left (x ∷ xs) ys zero (suc n) h = ap (x ∷◌) (
      sym (take-drop_zero n (xs ++ ys))
      ∙ slice-append_left xs ys zero n (omega arith)
      ∙ take-drop_zero n xs)
  slice-append_left (x ∷ xs) ys (suc p) n h = slice-append_left xs ys p n (omega arith)

  pub length-slice : (xs : List A) (p n : ℕ) → p + n ≤ length xs → length (slice xs p n) ≡ n
  unfolding slice
  length-slice xs p n h = omega (arith, length-take n (drop p xs), length-drop p xs)

  pub get_elem?_of_slice :
      (xs : List A) (pos : ℕ) (x : A) → slice xs pos 1 ≡ x ∷ [] → get_elem? xs pos ≡ some x
  unfolding slice
  get_elem?_of_slice [] pos x h = cc
  get_elem?_of_slice (y ∷ xs) zero x h = cc
  get_elem?_of_slice (y ∷ xs) (suc pos) x h = get_elem?_of_slice xs pos x h

  pub peek-some : (xs : List A) (p n : ℕ) → p + n ≤ length xs → peek xs p n ≡ some (slice xs p n)
  unfolding peek
  peek-some xs p n h = rw (le→leb _ _ h)

  pub poke-some :
      (xs : List A) (p : ℕ) (d : List A)
      → p + length d ≤ length xs
      → poke xs p d ≡ some (store xs p d)
  unfolding poke
  poke-some xs p d h = rw (le→leb _ _ h)
