-- ===== src/Dal/Pages.antt =====
-- `write_page` and `read_page` of core/data_access_layer.cpp on a stream that has not failed.
use toocal.Prelude.{
  ℕ, ◌+◌, ◌-◌, ◌*◌, ◌≤◌, ◌<◌, ◌≡◌, ◌≢◌, ◌⊎◌, sym, ap, ◌∙◌, true, false, some, List, arith, length,
  replicate, length-replicate, length-append, store, slice, length-store, slice-store_self,
  slice-store_apart, slice-append_left, ltb, le→leb, lt→ltb, inl, inr, Bool-cases, ltb→le, ltb→lt,
}
use native.Mathlib.Nat.{mod-eq_of_lt}
use toocal.Effects.{ok}
use toocal.Dal.{Dal, write_page, read_page}
use toocal.Dal.Fstream.{File, extend}
use toocal.Dal.Fstream

-- The stream is open and has not failed, and its offsets fit an `int64_t`.
pub record IsHealthy (d : Dal) : Type 0 where
  pub opened : d.file.is_open ≡ true
  pub sound : d.file.failed ≡ false
  pub within : length d.file.bytes ≤ d.file.capacity
  pub addressable : d.file.capacity < 9223372036854775808

abbrev pub start_of : Dal → ℕ → ℕ
start_of d page_num = page_num * d.page_size

-- The whole page lies inside the file, or inside what the file may grow to.
abbrev pub IsInside : Dal → ℕ → Type 0
IsInside d page_num = start_of d page_num + d.page_size ≤ length d.file.bytes

abbrev pub CanHold : Dal → ℕ → Type 0
CanHold d page_num = start_of d page_num + d.page_size ≤ d.file.capacity

abbrev pub page_bytes : Dal → ℕ → List ℕ
page_bytes d page_num = slice d.file.bytes (start_of d page_num) d.page_size

-- The store with other bytes at a page.
abbrev pub with_page : Dal → ℕ → List ℕ → Dal
with_page d page_num bytes = record d {
  file = record d.file {
    bytes =
        store (extend d.file.bytes (start_of d page_num + length bytes)) (start_of d page_num)
          bytes;
  };
}

length-extend :
    (xs : List ℕ) (n : ℕ)
    → (length xs ≤ length (extend xs n))
      × (n ≤ length (extend xs n))
      × ((m : ℕ) → length xs ≤ m → n ≤ m → length (extend xs n) ≤ m)
unfolding extend
length-extend xs n =
    let l₁ = length-append xs (replicate (n - length xs) 0) in
    let l₂ = length-replicate {A = ℕ} (n - length xs) 0 in
    (omega arith, omega arith, λ m h k. omega arith)

pub seek-ok :
    (pos : ℕ) (f : File)
    → f.is_open ≡ true
    → f.failed ≡ false
    → pos < 9223372036854775808
    → Fstream.seek pos f ≡ (true, f)
unfolding Fstream.seek
seek-ok pos f o s h = simp (o, s, lt→ltb pos 9223372036854775808 h)

read-ok :
    (pos n : ℕ) (f : File)
    → pos + n ≤ length f.bytes
    → Fstream.read pos n f ≡ (some (slice f.bytes pos n), f)
unfolding Fstream.read
read-ok pos n f h = simp (le→leb _ _ h)

pages_apart :
    (q p size n : ℕ) → n ≡ size → q ≢ p → (q * size + size ≤ p * size) ⊎ (p * size + n ≤ q * size)
pages_apart q p size n e ne = elim (Bool-cases (ltb q p)) [
  | inl less ↦ inl (grind (arith, ltb→lt q p less))
  | inr more ↦ inr (grind (arith, ltb→le q p more))
]

module _ (d : Dal) (h : IsHealthy d) (page_num : ℕ) where
  pub write_page-ok :
      (bytes : List ℕ)
      → start_of d page_num + length bytes ≤ d.file.capacity
      → write_page (record { page_num = page_num; bytes = bytes }) d
        ≡ ok tt (with_page d page_num bytes)
  unfolding write_page Fstream.write
  write_page-ok bytes fits =
      let small : start_of d page_num < 18446744073709551616 = omega (arith, h.addressable) in
      rw (
        mod-eq_of_lt small,
        seek-ok (start_of d page_num) d.file h.opened h.sound (omega (arith, h.addressable)),
        le→leb _ _ fits,
      )

  pub read_page-ok :
      IsInside d page_num
      → read_page page_num d ≡ ok (record { page_num = page_num; bytes = page_bytes d page_num }) d
  unfolding read_page
  read_page-ok inside =
      let small : start_of d page_num < 18446744073709551616 =
        omega (arith, h.addressable, h.within) in
      simp (
        mod-eq_of_lt small,
        seek-ok (start_of d page_num) d.file h.opened h.sound
            (omega (arith, h.addressable, h.within)),
        read-ok (start_of d page_num) d.page_size d.file inside,
      )

  -- A write of a page that the file may grow to keeps the stream healthy.
  pub with_page-IsHealthy :
      (bytes : List ℕ)
      → start_of d page_num + length bytes ≤ d.file.capacity
      → IsHealthy (with_page d page_num bytes)
  with_page-IsHealthy bytes fits =
      let e = length-extend d.file.bytes (start_of d page_num + length bytes) in
      let l =
        length-store (extend d.file.bytes (start_of d page_num + length bytes))
          (start_of d page_num) bytes in
      record {
        opened = h.opened;
        sound = h.sound;
        within = omega (arith, e.2 d.file.capacity h.within fits);
        addressable = h.addressable;
      }

module _ (d : Dal) (page_num : ℕ) (bytes : List ℕ) (full : length bytes ≡ d.page_size) where
  pub with_page-IsInside : IsInside (with_page d page_num bytes) page_num
  with_page-IsInside =
      let e = length-extend d.file.bytes (start_of d page_num + length bytes) in
      let l =
        length-store (extend d.file.bytes (start_of d page_num + length bytes))
          (start_of d page_num) bytes in
      omega arith

  -- The page that was written reads as written.
  pub page_bytes-with_page_self : page_bytes (with_page d page_num bytes) page_num ≡ bytes
  page_bytes-with_page_self =
      let e = length-extend d.file.bytes (start_of d page_num + length bytes) in
      ap
        (slice
          (store (extend d.file.bytes (start_of d page_num + length bytes)) (start_of d page_num)
            bytes)
          (start_of d page_num))
        (sym full)
      ∙ slice-store_self (extend d.file.bytes (start_of d page_num + length bytes))
          (start_of d page_num) bytes (omega arith)

  pub with_page-IsInside_mono : (q : ℕ) → IsInside d q → IsInside (with_page d page_num bytes) q
  with_page-IsInside_mono q inside =
      let e = length-extend d.file.bytes (start_of d page_num + length bytes) in
      let l =
        length-store (extend d.file.bytes (start_of d page_num + length bytes))
          (start_of d page_num) bytes in
      omega arith

  -- The other pages are as they were.
  pub page_bytes-with_page_ne :
      (q : ℕ)
      → q ≢ page_num
      → IsInside d q
      → page_bytes (with_page d page_num bytes) q ≡ page_bytes d q
  unfolding extend
  page_bytes-with_page_ne q ne inside =
      slice-store_apart (extend d.file.bytes (start_of d page_num + length bytes))
        (start_of d page_num) bytes (start_of d q) d.page_size
        (pages_apart q page_num d.page_size (length bytes) full ne)
      ∙ slice-append_left d.file.bytes
          (replicate (start_of d page_num + length bytes - length d.file.bytes) 0) (start_of d q)
          d.page_size inside
