-- ===== src/Node/Serializer/Cells.antt =====
-- One cell of a slotted page (core/node.h): what `write_cell` writes, and that `read_cell` reads it.
use toocal.Prelude.{
  ℕ, ◌+◌, ◌-◌, ◌≤◌, ◌<◌, ◌≡◌, ◌∙◌, some, List, [], ◌∷◌, arith, length, take_all, slice, store,
  peek-some, poke-some, length-store, slice-store_apart, slice-store_self, get_elem?_of_slice, ◌⊎◌,
  inl, inr, u16, u32,
}
use toocal.Platform.{Platform, encode, length-encode, decode-encode}
use toocal.Node.{Item}
use toocal.Node.Serializer.{write_cell, read_cell, read_int_at}
use native.Mathlib.Nat.{mod-eq_of_lt, le_refl}

-- `offset`, and the four parts of the cell at `right`.
pub record HoldsCell ⦃p : Platform⦄ (b : List ℕ) (left right : ℕ) (item : Item) : Type 0 where
  pub offset : slice b left 2 ≡ encode 2 right
  pub key_size : slice b right 1 ≡ length item.key ∷ []
  pub key : slice b (right + 1) (length item.key) ≡ item.key
  pub value_size : slice b (right + 1 + length item.key) 1 ≡ length item.value ∷ []
  pub value : slice b (right + 1 + length item.key + 1) (length item.value) ≡ item.value

-- `b'` is no shorter than `b`, and has the ranges of `b` in front of `left` and behind `right`.
pub record SameOutside (b b' : List ℕ) (left right : ℕ) : Type 0 where
  pub no_shorter : length b ≤ length b'
  pub below : (pos n : ℕ) → pos + n ≤ length b → pos + n ≤ left → slice b' pos n ≡ slice b pos n
  pub above : (pos n : ℕ) → pos + n ≤ length b → right ≤ pos → slice b' pos n ≡ slice b pos n

-- The two sizes are kept in a byte each.
pub record IsShort (item : Item) : Type 0 where
  pub short_key : length item.key < 256
  pub short_value : length item.value < 256

abbrev pub cell_bytes : Item → ℕ
cell_bytes item = length item.key + length item.value + 2

module _ ⦃p : Platform⦄ (item : Item) (left r : ℕ) (buffer : List ℕ) where
  abbrev after_offset : List ℕ
  after_offset = store buffer left (encode 2 r)

  abbrev after_value : List ℕ
  after_value = store after_offset (r + 1 + length item.key + 1) item.value

  abbrev after_value_size : List ℕ
  after_value_size = store after_value (r + 1 + length item.key) (length item.value ∷ [])

  abbrev after_key : List ℕ
  after_key = store after_value_size (r + 1) item.key

  abbrev pub after_cell : List ℕ
  after_cell = store after_key r (length item.key ∷ [])

  module _ (short : IsShort item) (room : left + 2 ≤ r)
      (inside : r + cell_bytes item ≤ length buffer) (small : r + cell_bytes item < 65536) where
    pub write_cell-some :
        write_cell item (record { left = left; right = r + cell_bytes item; buffer = buffer })
        ≡ some (record { left = left + 2; right = r; buffer = after_cell })
    unfolding write_cell
    write_cell-some =
        let k = mod-eq_of_lt short.short_key in
        let v = mod-eq_of_lt short.short_value in
        let o : u16 (r + cell_bytes item + 65536 - length item.key - length item.value - 2) ≡ r =
          omega arith in
        let e₁ : u32 (r + cell_bytes item + 4294967296 - length item.value)
            ≡ r + 1 + length item.key + 1 =
          omega arith in
        let e₂ : u32 (r + 1 + length item.key + 1 + 4294967296 - 1) ≡ r + 1 + length item.key =
          omega arith in
        let e₃ : u32 (r + 1 + length item.key + 4294967296 - length item.key) ≡ r + 1 =
          omega arith in
        let e₄ : u32 (r + 1 + 4294967296 - 1) ≡ r = omega arith in
        let l₁ = length-store buffer left (encode 2 r) in
        let l₂ = length-store after_offset (r + 1 + length item.key + 1) item.value in
        let l₃ = length-store after_value (r + 1 + length item.key) (length item.value ∷ []) in
        let l₄ = length-store after_value_size (r + 1) item.key in
        rw (
          k,
          v,
          o,
          e₁,
          e₂,
          e₃,
          e₄,
          take_all (length item.key) item.key (le_refl (length item.key)),
          take_all (length item.value) item.value (le_refl (length item.value)),
          poke-some buffer left (encode 2 r) (omega (arith, length-encode 2 r)),
          poke-some after_offset (r + 1 + length item.key + 1) item.value (omega arith),
          poke-some after_value (r + 1 + length item.key) (length item.value ∷ []) (omega arith),
          poke-some after_value_size (r + 1) item.key (omega arith),
          poke-some after_key r (length item.key ∷ []) (omega arith),
        )

    keep_offset :
        (pos n : ℕ)
        → (pos + n ≤ left) ⊎ (left + 2 ≤ pos)
        → slice after_offset pos n ≡ slice buffer pos n
    keep_offset pos n h =
        slice-store_apart buffer left (encode 2 r) pos n (omega (arith, length-encode 2 r))

    keep_value :
        (pos n : ℕ)
        → (pos + n ≤ r + 1 + length item.key + 1) ⊎ (r + cell_bytes item ≤ pos)
        → slice after_value pos n ≡ slice after_offset pos n
    keep_value pos n h =
        slice-store_apart after_offset (r + 1 + length item.key + 1) item.value pos n (omega arith)

    keep_value_size :
        (pos n : ℕ)
        → (pos + n ≤ r + 1 + length item.key) ⊎ (r + 1 + length item.key + 1 ≤ pos)
        → slice after_value_size pos n ≡ slice after_value pos n
    keep_value_size pos n h =
        slice-store_apart after_value (r + 1 + length item.key) (length item.value ∷ []) pos n
          (omega arith)

    keep_key :
        (pos n : ℕ)
        → (pos + n ≤ r + 1) ⊎ (r + 1 + length item.key ≤ pos)
        → slice after_key pos n ≡ slice after_value_size pos n
    keep_key pos n h = slice-store_apart after_value_size (r + 1) item.key pos n h

    keep_key_size :
        (pos n : ℕ) → (pos + n ≤ r) ⊎ (r + 1 ≤ pos) → slice after_cell pos n ≡ slice after_key pos n
    keep_key_size pos n h = slice-store_apart after_key r (length item.key ∷ []) pos n (omega arith)

    keep_all :
        (pos n : ℕ)
        → (pos + n ≤ left) ⊎ (r + cell_bytes item ≤ pos)
        → slice after_cell pos n ≡ slice buffer pos n
    keep_all pos n h =
        keep_key_size pos n (omega arith)
        ∙ keep_key pos n (omega arith)
        ∙ keep_value_size pos n (omega arith)
        ∙ keep_value pos n (omega arith)
        ∙ keep_offset pos n (omega arith)

    pub length-after_cell : length after_cell ≡ length buffer
    length-after_cell =
        length-store after_key r (length item.key ∷ [])
        ∙ length-store after_value_size (r + 1) item.key
        ∙ length-store after_value (r + 1 + length item.key) (length item.value ∷ [])
        ∙ length-store after_offset (r + 1 + length item.key + 1) item.value
        ∙ length-store buffer left (encode 2 r)

    pub after_cell-SameOutside : SameOutside buffer after_cell left (r + cell_bytes item)
    after_cell-SameOutside = record {
      no_shorter = omega (arith, length-after_cell);
      below = λ pos n _ h. keep_all pos n (inl h);
      above = λ pos n _ h. keep_all pos n (inr h);
    }

    pub after_cell-HoldsCell : HoldsCell after_cell left r item
    after_cell-HoldsCell = record {
      offset =
          keep_key_size left 2 (omega arith)
          ∙ keep_key left 2 (omega arith)
          ∙ keep_value_size left 2 (omega arith)
          ∙ keep_value left 2 (omega arith)
          ∙ (rw (length-encode 2 r) at
              (slice-store_self buffer left (encode 2 r) (omega (arith, length-encode 2 r))));
      key_size = slice-store_self after_key r (length item.key ∷ []) (omega (arith, l₄));
      key =
          keep_key_size (r + 1) (length item.key) (omega arith)
          ∙ slice-store_self after_value_size (r + 1) item.key (omega (arith, l₃));
      value_size =
          keep_key_size (r + 1 + length item.key) 1 (omega arith)
          ∙ keep_key (r + 1 + length item.key) 1 (omega arith)
          ∙ slice-store_self after_value (r + 1 + length item.key) (length item.value ∷ [])
              (omega (arith, l₂));
      value =
          keep_key_size (r + 1 + length item.key + 1) (length item.value) (omega arith)
          ∙ keep_key (r + 1 + length item.key + 1) (length item.value) (omega arith)
          ∙ keep_value_size (r + 1 + length item.key + 1) (length item.value) (omega arith)
          ∙ slice-store_self after_offset (r + 1 + length item.key + 1) item.value
              (omega (arith, l₁));
    }
      where
        l₁ : length after_offset ≡ length buffer
        l₁ = length-store buffer left (encode 2 r)

        l₂ : length after_value ≡ length buffer
        l₂ = length-store after_offset (r + 1 + length item.key + 1) item.value ∙ l₁

        l₃ : length after_value_size ≡ length buffer
        l₃ = length-store after_value (r + 1 + length item.key) (length item.value ∷ []) ∙ l₂

        l₄ : length after_key ≡ length buffer
        l₄ = length-store after_value_size (r + 1) item.key ∙ l₃

module _ ⦃p : Platform⦄ (b : List ℕ) (left right : ℕ) (item : Item) where
  -- The cell that the offset points to is read back.
  pub read_cell-some :
      HoldsCell b left right item
      → right + cell_bytes item ≤ length b
      → right + cell_bytes item < 65536
      → read_cell b right ≡ some item
  unfolding read_cell
  read_cell-some h inside small =
      let e₁ : u16 (right + 1) ≡ right + 1 = omega arith in
      let e₂ : u16 (right + 1 + length item.key) ≡ right + 1 + length item.key = omega arith in
      let e₃ : u16 (right + 1 + length item.key + 1) ≡ right + 1 + length item.key + 1 =
        omega arith in
      rw (
        get_elem?_of_slice b right (length item.key) h.key_size,
        e₁,
        peek-some b (right + 1) (length item.key) (omega arith),
        h.key,
        e₂,
        get_elem?_of_slice b (right + 1 + length item.key) (length item.value) h.value_size,
        e₃,
        peek-some b (right + 1 + length item.key + 1) (length item.value) (omega arith),
        h.value,
      )

  pub read_offset-some :
      HoldsCell b left right item
      → left + 2 ≤ length b
      → right < 65536
      → read_int_at 2 b left ≡ some right
  unfolding read_int_at
  read_offset-some h inside small =
      rw (peek-some b left 2 inside, h.offset, decode-encode 2 right small)
