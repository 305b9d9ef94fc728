-- ===== src/Node/Serializer/Items.antt =====
-- The loops over the items of a slotted page (core/node.h): what `write_items` writes is read back
-- from every buffer that agrees with it outside the free space in the middle.
use toocal.Prelude.{
  ℕ, ◌+◌, ◌*◌, ◌^◌, ◌≤◌, ◌<◌, ◌≡◌, refl, ◌∙◌, Bool, true, false, some, List, [], ◌∷◌, arith, length,
  take, All, slice, store, peek-some, poke-some, length-store, slice-store_apart, slice-store_self,
  inl, inr, take_zero,
}
use toocal.Platform.{Platform, encode, length-encode, decode-encode}
use toocal.Node.{Item}
use toocal.Node.Serializer.{write_child, write_items, read_items, read_int_at, read_cell}
use native.Mathlib.Nat.{le_refl}
use toocal.Node.Serializer.Cells.{
  HoldsCell, SameOutside, IsShort, cell_bytes, after_cell, write_cell-some, after_cell-SameOutside,
  after_cell-HoldsCell, read_cell-some, read_offset-some, length-after_cell,
}

abbrev pub cells_bytes : List Item → ℕ
cells_bytes [] = 0
cells_bytes (item ∷ items) = cells_bytes items + cell_bytes item

SameOutside-refl : (b : List ℕ) (l r : ℕ) → SameOutside b b l r
SameOutside-refl b l r = record {
  no_shorter = le_refl (length b);
  below = λ pos n _ h. refl;
  above = λ pos n _ h. refl;
}

pub SameOutside-trans :
    {a b c : List ℕ} {l r l' r' : ℕ}
    → SameOutside a b l r
    → SameOutside b c l' r'
    → l ≤ l'
    → r' ≤ r
    → SameOutside a c l r
SameOutside-trans s t h k = record {
  no_shorter = omega (arith, s.no_shorter, t.no_shorter);
  below =
      λ pos n i e. t.below pos n (omega (arith, s.no_shorter)) (omega arith) ∙ s.below pos n i e;
  above =
      λ pos n i e. t.above pos n (omega (arith, s.no_shorter)) (omega arith) ∙ s.above pos n i e;
}

pub SameOutside-weaken :
    {a b : List ℕ} {l r l' r' : ℕ} → SameOutside a b l r → l' ≤ l → r ≤ r' → SameOutside a b l' r'
SameOutside-weaken s h k = record {
  no_shorter = s.no_shorter;
  below = λ pos n i e. s.below pos n i (omega arith);
  above = λ pos n i e. s.above pos n i (omega arith);
}

pub store-SameOutside :
    (b : List ℕ) (pos : ℕ) (d : List ℕ) → SameOutside b (store b pos d) pos (pos + length d)
store-SameOutside b pos d = record {
  no_shorter = omega (arith, length-store b pos d);
  below = λ p n _ e. slice-store_apart b pos d p n (inl e);
  above = λ p n _ e. slice-store_apart b pos d p n (inr e);
}

module _ ⦃p : Platform⦄ where
  HoldsCell-SameOutside :
      {b c : List ℕ} {left right : ℕ} {item : Item}
      → HoldsCell b left right item
      → SameOutside b c (left + 2) right
      → left + 2 ≤ length b
      → right + cell_bytes item ≤ length b
      → HoldsCell c left right item
  HoldsCell-SameOutside {left} {right} {item} h s i j = record {
    offset = s.below left 2 (omega arith) (omega arith) ∙ h.offset;
    key_size = s.above right 1 (omega arith) (omega arith) ∙ h.key_size;
    key = s.above (right + 1) (length item.key) (omega arith) (omega arith) ∙ h.key;
    value_size = s.above (right + 1 + length item.key) 1 (omega arith) (omega arith) ∙ h.value_size;
    value =
        s.above (right + 1 + length item.key + 1) (length item.value) (omega arith) (omega arith)
        ∙ h.value;
  }

  pub read_int_at-some :
      (b : List ℕ) (w pos v : ℕ)
      → slice b pos w ≡ encode w v
      → v < 256 ^ w
      → pos + w ≤ length b
      → read_int_at w b pos ≡ some v
  unfolding read_int_at
  read_int_at-some b w pos v h small inside =
      rw (peek-some b pos w inside, h, decode-encode w v small)

  -- The result of writing the items between `left` and `right`, which leaves `left'` and `r`.
  pub record Wrote (leaf : Bool) (items : List Item) (children kids : List ℕ) (before : List ℕ)
      (left right left' r : ℕ) : Type 0 where
    pub after : List ℕ
    pub written :
        write_items leaf items children (record { left = left; right = right; buffer = before })
        ≡ some (record { left = left'; right = r; buffer = after })
    pub same_length : length after ≡ length before
    pub outside : SameOutside before after left right
    pub readable :
        (b : List ℕ)
        → SameOutside after b left' r
        → read_items leaf (length items) b left ≡ some (items, kids, left')

  -- Nothing is left to write.
  Wrote-nil :
      (leaf : Bool) (children before : List ℕ) (left right left' r : ℕ)
      → left' ≡ left
      → right ≡ r
      → Wrote leaf [] children [] before left right left' r
  unfolding write_items read_items
  Wrote-nil leaf children before left right left' r e₁ e₂ = record {
    after = before;
    written = rw (e₁, e₂);
    same_length = refl;
    outside = SameOutside-refl before left right;
    readable = λ b h. rw e₁;
  }

  -- A cell that was written at `left`, and is still there in `b`, is read as the item.
  module _ (item : Item) (left q : ℕ) (before : List ℕ) (short : IsShort item) (room : left + 2 ≤ q)
      (inside : q + cell_bytes item ≤ length before) (small : q + cell_bytes item < 65536) where
    cell_still_there :
        {b : List ℕ}
        → SameOutside (after_cell item left q before) b (left + 2) q
        → (read_int_at 2 b left ≡ some q) × (read_cell b q ≡ some item)
    cell_still_there {b} s =
        let len = length-after_cell item left q before short room inside small in
        let n = s.no_shorter in
        let holds =
          HoldsCell-SameOutside (after_cell-HoldsCell item left q before short room inside small) s
            (omega arith) (omega arith) in
        (
          read_offset-some b left q item holds (omega arith) (omega arith),
          read_cell-some b left q item holds (omega arith) small,
        )

    Wrote-leaf_cons :
        {items : List Item} {children : List ℕ} {left' r : ℕ}
        → left + 2 ≤ left'
        → r ≤ q
        → Wrote true items children [] (after_cell item left q before) (left + 2) q left' r
        → Wrote true (item ∷ items) children [] before left (q + cell_bytes item) left' r
    unfolding write_items write_child read_items
    Wrote-leaf_cons {left'} {r} h k rest = record {
      after = rest.after;
      written = rw (write_cell-some item left q before short room inside small, rest.written);
      same_length = rest.same_length ∙ length-after_cell item left q before short room inside small;
      outside =
          SameOutside-trans (after_cell-SameOutside item left q before short room inside small)
            rest.outside (omega arith) (omega arith);
      readable = λ b same.
          let (offset, cell) = cell_still_there {b = b} (SameOutside-trans rest.outside same h k) in
          rw (offset, cell, rest.readable b same);
    }

  pub write_leaf_items :
      (items : List Item) (children before : List ℕ) (left right left' r : ℕ)
      → All IsShort items
      → left' ≡ left + 2 * length items
      → left' ≤ r
      → right ≡ r + cells_bytes items
      → right ≤ length before
      → right < 65536
      → Wrote true items children [] before left right left' r
  write_leaf_items [] children before left right left' r s e₁ room e₂ inside small =
      Wrote-nil true children before left right left' r (omega arith) (omega arith)
  write_leaf_items (item ∷ items) children before left right left' r s e₁ room e₂ inside small =
      let q : ℕ = r + cells_bytes items in
      let e : right ≡ q + cell_bytes item = omega arith in
      let len =
        length-after_cell item left q before s.0 (omega arith) (omega arith) (omega arith) in
      rw e (
        Wrote-leaf_cons item left q before s.0 (omega arith) (omega arith) (omega arith)
          (omega arith) (omega arith)
          (write_leaf_items items children (after_cell item left q before) (left + 2) q left' r s.1
            (omega arith) room refl (omega arith) (omega arith)))

  module _ (item : Item) (child left q : ℕ) (before : List ℕ) (short : IsShort item)
      (small_child : child < 256 ^ 8) (room : left + 8 + 2 ≤ q)
      (inside : q + cell_bytes item ≤ length before) (small : q + cell_bytes item < 65536) where
    abbrev after_child : List ℕ
    after_child = store before left (encode 8 child)

    child-SameOutside : SameOutside before after_child left (left + 8)
    child-SameOutside =
        SameOutside-weaken (store-SameOutside before left (encode 8 child)) (omega arith)
          (omega (arith, length-encode 8 child))

    Wrote-inner_cons :
        {items : List Item} {children kids : List ℕ} {left' r : ℕ}
        → left + 8 + 2 ≤ left'
        → r ≤ q
        → Wrote false items children kids
            (after_cell item (left + 8) q after_child)
            (left + 8 + 2)
            q
            left'
            r
        → Wrote false
            (item ∷ items)
            (child ∷ children)
            (child ∷ kids)
            before
            left
            (q + cell_bytes item)
            left'
            r
    unfolding write_items write_child read_items
    Wrote-inner_cons {left'} {r} h k rest =
        let inside' : q + cell_bytes item ≤ length after_child =
          omega (arith, child-SameOutside.no_shorter) in
        let cell_outside =
          after_cell-SameOutside item (left + 8) q after_child short room inside' small in
        let child_there : slice after_child left 8 ≡ encode 8 child =
          rw (length-encode 8 child) at (
            slice-store_self before left (encode 8 child) (omega (arith, length-encode 8 child))) in
        record {
          after = rest.after;
          written = rw (
            poke-some before left (encode 8 child) (omega (arith, length-encode 8 child)),
            write_cell-some item (left + 8) q after_child short room inside' small,
            rest.written,
          );
          same_length =
              rest.same_length
              ∙ length-after_cell item (left + 8) q after_child short room inside' small
              ∙ length-store before left (encode 8 child);
          outside =
              SameOutside-trans
                (SameOutside-trans
                  (SameOutside-weaken child-SameOutside (omega arith) (omega arith)) cell_outside
                  (omega arith) (le_refl (q + cell_bytes item)))
                rest.outside (omega arith) (omega arith);
          readable = λ b same.
              let still = SameOutside-trans rest.outside same h k in
              let (offset, cell) =
                cell_still_there item (left + 8) q after_child short room inside' small {b = b}
                  still in
              let first =
                read_int_at-some b 8 left child
                  (still.below left 8 (omega (arith, cell_outside.no_shorter)) (omega arith)
                    ∙ cell_outside.below left 8 (omega arith) (omega arith)
                    ∙ child_there)
                  small_child (omega (arith, still.no_shorter, cell_outside.no_shorter)) in
              rw (first, offset, cell, rest.readable b same);
        }

  pub write_inner_items :
      (items : List Item) (children before : List ℕ) (left right left' r : ℕ)
      → All IsShort items
      → All (λ child. child < 256 ^ 8) children
      → length items ≤ length children
      → left' ≡ left + 10 * length items
      → left' ≤ r
      → right ≡ r + cells_bytes items
      → right ≤ length before
      → right < 65536
      → Wrote false items children (take (length items) children) before left right left' r
  write_inner_items [] children before left right left' r s c n e₁ room e₂ inside small =
      rw (take_zero children)
        (Wrote-nil false children before left right left' r (omega arith) (omega arith))
  write_inner_items (item ∷ items) [] before left right left' r s c n e₁ room e₂ inside small =
      absurd (omega arith)
  write_inner_items (item ∷ items) (child ∷ children) before left right left' r s c n e₁ room e₂
        inside small =
      let q : ℕ = r + cells_bytes items in
      let e : right ≡ q + cell_bytes item = omega arith in
      let len₁ = length-store before left (encode 8 child) in
      let len =
        length-after_cell item (left + 8) q (store before left (encode 8 child)) s.0 (omega arith)
          (omega arith) (omega arith) in
      rw e (
        Wrote-inner_cons item child left q before s.0 c.0 (omega arith) (omega arith) (omega arith)
          (omega arith) (omega arith)
          (write_inner_items items children
            (after_cell item (left + 8) q (store before left (encode 8 child))) (left + 8 + 2) q
            left' r s.1 c.1 (omega arith) (omega arith) room refl (omega arith) (omega arith)))
