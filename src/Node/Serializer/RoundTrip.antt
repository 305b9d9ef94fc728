-- ===== src/Node/Serializer/RoundTrip.antt =====
-- `Serializer<Node>` of core/node.h: a node that fits a page is read back as it was.
use toocal.Prelude.{
  ℕ, zero, suc, ◌+◌, ◌-◌, ◌*◌, ◌^◌, ◌≤◌, ◌<◌, ◌≡◌, ◌⊎◌, refl, ap, ◌∙◌, false, some, List, [], ◌∷◌,
  ◌++◌, arith, length, take, take_all, replicate, length-replicate, All, slice, store, poke,
  poke-some, length-store, slice-store_apart, slice-store_self, slice-append_left, length-append,
  unsnoc, inl, inr, if◌then◌else◌, u32,
}
use native.Mathlib.Nat.{mod-eq_of_lt, le_refl}
use toocal.Platform.{Platform, encode, length-encode}
use toocal.Node.{Item, Node, is_leaf}
use toocal.Node.Serializer.{serialize, deserialize, write_last_child, read_int_at, read_last_child}
use toocal.Node.Serializer.Cells.{SameOutside, IsShort}
use toocal.Node.Serializer.Items.{
  cells_bytes, write_leaf_items, write_inner_items, SameOutside-trans, SameOutside-weaken,
  store-SameOutside, read_int_at-some,
}

-- The bytes that the page layout takes, for the header, the offsets, the child pages and the cells.
abbrev pub layout_bytes : Node → ℕ
layout_bytes n =
    3 + (if is_leaf n then 2 * length n.items else 10 * length n.items + 8) + cells_bytes n.items

-- What a node needs so that its page can hold it.
pub record IsStorable (buffer_size : ℕ) (n : Node) : Type 0 where
  pub short : All IsShort n.items
  pub pages : All (λ child. child < 256 ^ 8) n.children
  pub shape : (n.children ≡ []) ⊎ (length n.children ≡ length n.items + 1)
  pub fits : layout_bytes n < buffer_size
  pub offsets : buffer_size ≤ 65536

-- The last of `suc n` elements.
unsnoc-take :
    {P : ℕ → Type 0} (n : ℕ) (xs : List ℕ)
    → length xs ≡ suc n
    → All P xs
    → (y : ℕ) × (unsnoc xs ≡ some (take n xs, y)) × (xs ≡ take n xs ++ (y ∷ [])) × P y
unsnoc-take n [] e a = absurd (omega arith)
unsnoc-take zero (x ∷ []) e a = (x, refl, refl, a.0)
unsnoc-take zero (x ∷ (x' ∷ xs)) e a = absurd (omega arith)
unsnoc-take (suc n) (x ∷ xs) e a =
    let (y, last, split, holds) = unsnoc-take n xs (omega arith) a.1 in
    (y, rw last, ap (x ∷◌) split, holds)

append-SameOutside : (b ys : List ℕ) (l r : ℕ) → SameOutside b (b ++ ys) l r
append-SameOutside b ys l r = record {
  no_shorter = omega (arith, length-append b ys);
  below = λ pos n i _. slice-append_left b ys pos n i;
  above = λ pos n i _. slice-append_left b ys pos n i;
}

module _ ⦃p : Platform⦄ where
  -- The pages that `n` is read back from begin with `image`.
  abbrev Reads : ℕ → Node → Type 0
  Reads buffer_size n =
      (image : List ℕ) × (serialize buffer_size n ≡ some image)
      × (length image ≡ buffer_size)
      × ((padding : List ℕ) → deserialize (image ++ padding) ≡ some (record n { page_num = 0 }))

  abbrev header : ℕ → ℕ → ℕ → List ℕ
  header buffer_size leaf count =
      store (store (replicate buffer_size 0) 0 (encode 1 leaf)) 1 (encode 2 count)

  module _ (buffer_size leaf count : ℕ) (small_leaf : leaf < 256) (small_count : count < 65536)
      (inside : 3 ≤ buffer_size) where
    length-header : length (header buffer_size leaf count) ≡ buffer_size
    length-header =
        length-store (store (replicate buffer_size 0) 0 (encode 1 leaf)) 1 (encode 2 count)
        ∙ length-store (replicate buffer_size 0) 0 (encode 1 leaf)
        ∙ length-replicate buffer_size 0

    header_written :
        (poke (replicate buffer_size 0) 0 (encode 1 leaf)
          ≡ some (store (replicate buffer_size 0) 0 (encode 1 leaf)))
        × (poke (store (replicate buffer_size 0) 0 (encode 1 leaf)) 1 (encode 2 count)
            ≡ some (header buffer_size leaf count))
    header_written =
        let l₁ = length-replicate {A = ℕ} buffer_size 0 in
        let l₂ = length-store (replicate buffer_size 0) 0 (encode 1 leaf) in
        (
          poke-some _ _ _ (omega (arith, length-encode 1 leaf)),
          poke-some _ _ _ (omega (arith, length-encode 2 count)),
        )

    header_read :
        {b : List ℕ} {r : ℕ}
        → SameOutside (header buffer_size leaf count) b 3 r
        → (read_int_at 1 b 0 ≡ some leaf) × (read_int_at 2 b 1 ≡ some count)
    header_read {b} s =
        let l₁ = length-replicate {A = ℕ} buffer_size 0 in
        let l₂ = length-store (replicate buffer_size 0) 0 (encode 1 leaf) in
        let l₃ = length-header in
        let n = s.no_shorter in
        let first : slice (store (replicate buffer_size 0) 0 (encode 1 leaf)) 0 1 ≡ encode 1 leaf =
          rw (length-encode 1 leaf) at (
            slice-store_self (replicate buffer_size 0) 0 (encode 1 leaf)
              (omega (arith, length-encode 1 leaf))) in
        let second : slice (header buffer_size leaf count) 1 2 ≡ encode 2 count =
          rw (length-encode 2 count) at (
            slice-store_self (store (replicate buffer_size 0) 0 (encode 1 leaf)) 1 (encode 2 count)
              (omega (arith, length-encode 2 count))) in
        (
          read_int_at-some b 1 0 leaf
              (s.below 0 1 (omega arith) (omega arith)
                ∙ slice-store_apart _ 1 (encode 2 count) 0 1 (inl (omega arith))
                ∙ first)
              small_leaf (omega arith),
          read_int_at-some b 2 1 count (s.below 1 2 (omega arith) (omega arith) ∙ second)
              small_count (omega arith),
        )

  leaf-Reads :
      (buffer_size page : ℕ) (items : List Item)
      → let n : Node = record { page_num = page; items = items; children = [] } in
        IsStorable buffer_size n → Reads buffer_size n
  unfolding serialize deserialize write_last_child read_last_child
  leaf-Reads buffer_size page items s =
      let size = s.fits in
      let small : length items < 65536 = omega (arith, s.offsets) in
      let len = length-header buffer_size 1 (length items) (omega arith) small (omega arith) in
      let w =
        write_leaf_items items [] (header buffer_size 1 (length items)) 3 (buffer_size - 1)
          (3 + 2 * length items) (buffer_size - 1 - cells_bytes items) s.short refl (omega arith)
          (omega arith) (omega arith) (omega (arith, s.offsets)) in
      let wrote = header_written buffer_size 1 (length items) (omega arith) small (omega arith) in
      let right : u32 (u32 buffer_size + 4294967296 - 1) ≡ buffer_size - 1 =
        omega (arith, s.offsets) in
      (
        w.after,
        rw (
          mod-eq_of_lt small,
          take_all (length items) items (le_refl (length items)),
          wrote.0,
          wrote.1,
          right,
          w.written,
        ),
        w.same_length ∙ len,
        λ padding.
            let got = header_read buffer_size 1 (length items) (omega arith) small (omega arith) (
              SameOutside-trans w.outside (append-SameOutside w.after padding 3 (buffer_size - 1))
                (omega arith) (omega arith)) in
            rw (
              got.0,
              got.1,
              w.readable (w.after ++ padding) (append-SameOutside w.after padding _ _),
            ),
      )

  inner-Reads :
      (buffer_size page : ℕ) (items : List Item) (children : List ℕ) (last : ℕ)
      → let n : Node = record { page_num = page; items = items; children = children } in
        length items < length children
        → unsnoc children ≡ some (take (length items) children, last)
        → children ≡ take (length items) children ++ (last ∷ [])
        → last < 256 ^ 8
        → is_leaf n ≡ false
        → IsStorable buffer_size n
        → Reads buffer_size n
  unfolding serialize deserialize write_last_child read_last_child
  inner-Reads buffer_size page items children y shape last split small_last inner s =
      let size = rw inner at s.fits in
      let left : ℕ = 3 + 10 * length items in
      let r : ℕ = buffer_size - 1 - cells_bytes items in
      let small : length items < 65536 = omega (arith, s.offsets) in
      let len = length-header buffer_size 0 (length items) (omega arith) small (omega arith) in
      let w =
        write_inner_items items children (header buffer_size 0 (length items)) 3 (buffer_size - 1)
          left r s.short s.pages (omega arith) refl (omega arith) (omega arith) (omega arith)
          (omega (arith, s.offsets)) in
      let wrote = header_written buffer_size 0 (length items) (omega arith) small (omega arith) in
      let right : u32 (u32 buffer_size + 4294967296 - 1) ≡ buffer_size - 1 =
        omega (arith, s.offsets) in
      let image : List ℕ = store w.after left (encode 8 y) in
      let image_length = length-store w.after left (encode 8 y) in
      let stored : SameOutside w.after image left r =
        SameOutside-weaken (store-SameOutside w.after left (encode 8 y)) (omega arith)
          (omega (arith, length-encode 8 y)) in
      (
        image,
        rw (
          inner,
          mod-eq_of_lt small,
          take_all (length items) items (le_refl (length items)),
          wrote.0,
          wrote.1,
          right,
          w.written,
          last,
          poke-some w.after left (encode 8 y) (omega (arith, length-encode 8 y, w.same_length)),
        ),
        image_length ∙ w.same_length ∙ len,
        λ padding.
            let kept : SameOutside w.after (image ++ padding) left r =
              SameOutside-trans stored (append-SameOutside image padding left r) (omega arith)
                (omega arith) in
            let got =
              header_read buffer_size 0 (length items) (omega arith) small (omega arith)
                (SameOutside-trans w.outside kept (omega arith) (omega arith)) in
            let at_end : slice image left 8 ≡ encode 8 y = rw (length-encode 8 y) at (
              slice-store_self w.after left (encode 8 y)
                (omega (arith, length-encode 8 y, w.same_length))) in
            let last_read =
              read_int_at-some (image ++ padding) 8 left y
                (slice-append_left image padding left 8 (omega (arith, w.same_length)) ∙ at_end)
                small_last (omega (arith, w.same_length, length-append image padding)) in
            rw (got.0, got.1, w.readable (image ++ padding) kept, last_read, ← split),
      )

  -- A node that fits its page, with keys and values of at most 255 bytes, is serialized into a
  -- buffer of the page's size, and is read back with the same items and children from every page
  -- that begins with that buffer; only the page number is not kept.
  pub deserialize-serialize :
      (buffer_size : ℕ) (n : Node)
      → IsStorable buffer_size n
      → (image : List ℕ) × (serialize buffer_size n ≡ some image)
        × (length image ≡ buffer_size)
        × ((padding : List ℕ) → deserialize (image ++ padding) ≡ some (record n { page_num = 0 }))
  deserialize-serialize buffer_size n s = by_children n.page_num n.items n.children s
    where
      by_children :
          (page : ℕ) (items : List Item) (children : List ℕ)
          → IsStorable buffer_size (record { page_num = page; items = items; children = children })
          → Reads buffer_size (record { page_num = page; items = items; children = children })
      by_children page items [] s = leaf-Reads buffer_size page items s
      by_children page items (child ∷ children) s = elim s.shape [
        | inl e ↦ cc
        | inr e ↦
            let (y, last, split, small) =
              unsnoc-take {P = λ c. c < 256 ^ 8} (length items) (child ∷ children) (omega arith)
                s.pages in
            inner-Reads buffer_size page items (child ∷ children) y (omega arith) last split small
              refl s
      ]
