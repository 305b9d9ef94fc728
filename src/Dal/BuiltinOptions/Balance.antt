-- ===== src/Dal/BuiltinOptions/Balance.antt =====
-- The page layout of core/node.h under the options BALANCE of core/data_access_layer.h.
use toocal.Prelude.{
  ℕ, zero, suc, ◌+◌, ◌*◌, ◌^◌, ◌≤◌, ◌<◌, false, List, [], ◌∷◌, ◌≡◌, ◌⊎◌, refl, All, arith, inl,
  length, insert_idx, ltb→le, u32,
}
use mathlib.Core.List.{foldl}
use toocal.Platform.{Platform, default_page_size}
use toocal.Node
use toocal.Node.{Item, Node, item_bytes, is_leaf}
use toocal.Node.Serializer.Cells.{IsShort, cell_bytes}
use toocal.Node.Serializer.Items.{cells_bytes}
use toocal.Node.Serializer.RoundTrip.{IsStorable, layout_bytes}
use toocal.Dal.{Dal, is_over_populated}
use toocal.Dal.BuiltinOptions.{balance}

-- An item as the store is used with: a key that is not empty, and sizes that fit a byte.
pub record IsKeyed (item : Item) : Type 0 where
  pub some_key : 0 < length item.key
  pub short : IsShort item

All-IsShort : (items : List Item) → All IsKeyed items → All IsShort items
All-IsShort [] a = tt
All-IsShort (item ∷ items) a = (a.0.short, All-IsShort items a.1)

-- The sum of `Node::size` and the cells, which have two more bytes for an item.
size-cells_bytes :
    (total : ℕ) (items : List Item)
    → All IsKeyed items
    → total + 510 * length items < 4294967296
    → foldl (λ total item. u32 (total + item_bytes item)) total items + 2 * length items
      ≡ total + cells_bytes items
size-cells_bytes total [] a h = omega arith
size-cells_bytes total (item ∷ items) a h =
    let k = a.0.short.short_key in
    let v = a.0.short.short_value in
    let rest =
      size-cells_bytes (total + (length item.key + length item.value)) items a.1 (omega arith) in
    let same : u32 (total + item_bytes item) ≡ total + (length item.key + length item.value) =
      omega arith in
    rw same (omega (arith, rest))

cells_bytes-keyed : (items : List Item) → All IsKeyed items → 3 * length items ≤ cells_bytes items
cells_bytes-keyed [] a = omega arith
cells_bytes-keyed (item ∷ items) a = omega (arith, cells_bytes-keyed items a.1, a.0.some_key)

cells_bytes-insert_idx :
    (items : List Item) (index : ℕ) (item : Item)
    → index ≤ length items
    → (cells_bytes (insert_idx items index item) ≡ cells_bytes items + cell_bytes item)
      × (length (insert_idx items index item) ≡ suc (length items))
cells_bytes-insert_idx items zero item h = (refl, refl)
cells_bytes-insert_idx [] (suc index) item h = absurd (omega arith)
cells_bytes-insert_idx (x ∷ items) (suc index) item h =
    let (c, l) = cells_bytes-insert_idx items index item (omega arith) in (omega arith, omega arith)

All-insert_idx :
    (P : Item → Type 0) (items : List Item) (index : ℕ) (item : Item)
    → P item
    → All P items
    → All P (insert_idx items index item)
All-insert_idx P items zero item h a = (h, a)
All-insert_idx P [] (suc index) item h a = tt
All-insert_idx P (x ∷ items) (suc index) item h a = (a.0, All-insert_idx P items index item h a.1)

module _ ⦃p : Platform⦄ (d : Dal) (n : Node) where
  -- At most 91 bytes of keys and values.
  calm_bytes :
      d.options ≡ balance
      → default_page_size ≡ 4096
      → All IsKeyed n.items
      → length n.items < 65536
      → is_over_populated n d ≡ false
      → cells_bytes n.items ≤ 91 + 2 * length n.items
  unfolding Node.size
  calm_bytes o page keyed count calm =
      let bound = ltb→le _ _ (rw (o, page) at calm) in
      omega (arith, size-cells_bytes 11 n.items keyed (omega arith))

  -- Under the options BALANCE on pages of 4096 bytes, a node that is not over-populated, whose items
  -- have keys and fit their sizes into bytes, fits its page; and a leaf of the kind fits with one
  -- more item at any index, which is what a `put` writes.
  pub balance-IsStorable :
      d.options ≡ balance
      → default_page_size ≡ 4096
      → All IsKeyed n.items
      → length n.items < 65536
      → All (λ child. child < 256 ^ 8) n.children
      → (n.children ≡ []) ⊎ (length n.children ≡ length n.items + 1)
      → is_over_populated n d ≡ false
      → IsStorable default_page_size n
        × ((item : Item) (index : ℕ)
            → n.children ≡ []
            → IsKeyed item
            → index ≤ length n.items
            → IsStorable default_page_size (record n { items = insert_idx n.items index item }))
  balance-IsStorable o page keyed count pages shape calm =
      let few = calm_bytes o page keyed count calm in
      let many = cells_bytes-keyed n.items keyed in
      (
        record {
          short = All-IsShort n.items keyed;
          pages = pages;
          shape = shape;
          fits = ground (arith);
          offsets = omega arith;
        },
        λ item index tip item_keyed within.
            let (cells, len) = cells_bytes-insert_idx n.items index item within in
            let k = item_keyed.short.short_key in
            let v = item_keyed.short.short_value in
            let bytes : layout_bytes (record n { items = insert_idx n.items index item })
                ≡ 3
                  + 2 * length (insert_idx n.items index item)
                  + cells_bytes (insert_idx n.items index item) =
              rw tip refl in
            record {
              short =
                  All-insert_idx IsShort n.items index item item_keyed.short
                    (All-IsShort n.items keyed);
              pages = pages;
              shape = inl tip;
              fits = omega (arith, bytes);
              offsets = omega arith;
            },
      )
