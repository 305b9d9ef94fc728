-- ===== src/Node/Serializer.antt =====
-- `Serializer<Node>` of core/node.h: slotted pages. Offsets and child pages grow from the left of the
-- buffer, the cells with the keys and values from its right.
pub mod Cells
pub mod Items
pub mod RoundTrip
use toocal.Prelude.{
  ℕ, zero, suc, ◌+◌, ◌-◌, Bool, true, false, Option, none, some, List, [], ◌∷◌, ◌++◌, length, take,
  replicate, get_elem?, unsnoc, peek, poke, ◌==◌, if◌then◌else◌, u8, u16, u32,
}
use toocal.Platform.{Platform, encode, decode}
use toocal.Streams.{◌>>=◌}
use toocal.Node.{Item, Node, is_leaf}

-- The variables of the loop of `serialize`.
pub record Cursor : Type 0 where
  pub left : ℕ
  pub right : ℕ
  pub buffer : List ℕ

-- `right -= n` on a `uint32_t`
abbrev pub back_by : ℕ → ℕ → ℕ
back_by right n = u32 (right + 4294967296 - n)

module _ ⦃p : Platform⦄ where
  -- An inner node has the child page in front of the offset.
  unfoldable pub write_child : Bool → List ℕ → Cursor → Option (Cursor × List ℕ)
  write_child true children c = some (c, children)
  write_child false [] c = none
  write_child false (child ∷ children) c = do
    b ← poke c.buffer c.left (encode 8 child)
    some (record c { left = c.left + 8; buffer = b }, children)

  -- The offset, and the cell: the value, its size, the key, its size, from right to left.
  unfoldable pub write_cell : Item → Cursor → Option Cursor
  write_cell item c = do
    let key_size = u8 (length item.key)
    let value_size = u8 (length item.value)
    let offset = u16 (c.right + 65536 - key_size - value_size - 2)
    b ← poke c.buffer c.left (encode 2 offset)
    let r = back_by c.right value_size
    b ← poke b r (take value_size item.value)
    let r = back_by r 1
    b ← poke b r (value_size ∷ [])
    let r = back_by r key_size
    b ← poke b r (take key_size item.key)
    let r = back_by r 1
    b ← poke b r (key_size ∷ [])
    some (record { left = c.left + 2; right = r; buffer = b })

  unfoldable pub write_items : Bool → List Item → List ℕ → Cursor → Option Cursor
  write_items leaf [] children c = some c
  write_items leaf (item ∷ items) children c = do
    (c, children) ← write_child leaf children c
    c ← write_cell item c
    write_items leaf items children c

  unfoldable pub write_last_child : Node → Cursor → Option (List ℕ)
  write_last_child n c =
      if is_leaf n
      then some c.buffer
      else do (_, last) ← unsnoc n.children; poke c.buffer c.left (encode 8 last)

  unfoldable pub serialize : ℕ → Node → Option (List ℕ)
  serialize buffer_size n = do
    let items_count = u16 (length n.items)
    b ← poke (replicate buffer_size 0) 0 (encode 1 (if is_leaf n then 1 else 0))
    b ← poke b 1 (encode 2 items_count)
    c ←
        write_items (is_leaf n) (take items_count n.items) n.children
          (record { left = 3; right = back_by (u32 buffer_size) 1; buffer = b })
    write_last_child n c

  unfoldable pub read_int_at : ℕ → List ℕ → ℕ → Option ℕ
  read_int_at w buffer pos = do d ← peek buffer pos w; some (decode d)

  unfoldable pub read_cell : List ℕ → ℕ → Option Item
  read_cell buffer offset = do
    key_size ← get_elem? buffer offset
    let offset = u16 (offset + 1)
    key ← peek buffer offset key_size
    let offset = u16 (offset + key_size)
    value_size ← get_elem? buffer offset
    let offset = u16 (offset + 1)
    value ← peek buffer offset value_size
    some (record { key = key; value = value })

  -- The children (of an inner node) and the items, in two lists; and where the offsets end.
  unfoldable pub read_items : Bool → ℕ → List ℕ → ℕ → Option (List Item × List ℕ × ℕ)
  read_items leaf zero buffer left = some ([], [], left)
  read_items true (suc n) buffer left = do
    offset ← read_int_at 2 buffer left
    item ← read_cell buffer offset
    (items, children, left) ← read_items true n buffer (left + 2)
    some (item ∷ items, children, left)
  read_items false (suc n) buffer left = do
    child ← read_int_at 8 buffer left
    offset ← read_int_at 2 buffer (left + 8)
    item ← read_cell buffer offset
    (items, children, left) ← read_items false n buffer (left + 8 + 2)
    some (item ∷ items, child ∷ children, left)

  unfoldable pub read_last_child : Bool → List ℕ → ℕ → List ℕ → Option (List ℕ)
  read_last_child true buffer left children = some children
  read_last_child false buffer left children = do
    last ← read_int_at 8 buffer left
    some (children ++ (last ∷ []))

  unfoldable pub deserialize : List ℕ → Option Node
  unfolding read_int_at read_items read_cell read_last_child
  deserialize buffer = do
    leaf ← read_int_at 1 buffer 0
    items_count ← read_int_at 2 buffer 1
    let is_leaf = if leaf == 0 then false else true
    (items, children, left) ← read_items is_leaf items_count buffer 3
    children ← read_last_child is_leaf buffer left children
    some (record { page_num = 0; items = items; children = children })
