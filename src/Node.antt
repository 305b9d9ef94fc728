-- ===== src/Node.antt =====
-- core/node.h, core/node.cpp: items and nodes in memory. `back()`, `front()` and `operator[]` of an
-- empty or too short container are undefined: `none`. A node's `dal` pointer is not kept: every
-- node that is asked for its store belongs to the one store there is.
pub mod Serializer
pub mod Rotation
pub mod Insertion
use toocal.Prelude.{
  ℕ, suc, ◌+◌, ◌-◌, Bool, true, false, Option, none, some, List, [], ◌∷◌, ◌++◌, length, get_elem?,
  set, insert_idx, unsnoc, ◌==◌, leb, if◌then◌else◌, u32,
}
use mathlib.Core.List.{foldl}
use toocal.Utils.{minus, zero_sign, plus, bytescmp}
use toocal.Streams.{◌>>=◌}

pub record Item : Type 0 where
  pub key : List ℕ
  pub value : List ℕ

pub record Node : Type 0 where
  pub page_num : ℕ
  pub items : List Item
  pub children : List ℕ

abbrev pub header_size : ℕ
header_size = 3

abbrev pub is_empty {ℓ} : {A : Type ℓ} → List A → Bool
is_empty [] = true
is_empty (x ∷ xs) = false

abbrev pub is_leaf : Node → Bool
is_leaf n = is_empty n.children

abbrev pub is_first : ℕ → Bool
is_first index = index == 0

abbrev pub is_last : ℕ → Node → Bool
is_last index parent = index == length parent.items

-- `Item::size`
abbrev pub item_bytes : Item → ℕ
item_bytes item = u32 (length item.key + length item.value)

-- `Node::item_size`, of the item at the index
abbrev pub item_size : Item → ℕ
item_size item = u32 (length item.key + length item.value + 8)

-- `Node::size`
unfoldable pub size : Node → ℕ
size n = foldl (λ total item. u32 (total + item_bytes item)) (header_size + 8) n.items

-- The loop of `find_key_in_node`, at the index of the first item left.
unfoldable pub find_key_from : List ℕ → ℕ → List Item → Bool × ℕ
find_key_from key index [] = (false, index)
find_key_from key index (item ∷ items) = elim (bytescmp item.key key) [
  | zero_sign ↦ (true, index)
  | plus ↦ (false, index)
  | minus ↦ find_key_from key (suc index) items
]

unfoldable pub find_key_in_node : List ℕ → Node → Bool × ℕ
unfolding find_key_from
find_key_in_node key n = find_key_from key 0 n.items

unfoldable pub add_item : Item → ℕ → Node → Option Node
add_item item index n =
    if length n.items == index
    then some (record n { items = n.items ++ (item ∷ []) })
    else if leb index (length n.items)
    then some (record n { items = insert_idx n.items index item })
    else none

-- The three nodes that a rotation changes.
pub record Rotated : Type 0 where
  pub anode : Node
  pub pnode : Node
  pub bnode : Node

-- The last child of `a` becomes the first child of `b`, unless `a` is a leaf.
shift_right : Node → Node → Option (Node × Node)
shift_right a b = if is_leaf a then some (a, b) else do
  (children, child) ← unsnoc a.children
  some (record a { children = children }, record b { children = child ∷ b.children })

unfoldable pub rotate_right : Node → Node → Node → ℕ → Option Rotated
unfolding shift_right
rotate_right a p b b_index = do
  (a_items, a_item) ← unsnoc a.items
  let p_index = if is_first b_index then 0 else b_index - 1
  p_item ← get_elem? p.items p_index
  (a', b') ← shift_right (record a { items = a_items }) (record b { items = p_item ∷ b.items })
  some (record { anode = a'; pnode = record p { items = set p.items p_index a_item }; bnode = b' })

pop_front {ℓ} : {A : Type ℓ} → List A → Option (A × List A)
pop_front [] = none
pop_front (x ∷ xs) = some (x, xs)

-- The first child of `b` becomes the last child of `a`, unless `b` is a leaf.
shift_left : Node → Node → Option (Node × Node)
unfolding pop_front
shift_left a b = if is_leaf b then some (a, b) else do
  (child, children) ← pop_front b.children
  some (record a { children = a.children ++ (child ∷ []) }, record b { children = children })

unfoldable pub rotate_left : Node → Node → Node → ℕ → Option Rotated
unfolding pop_front shift_left
rotate_left a p b b_index = do
  (b_item, b_items) ← pop_front b.items
  let p_index = if is_last b_index p then length p.items - 1 else b_index
  p_item ← get_elem? p.items p_index
  (a', b') ←
      shift_left (record a { items = a.items ++ (p_item ∷ []) }) (record b { items = b_items })
  some (record { anode = a'; pnode = record p { items = set p.items p_index b_item }; bnode = b' })
