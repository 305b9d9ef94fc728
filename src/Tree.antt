-- ===== src/Tree.antt =====
-- The methods of core/node.cpp that go to the store: the descent to a key, the split of a node, and
-- the ways to make up for a removed item.
pub mod Shape
pub mod Order
pub mod Search
pub mod Termination
pub mod Update
pub mod Insertion
pub mod SortedInsert
pub mod Split
pub mod SplitSingle
pub mod SplitElsewhere
pub mod Merge
pub mod Rebalance
pub mod InnerRemoval
pub mod InnerSite
pub mod InnerWay
pub mod InnerSearch
pub mod InnerPlacement
pub mod InnerDeletion
pub mod Descent
pub mod Placement
pub mod Presence
pub mod Deletion
pub mod SortedDeletion
pub mod PutBack
pub mod LeafSearch
pub mod Kept
pub mod SplitParts
pub mod WaySplit
use toocal.Prelude.{
  ℕ, zero, suc, ◌+◌, ◌-◌, Bool, true, false, Option, none, some, List, [], ◌∷◌, ◌++◌, length,
  get_elem?, set, take, drop, insert_idx, erase_idx, unsnoc, ◌==◌, leb, ltb, if◌then◌else◌,
}
use toocal.Platform.{Platform}
use toocal.Effects.{M, pure, stuck, ◌>>=◌, ◌>>◌, defined, attempt, or_panic, get}
use toocal.Node.{Item, Node, is_leaf, find_key_in_node, add_item, rotate_right, rotate_left}
use toocal.Dal.{
  Dal, write_node, get_node, delete_node, new_node, get_split_index, can_spare_an_element,
}

-- The index and the node that `find_key` returns: -1 and no node, or an index in a node.
pub data Found : Type 0 where
  missing : Found
  located : ℕ → Node → Found

-- A range that does not begin behind the end; otherwise its use is undefined.
abbrev pub from_index {ℓ} : {A : Type ℓ} → ℕ → List A → Option (List A)
from_index i xs = if leb i (length xs) then some (drop i xs) else none

-- `insert(begin() + i, page)`, or `push_back`
abbrev pub insert_child : ℕ → ℕ → List ℕ → Option (List ℕ)
insert_child i page children =
    if leb i (length children) then some (insert_idx children i page) else none

module _ ⦃p : Platform⦄ where
  -- The recursion goes down one level of the tree for each unit of fuel.
  unfoldable pub find_key_helper : ℕ → List ℕ → Bool → Node → List ℕ → M Dal (Found × List ℕ)
  find_key_helper zero key exact n ancestors = stuck
  find_key_helper (suc fuel) key exact n ancestors =
      let (found, index) = find_key_in_node key n in
      if found
      then pure (located index n, ancestors)
      else if is_leaf n
      then pure ((if exact then missing else located index n), ancestors)
      else do
        child ← defined (get_elem? n.children index)
        next ← get_node child
        find_key_helper fuel key exact next (ancestors ++ (index ∷ []))

  unfoldable pub find_key : ℕ → List ℕ → Bool → Node → M Dal (Found × List ℕ)
  find_key fuel key exact n = find_key_helper fuel key exact n (0 ∷ [])

  -- `_split_when_node_is_leaf` and `_split_when_node_is_not_leaf`: the new right node, and what is
  -- left of the node.
  unfoldable pub split_when_node_is_leaf : Node → ℕ → M Dal (Node × Node)
  split_when_node_is_leaf n split_index = do
    items ← defined (from_index (split_index + 1) n.items)
    right ← new_node items []
    right ← or_panic (write_node right)
    pure (right, record n { items = take split_index n.items })

  unfoldable pub split_when_node_is_not_leaf : Node → ℕ → M Dal (Node × Node)
  split_when_node_is_not_leaf n split_index = do
    items ← defined (from_index (split_index + 1) n.items)
    children ← defined (from_index (split_index + 1) n.children)
    right ← new_node items children
    right ← or_panic (write_node right)
    pure (
      right,
      record n { items = take split_index n.items; children = take (split_index + 1) n.children },
    )

  -- `parent.split(node, index)`: the changed parent.
  unfoldable pub split : Node → Node → ℕ → M Dal Node
  split parent n index = do
    d ← get
    let split_index = get_split_index n d
    middle ← defined (get_elem? n.items split_index)
    (right, left) ←
        (if is_leaf n
          then split_when_node_is_leaf n split_index
          else split_when_node_is_not_leaf n split_index)
    parent ← defined (add_item middle index parent)
    children ← defined (insert_child (index + 1) right.page_num parent.children)
    parent ← or_panic (do
      parent ← write_node (record parent { children = children })
      write_node left
      pure parent)
    pure parent

  unfoldable pub remove_item_from_leaf : ℕ → Node → M Dal (Unit {0})
  remove_item_from_leaf index n = do
    defined (get_elem? n.items index)
    or_panic (write_node (record n { items = erase_idx n.items index }))
    pure tt

  -- The `while` loop: on to the last child until a leaf is reached, with the indices taken.
  unfoldable pub rightmost_leaf : ℕ → Node → List ℕ → M Dal (Node × List ℕ)
  rightmost_leaf zero n affected = stuck
  rightmost_leaf (suc fuel) n affected = if is_leaf n then pure (n, affected) else do
    let index = length n.children - 1
    child ← defined (get_elem? n.children index)
    next ← or_panic (get_node child)
    rightmost_leaf fuel next (affected ++ (index ∷ []))

  -- The error of the last write is dropped: it stands inside `map`.
  unfoldable pub remove_item_from_internal : ℕ → ℕ → Node → M Dal (List ℕ)
  remove_item_from_internal fuel index n = do
    child ← defined (get_elem? n.children index)
    child ← get_node child
    (leaf, affected) ← rightmost_leaf fuel child (index ∷ [])
    defined (get_elem? n.items index)
    (items, before) ← defined (unsnoc leaf.items)
    write_node (record leaf { items = items })
    attempt (write_node (record n { items = set n.items index before }))
    pure affected

  -- `parent.merge(bnode, index)`, which only reaches the store.
  unfoldable pub merge : Node → Node → ℕ → M Dal (Unit {0})
  merge parent bnode index = do
    child ← defined (get_elem? parent.children (index - 1))
    a ← get_node child
    p_item ← defined (get_elem? parent.items (index - 1))
    defined (get_elem? parent.children index)
    let a = record a { items = a.items ++ (p_item ∷ bnode.items) }
    let a = if is_leaf a then a else record a { children = a.children ++ bnode.children }
    write_node a
    write_node (record parent {
      items = erase_idx parent.items (index - 1);
      children = erase_idx parent.children index;
    })
    delete_node bnode.page_num

  -- The two rotations of `rebalance_remove`, with the parent and the unbalanced node after them. An
  -- error of the store ends a rotation unseen.
  unfoldable pub try_rotate_right : Node → Node → ℕ → M Dal (Node × Node)
  try_rotate_right parent unbalanced index = if index == 0 then pure (parent, unbalanced) else do
    child ← defined (get_elem? parent.children (index - 1))
    sibling ← attempt (get_node child)
    d ← get
    elim sibling [
      | none ↦ pure (parent, unbalanced)
      | some left ↦
          if can_spare_an_element left d
          then (do
            r ← defined (rotate_right left parent unbalanced index)
            attempt (write_node r.anode >> write_node r.pnode >> write_node r.bnode)
            pure (r.pnode, r.bnode))
          else pure (parent, unbalanced)
    ]

  unfoldable pub try_rotate_left : Node → Node → ℕ → M Dal (Node × Node)
  try_rotate_left parent unbalanced index =
      if index + 1 == length parent.children then pure (parent, unbalanced) else do
        child ← defined (get_elem? parent.children (index + 1))
        sibling ← attempt (get_node child)
        d ← get
        elim sibling [
          | none ↦ pure (parent, unbalanced)
          | some right ↦
              if can_spare_an_element right d
              then (do
                r ← defined (rotate_left unbalanced parent right index)
                attempt (write_node r.anode >> write_node r.pnode >> write_node r.bnode)
                pure (r.pnode, r.anode))
              else pure (parent, unbalanced)
        ]

  -- Neither rotation returns: a merge always follows.
  unfoldable pub rebalance_remove : Node → Node → ℕ → M Dal (Unit {0})
  rebalance_remove parent unbalanced index = do
    (pnode, unbalanced') ← try_rotate_right parent unbalanced index
    (pnode, unbalanced') ← try_rotate_left pnode unbalanced' index
    if index == 0
        then (do
          child ← defined (get_elem? parent.children (index + 1))
          right ← get_node child
          merge pnode right (index + 1))
        else merge pnode unbalanced' index
