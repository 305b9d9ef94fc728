-- ===== src/Node/Insertion.antt =====
-- `Node::add_item` of core/node.cpp at an index up to the number of items.
use toocal.Prelude.{ℕ, ◌≤◌, some, ◌≡◌, arith, length, insert_idx, insert_idx-length}
use toocal.Node.{Item, Node, add_item}

-- Both branches insert.
pub add_item-insert_idx :
    (item : Item) (index : ℕ) (n : Node)
    → index ≤ length n.items
    → add_item item index n ≡ some (record n { items = insert_idx n.items index item })
unfolding add_item
add_item-insert_idx item index n h = ground (arith, insert_idx-length n.items item)
