-- ===== src/Tree/SplitElsewhere.antt =====
-- What `Node::split` of core/node.cpp needs of the store: its options, its free list and what its file
-- may grow to, but none of the bytes of the file.
use toocal.Prelude.{ℕ, suc, ◌+◌, u32, List, [], ◌∷◌, ◌≡◌, refl}
use toocal.Platform.{Platform}
use toocal.Node.{Item, Node, item_size}
use toocal.Dal.{Dal, get_split_index, split_index_from}
use toocal.Dal.Pages.{IsHealthy}
use toocal.Tree.Split.{CanSplit}

split_index_from-options :
    (d d' : Dal) (total i : ℕ) (items : List Item)
    → d'.options ≡ d.options
    → split_index_from d' total i items ≡ split_index_from d total i items
unfolding split_index_from
split_index_from-options d d' total i [] e = refl
split_index_from-options d d' total i (item ∷ items) e = rw (
  split_index_from,
  split_index_from-options d d' (u32 (total + item_size item)) (suc i) items e,
  e,
)

module _ ⦃p : Platform⦄ where
  pub CanSplit-elsewhere :
      {d d' : Dal} {parent n : Node} {index r : ℕ} {middle : Item}
      → IsHealthy d'
      → d'.options ≡ d.options
      → d'.file.capacity ≡ d.file.capacity
      → d'.freelist ≡ d.freelist
      → CanSplit d parent n index r middle
      → CanSplit d' parent n index r middle
  unfolding get_split_index
  CanSplit-elsewhere {d} {d'} {parent} {n} healthy options capacity freelist s = record {
    healthy = healthy;
    split_at = rw (split_index_from-options d d' _ 0 n.items options) s.split_at;
    middle_item = s.middle_item;
    shape = s.shape;
    parent_item = s.parent_item;
    parent_child = s.parent_child;
    numbered = rw freelist s.numbered;
    fresh = rw freelist s.fresh;
    left_storable = s.left_storable;
    right_storable = rw freelist s.right_storable;
    parent_storable = rw freelist s.parent_storable;
    page_fits = rw options s.page_fits;
    room = rw (freelist, options, capacity) s.room;
  }
