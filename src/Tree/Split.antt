-- ===== src/Tree/Split.antt =====
-- `Node::split` of core/node.cpp: a node gives its upper half to a new node on a fresh page.
use toocal.Prelude.{
  ℕ, zero, suc, ◌+◌, ◌≤◌, ◌<◌, true, false, some, List, [], ◌∷◌, ◌++◌, ◌≡◌, ◌≢◌, ◌⊎◌, refl, sym, ap,
  ◌∙◌, arith, inl, inr, length, get_elem?, take, drop, insert_idx, if◌then◌else◌, leb, le→leb,
  lt_of_get_elem?,
}
use native.Mathlib.Nat.{suc-add}
use toocal.Platform.{Platform, default_page_size}
use toocal.Effects.{ok}
use toocal.Freelist.{get_next_page}
use toocal.Node.{Item, Node, is_leaf}
use toocal.Node.Insertion.{add_item-insert_idx}
use toocal.Node.Serializer.RoundTrip.{IsStorable}
use toocal.Dal.{Dal, new_node, get_split_index}
use toocal.Dal.Pages.{IsHealthy, CanHold}
use toocal.Dal.Nodes.{HoldsNode, Written, write_numbered}
use toocal.Tree.{split, split_when_node_is_leaf, split_when_node_is_not_leaf}

abbrev pub left_half : ℕ → Node → Node
left_half r n = record n { items = take r n.items; children = take (r + 1) n.children }

abbrev pub right_half : ℕ → ℕ → Node → Node
right_half r page n = record {
  page_num = page;
  items = drop (r + 1) n.items;
  children = drop (r + 1) n.children;
}

-- The parent with the middle item, and with the new page behind the page of the node.
abbrev pub grown : ℕ → Item → ℕ → Node → Node
grown index middle page parent = record parent {
  items = insert_idx parent.items index middle;
  children = insert_idx parent.children (index + 1) page;
}

module _ {A : Type 0} where
  take-append-drop : (n : ℕ) (xs : List A) → take n xs ++ drop n xs ≡ xs
  take-append-drop n [] = refl
  take-append-drop zero (x ∷ xs) = refl
  take-append-drop (suc n) (x ∷ xs) = ap (x ∷◌) (take-append-drop n xs)

  pub take-append-middle :
      (n : ℕ) (xs : List A) (x : A)
      → get_elem? xs n ≡ some x
      → take n xs ++ (x ∷ drop (n + 1) xs) ≡ xs
  take-append-middle n [] x e = cc
  take-append-middle zero (y ∷ []) x e = cc
  take-append-middle zero (y ∷ (z ∷ xs)) x e = cc
  take-append-middle (suc n) (y ∷ xs) x e = rw suc-add (ap (y ∷◌) (take-append-middle n xs x e))

module _ ⦃p : Platform⦄ where
  pub HoldsNode-same : {d : Dal} {q : ℕ} {m n : Node} → m ≡ n → HoldsNode d q m → HoldsNode d q n
  HoldsNode-same e h = rw (← e) h

  pub CanHold-after :
      {d : Dal} {n : Node} (w : Written d n) (q : ℕ) → CanHold d q → CanHold w.after q
  CanHold-after w q h = rw (w.rest.same_options, w.rest.same_capacity) h

  -- What `parent.split(n, index)` needs to succeed, with `middle` at the split index `r`.
  pub record CanSplit (d : Dal) (parent n : Node) (index r : ℕ) (middle : Item) : Type 0 where
    pub healthy : IsHealthy d
    pub split_at : get_split_index n d ≡ r
    pub middle_item : get_elem? n.items r ≡ some middle
    pub shape : (n.children ≡ []) ⊎ (length n.children ≡ length n.items + 1)
    pub parent_item : index ≤ length parent.items
    pub parent_child : index < length parent.children
    pub numbered : ((get_next_page d.freelist).0 ≢ 0) × (parent.page_num ≢ 0) × (n.page_num ≢ 0)
    pub fresh :
        ((get_next_page d.freelist).0 ≢ parent.page_num)
        × ((get_next_page d.freelist).0 ≢ n.page_num)
        × (parent.page_num ≢ n.page_num)
    pub left_storable : IsStorable default_page_size (left_half r n)
    pub right_storable : IsStorable default_page_size (right_half r (get_next_page d.freelist).0 n)
    pub parent_storable :
        IsStorable default_page_size (grown index middle (get_next_page d.freelist).0 parent)
    pub page_fits : default_page_size ≤ d.page_size
    pub room :
        CanHold d (get_next_page d.freelist).0 × CanHold d parent.page_num × CanHold d n.page_num

  -- The outcome of a split: the two halves and the parent stand on their pages.
  pub record SplitDone (d : Dal) (parent n : Node) (index r : ℕ) (middle : Item) : Type 0 where
    pub after : Dal
    pub result :
        split parent n index d ≡ ok (grown index middle (get_next_page d.freelist).0 parent) after
    pub healthy : IsHealthy after
    pub left : HoldsNode after n.page_num (left_half r n)
    pub right :
        HoldsNode after (get_next_page d.freelist).0 (right_half r (get_next_page d.freelist).0 n)
    pub up :
        HoldsNode after parent.page_num (grown index middle (get_next_page d.freelist).0 parent)
    pub others :
        (q : ℕ) (m : Node)
        → q ≢ n.page_num
        → q ≢ (get_next_page d.freelist).0
        → q ≢ parent.page_num
        → HoldsNode d q m
        → HoldsNode after q m
    pub same_options : after.options ≡ d.options
    pub same_capacity : after.file.capacity ≡ d.file.capacity
    pub same_freelist : after.freelist ≡ (get_next_page d.freelist).1

  module _ {d : Dal} {parent n : Node} {index r : ℕ} {middle : Item}
      (s : CanSplit d parent n index r middle) where
    abbrev page : ℕ
    page = (get_next_page d.freelist).0

    abbrev taken : Dal
    taken = record d { freelist = (get_next_page d.freelist).1 }

    right_written : Written taken (right_half r page n)
    right_written =
        write_numbered taken
          (record {
            opened = s.healthy.opened;
            sound = s.healthy.sound;
            within = s.healthy.within;
            addressable = s.healthy.addressable;
          })
          (right_half r page n) s.right_storable s.page_fits s.room.0 s.numbered.0

    parent_written : Written right_written.after (grown index middle page parent)
    parent_written =
        write_numbered right_written.after right_written.healthy (grown index middle page parent)
          s.parent_storable (rw right_written.rest.same_options s.page_fits)
          (CanHold-after right_written parent.page_num s.room.1) s.numbered.1

    left_written : Written parent_written.after (left_half r n)
    left_written =
        write_numbered parent_written.after parent_written.healthy (left_half r n) s.left_storable
          (rw (parent_written.rest.same_options, right_written.rest.same_options) s.page_fits)
          (CanHold-after parent_written n.page_num
            (CanHold-after right_written n.page_num s.room.2))
          s.numbered.2

    -- The two halves, in front of the writes of the parent and of the left half.
    halves :
        (if is_leaf n then split_when_node_is_leaf n r else split_when_node_is_not_leaf n r) d
        ≡ ok (right_half r page n, left_half r n) right_written.after
    unfolding split_when_node_is_leaf split_when_node_is_not_leaf new_node
    halves = elim s.shape [
      | inl e ↦
          let tip : is_leaf n ≡ true = rw e refl in
          let no_children : right_half r page n
              ≡ record { page_num = page; items = drop (r + 1) n.items; children = [] } =
            ap
              (λ cs. record {
                page_num = page;
                items = drop (r + 1) n.items;
                children = drop (r + 1) cs;
              })
              e in
          let same_children : take (r + 1) n.children ≡ n.children = ap (take (r + 1)) e ∙ sym e in
          rw (tip, in_items, ← no_children, right_written.result, same_children)
      | inr e ↦
          let branching : is_leaf n ≡ false = not_leaf n.children (omega arith) in
          let in_children : leb (r + 1) (length n.children) ≡ true =
            le→leb (r + 1) (length n.children) (omega (arith, inside)) in
          rw (branching, in_items, in_children, right_written.result)
    ]
      where
        inside : r < length n.items
        inside = lt_of_get_elem? n.items r s.middle_item

        in_items : leb (r + 1) (length n.items) ≡ true
        in_items = le→leb (r + 1) (length n.items) (omega (arith, inside))

        not_leaf :
            (children : List ℕ)
            → 0 < length children
            → is_leaf (record n { children = children }) ≡ false
        not_leaf [] lt = absurd (omega arith)
        not_leaf (c ∷ cs) lt = refl

    pub split_done : SplitDone d parent n index r middle
    unfolding split
    split_done = record {
      after = left_written.after;
      result = rw (
        s.split_at,
        s.middle_item,
        halves,
        add_item-insert_idx middle index parent s.parent_item,
        le→leb (index + 1) (length parent.children) (omega (arith, s.parent_child)),
        parent_written.result,
        left_written.result,
      );
      healthy = left_written.healthy;
      left = left_written.holds;
      right =
          left_written.others page (right_half r page n) s.fresh.1
            (parent_written.others page (right_half r page n) s.fresh.0 right_written.holds);
      up =
          left_written.others parent.page_num (grown index middle page parent) s.fresh.2
            parent_written.holds;
      others = λ q m not_left not_right not_parent h. left_written.others q m not_left (
          parent_written.others q m not_parent (
            right_written.others q m not_right
              (record { inside = h.inside; decoded = h.decoded; number = h.number })));
      same_options =
          left_written.rest.same_options ∙ parent_written.rest.same_options
          ∙ right_written.rest.same_options;
      same_capacity =
          left_written.rest.same_capacity ∙ parent_written.rest.same_capacity
          ∙ right_written.rest.same_capacity;
      same_freelist =
          left_written.rest.same_freelist ∙ parent_written.rest.same_freelist
          ∙ right_written.rest.same_freelist;
    }

    -- A split of a node that has a split index, with room in the pages for the halves and the
    -- parent, gives the items and children behind the split index to a node on a fresh page and the
    -- item at the index to the parent; all three nodes stand on their pages, the nodes of other
    -- pages as before, and no item or child is lost or moved past another.
    pub split-halves :
        (d' : Dal) × (split parent n index d ≡ ok (grown index middle page parent) d')
        × IsHealthy d'
        × HoldsNode d' n.page_num (left_half r n)
        × HoldsNode d' page (right_half r page n)
        × HoldsNode d' parent.page_num (grown index middle page parent)
        × ((q : ℕ) (m : Node)
            → q ≢ n.page_num
            → q ≢ page
            → q ≢ parent.page_num
            → HoldsNode d q m
            → HoldsNode d' q m)
        × (take r n.items ++ (middle ∷ drop (r + 1) n.items) ≡ n.items)
        × (take (r + 1) n.children ++ drop (r + 1) n.children ≡ n.children)
        × (d'.freelist ≡ (get_next_page d.freelist).1)
    split-halves =
        let done = split_done in
        (
          done.after,
          done.result,
          done.healthy,
          done.left,
          done.right,
          done.up,
          done.others,
          take-append-middle r n.items middle s.middle_item,
          take-append-drop (r + 1) n.children,
          done.same_freelist,
        )
