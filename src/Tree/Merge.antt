-- ===== src/Tree/Merge.antt =====
-- `Node::merge` of core/node.cpp: a node takes over its right sibling.
use toocal.Prelude.{
  ℕ, suc, ◌-◌, ◌≤◌, true, some, List, [], ◌∷◌, ◌++◌, ◌≡◌, ◌≢◌, refl, ap, ◌∙◌, arith, inl, inr,
  get_elem?, erase_idx, if◌then◌else◌, Bool-cases,
}
use mathlib.Core.List.{append-nil}
use toocal.Platform.{Platform, default_page_size}
use toocal.Effects.{ok}
use toocal.Freelist.{release_page}
use toocal.Node.{Item, Node, is_leaf}
use toocal.Node.Serializer.RoundTrip.{IsStorable}
use toocal.Dal.{Dal, delete_node}
use toocal.Dal.Pages.{IsHealthy, CanHold}
use toocal.Dal.Nodes.{HoldsNode, Written, write_numbered, get_node-HoldsNode}
use toocal.Tree.{merge}
use toocal.Tree.Split.{CanHold-after}

-- The left node with the separator and the right node behind it.
abbrev pub joined : Node → Item → Node → Node
joined a separator b = record a {
  items = a.items ++ (separator ∷ b.items);
  children = a.children ++ b.children;
}

-- The parent without the separator and without the right node.
abbrev pub shrunk : ℕ → Node → Node
shrunk j parent = record parent {
  items = erase_idx parent.items j;
  children = erase_idx parent.children (suc j);
}

leaf_children : (n : Node) → is_leaf n ≡ true → n.children ≡ []
leaf_children n = by_children n.children
  where
    by_children : (cs : List ℕ) → is_leaf (record n { children = cs }) ≡ true → cs ≡ []
    by_children [] e = refl
    by_children (c ∷ cs) e = cc

module _ ⦃p : Platform⦄ where
  -- What `parent.merge(b, j + 1)` needs to succeed: the nodes `a` and `b` are the children of the
  -- parent around the separator, and of one kind.
  pub record CanMerge (d : Dal) (parent a b : Node) (j : ℕ) (separator : Item) : Type 0 where
    pub healthy : IsHealthy d
    pub left_child : get_elem? parent.children j ≡ some a.page_num
    pub right_child : get_elem? parent.children (suc j) ≡ some b.page_num
    pub between : get_elem? parent.items j ≡ some separator
    pub held : HoldsNode d a.page_num a
    pub same_kind : a.children ≡ [] → b.children ≡ []
    pub numbered : (a.page_num ≢ 0) × (parent.page_num ≢ 0)
    pub apart : a.page_num ≢ parent.page_num
    pub left_storable : IsStorable default_page_size (joined a separator b)
    pub parent_storable : IsStorable default_page_size (shrunk j parent)
    pub page_fits : default_page_size ≤ d.page_size
    pub room : CanHold d parent.page_num

  module _ {d : Dal} {parent a b : Node} {j : ℕ} {separator : Item}
      (m : CanMerge d parent a b j separator) where
    joined_written : Written d (joined a separator b)
    joined_written =
        write_numbered d m.healthy (joined a separator b) m.left_storable m.page_fits
          (omega (arith, m.held.inside, m.healthy.within)) m.numbered.0

    shrunk_written : Written joined_written.after (shrunk j parent)
    shrunk_written =
        write_numbered joined_written.after joined_written.healthy (shrunk j parent)
          m.parent_storable (rw joined_written.rest.same_options m.page_fits)
          (CanHold-after joined_written parent.page_num m.room) m.numbered.1

    -- The node that `merge` builds, with a test of the kind.
    built :
        (let n : Node = record a { items = a.items ++ (separator ∷ b.items) } in
          if is_leaf n then n else record n { children = n.children ++ b.children })
        ≡ joined a separator b
    built = elim (Bool-cases (is_leaf a)) [
      | inl tip ↦
          let none_left = leaf_children a tip in
          rw (tip, m.same_kind none_left, append-nil a.children)
      | inr inner ↦ rw inner
    ]

    -- A merge puts the separator and the items and children of the right node behind those of the
    -- left, takes the separator and the right node out of the parent, and releases the page of the
    -- right node; the nodes of other pages stay as they were.
    pub merge-joined :
        (d' : Dal) × (merge parent b (suc j) d ≡ ok tt d')
        × IsHealthy d'
        × HoldsNode d' a.page_num (joined a separator b)
        × HoldsNode d' parent.page_num (shrunk j parent)
        × ((q : ℕ) (n : Node)
            → q ≢ a.page_num
            → q ≢ parent.page_num
            → HoldsNode d q n
            → HoldsNode d' q n)
        × (d'.freelist ≡ release_page b.page_num d.freelist)
    unfolding merge delete_node
    merge-joined =
        let before : suc j - 1 ≡ j = omega arith in
        let h = shrunk_written.healthy in
        let left =
          shrunk_written.others a.page_num (joined a separator b) m.apart joined_written.holds in
        let up = shrunk_written.holds in
        let same_freelist = shrunk_written.rest.same_freelist ∙ joined_written.rest.same_freelist in
        (
          record shrunk_written.after {
            freelist = release_page b.page_num shrunk_written.after.freelist;
          },
          rw (
            before,
            m.left_child,
            get_node-HoldsNode d a.page_num a m.healthy m.held,
            m.between,
            m.right_child,
            built,
            joined_written.result,
            shrunk_written.result,
          ),
          record {
            opened = h.opened;
            sound = h.sound;
            within = h.within;
            addressable = h.addressable;
          },
          record { inside = left.inside; decoded = left.decoded; number = left.number },
          record { inside = up.inside; decoded = up.decoded; number = up.number },
          λ q n not_left not_parent k.
              let k' =
                shrunk_written.others q n not_parent (joined_written.others q n not_left k) in
              record { inside = k'.inside; decoded = k'.decoded; number = k'.number },
          ap (release_page b.page_num) same_freelist,
        )
