-- ===== src/Tree/InnerRemoval.antt =====
-- `Node::remove_item_from_internal` of core/node.cpp: the item in front of the removed one, in order,
-- takes its place.
use toocal.Prelude.{
  ℕ, zero, suc, ◌+◌, ◌-◌, ◌≤◌, ◌<◌, some, List, [], ◌∷◌, ◌++◌, ◌≡◌, ◌≢◌, refl, sym, ap, ◌∙◌, arith,
  length, get_elem?, set, unsnoc-append,
}
use mathlib.Core.List.{append_assoc, append-nil}
use native.Mathlib.Nat.{le_refl, zero-add}
use toocal.Platform.{Platform, default_page_size}
use toocal.Effects.{ok}
use toocal.Node.{Item, Node}
use toocal.Node.Serializer.RoundTrip.{IsStorable}
use toocal.Dal.{Dal}
use toocal.Dal.Pages.{IsHealthy, CanHold}
use toocal.Dal.Nodes.{HoldsNode, Written, write_numbered, get_node-HoldsNode}
use toocal.Tree.{rightmost_leaf, remove_item_from_internal}
use toocal.Tree.Shape.{
  BTree, Branches, leaf, inner, last, branch, page_of, pages_of, node_of, inorder, inorder_branches,
  HoldsTree, HoldsBranches, HoldsTree-root, height, height_branches,
}
use toocal.Tree.Search.{inner_not_leaf}
use toocal.Tree.Split.{CanHold-after}

abbrev pub last_child : Branches → BTree
last_child (last t) = t
last_child (branch t x bs) = last_child bs

abbrev mutual
  -- The leaf at the right end, and the indices on the way to it.
  pub rightmost : BTree → Node
  rightmost (leaf page items) = node_of (leaf page items)
  rightmost (inner page bs) = rightmost_branches bs

  pub rightmost_branches : Branches → Node
  rightmost_branches (last t) = rightmost t
  rightmost_branches (branch t x bs) = rightmost_branches bs

abbrev mutual
  pub rightmost_indexes : BTree → List ℕ
  rightmost_indexes (leaf page items) = []
  rightmost_indexes (inner page bs) = rightmost_indexes_from 0 bs

  pub rightmost_indexes_from : ℕ → Branches → List ℕ
  rightmost_indexes_from i (last t) = i ∷ rightmost_indexes t
  rightmost_indexes_from i (branch t x bs) = rightmost_indexes_from (suc i) bs

record LastChild (i : ℕ) (bs : Branches) : Type 0 where
  some_child : 0 < length (pages_of bs)
  there : get_elem? (pages_of bs) (length (pages_of bs) - 1) ≡ some (page_of (last_child bs))
  indexes :
      rightmost_indexes_from i bs
      ≡ (i + (length (pages_of bs) - 1)) ∷ rightmost_indexes (last_child bs)
  same_leaf : rightmost_branches bs ≡ rightmost (last_child bs)
  lower : height (last_child bs) ≤ height_branches bs
  holds : ⦃p : Platform⦄ (d : Dal) → HoldsBranches d bs → HoldsTree d (last_child bs)

last_step : (i : ℕ) (bs : Branches) → LastChild i bs
last_step i (last t) = record {
  some_child = omega arith;
  there = refl;
  indexes = ap (λ k. k ∷ rightmost_indexes t) (omega arith);
  same_leaf = refl;
  lower = le_refl (height t);
  holds = λ d h. h;
}
last_step i (branch t x bs) =
    let rest = last_step (suc i) bs in
    let count : suc (length (pages_of bs)) - 1 ≡ suc (length (pages_of bs) - 1) =
      omega (arith, rest.some_child) in
    record {
      some_child = omega arith;
      there = rw count rest.there;
      indexes =
          rest.indexes
          ∙ ap (λ k. k ∷ rightmost_indexes (last_child bs)) (omega (arith, rest.some_child));
      same_leaf = rest.same_leaf;
      lower = omega (arith, rest.lower);
      holds = λ d h. rest.holds d h.1;
    }

mutual
  -- The last item of the leaf at the right end is the last of the tree.
  inorder-rightmost :
      (t : BTree) (items : List Item) (before : Item)
      → (rightmost t).items ≡ items ++ (before ∷ [])
      → (front : List Item) × (inorder t ≡ front ++ (before ∷ []))
  inorder-rightmost (leaf page xs) items before e = (items, e)
  inorder-rightmost (inner page bs) items before e = inorder_branches-rightmost bs items before e

  inorder_branches-rightmost :
      (bs : Branches) (items : List Item) (before : Item)
      → (rightmost_branches bs).items ≡ items ++ (before ∷ [])
      → (front : List Item) × (inorder_branches bs ≡ front ++ (before ∷ []))
  inorder_branches-rightmost (last t) items before e = inorder-rightmost t items before e
  inorder_branches-rightmost (branch t x bs) items before e =
      let (front, split) = inorder_branches-rightmost bs items before e in
      (
        inorder t ++ (x ∷ front),
        ap (λ ys. inorder t ++ (x ∷ ys)) split
            ∙ sym (append_assoc (inorder t) (x ∷ front) (before ∷ [])),
      )

module _ ⦃p : Platform⦄ where
  pub rightmost_leaf-rightmost :
      (d : Dal) (fuel : ℕ) (t : BTree) (affected : List ℕ)
      → IsHealthy d
      → HoldsTree d t
      → height t < fuel
      → rightmost_leaf fuel (node_of t) affected d
        ≡ ok (rightmost t, affected ++ rightmost_indexes t) d
  unfolding rightmost_leaf
  rightmost_leaf-rightmost d zero t affected healthy h lt = absurd (omega arith)
  rightmost_leaf-rightmost d (suc fuel) (leaf page items) affected healthy h lt =
      rw (append-nil affected)
  rightmost_leaf-rightmost d (suc fuel) (inner page bs) affected healthy h lt =
      let s = last_step 0 bs in
      let i : ℕ = length (pages_of bs) - 1 in
      let held = s.holds d h.1 in
      let next =
        get_node-HoldsNode d (page_of (last_child bs)) (node_of (last_child bs)) healthy
          (HoldsTree-root d (last_child bs) held) in
      let rest =
        rightmost_leaf-rightmost d fuel (last_child bs) (affected ++ (i ∷ [])) healthy held
          (omega (arith, s.lower)) in
      rw (
        inner_not_leaf d page bs,
        s.there,
        next,
        rest,
        s.indexes,
        s.same_leaf,
        zero-add,
        append_assoc affected (i ∷ []) (rightmost_indexes (last_child bs)),
      )

  rightmost-HoldsNode :
      (d : Dal) (fuel : ℕ) (t : BTree)
      → HoldsTree d t
      → height t < fuel
      → HoldsNode d (rightmost t).page_num (rightmost t)
  rightmost-HoldsNode d zero t h lt = absurd (omega arith)
  rightmost-HoldsNode d (suc fuel) (leaf page items) h lt = h
  rightmost-HoldsNode d (suc fuel) (inner page bs) h lt =
      let s = last_step 0 bs in
      rw s.same_leaf
        (rightmost-HoldsNode d fuel (last_child bs) (s.holds d h.1) (omega (arith, s.lower)))

  -- What the removal of the item at the index needs: the child in front of it is the root of a tree
  -- whose last leaf ends with the item `before`.
  pub record CanRemove (d : Dal) (n : Node) (index : ℕ) (t : BTree) (items : List Item)
      (before : Item) : Type 0 where
    pub healthy : IsHealthy d
    pub child : get_elem? n.children index ≡ some (page_of t)
    pub holds : HoldsTree d t
    pub present : (old : Item) × (get_elem? n.items index ≡ some old)
    pub leaf_items : (rightmost t).items ≡ items ++ (before ∷ [])
    pub numbered : ((rightmost t).page_num ≢ 0) × (n.page_num ≢ 0)
    pub apart : (rightmost t).page_num ≢ n.page_num
    pub leaf_storable : IsStorable default_page_size (record (rightmost t) { items = items })
    pub node_storable : IsStorable default_page_size (record n { items = set n.items index before })
    pub page_fits : default_page_size ≤ d.page_size
    pub room : CanHold d n.page_num

  -- A removal from an inner node that the pages have room for, with fuel for the tree in front of
  -- the index, whose last leaf has an item, takes the last item of that tree out of its leaf and
  -- puts it in the place of the removed item, returns the way to that leaf, and leaves the nodes of
  -- other pages as they were.
  pub remove_item_from_internal-before :
      (d : Dal) (fuel : ℕ) (n : Node) (index : ℕ) (t : BTree) (items : List Item) (before : Item)
      → CanRemove d n index t items before
      → height t < fuel
      → (d' : Dal) × (remove_item_from_internal fuel index n d
          ≡ ok (index ∷ rightmost_indexes t) d')
        × IsHealthy d'
        × HoldsNode d' (rightmost t).page_num (record (rightmost t) { items = items })
        × HoldsNode d' n.page_num (record n { items = set n.items index before })
        × ((q : ℕ) (m : Node)
            → q ≢ (rightmost t).page_num
            → q ≢ n.page_num
            → HoldsNode d q m
            → HoldsNode d' q m)
        × ((front : List Item) × (inorder t ≡ front ++ (before ∷ [])))
  unfolding remove_item_from_internal
  remove_item_from_internal-before d fuel n index t items before c enough =
      let cut : Node = record (rightmost t) { items = items } in
      let changed : Node = record n { items = set n.items index before } in
      let inside = (rightmost-HoldsNode d fuel t c.holds enough).inside in
      let w : Written d cut =
        write_numbered d c.healthy cut c.leaf_storable c.page_fits (omega (arith, c.healthy.within))
          c.numbered.0 in
      let v : Written w.after changed =
        write_numbered w.after w.healthy changed c.node_storable
          (rw w.rest.same_options c.page_fits) (CanHold-after w n.page_num c.room) c.numbered.1 in
      let root =
        get_node-HoldsNode d (page_of t) (node_of t) c.healthy (HoldsTree-root d t c.holds) in
      let way = rightmost_leaf-rightmost d fuel t (index ∷ []) c.healthy c.holds enough in
      (
        v.after,
        rw (
          c.child,
          root,
          way,
          c.present.1,
          c.leaf_items,
          unsnoc-append items before,
          w.result,
          v.result,
        ),
        v.healthy,
        v.others cut.page_num cut c.apart w.holds,
        v.holds,
        λ q m not_leaf not_node h. v.others q m not_node (w.others q m not_leaf h),
        inorder-rightmost t items before c.leaf_items,
      )
