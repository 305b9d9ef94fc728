-- ===== src/Node/Rotation.antt =====
-- The rotations of core/node.cpp keep the order of the items and of the children.
use toocal.Prelude.{
  ℕ, suc, ◌-◌, ◌≡◌, ◌≢◌, refl, sym, ap, ◌∙◌, false, Option, some, List, [], ◌∷◌, ◌++◌, inl, inr,
  length, set, get_elem?, unsnoc, lt_of_get_elem?, unsnoc-some, unsnoc-none, Option-cases, ◌==◌,
  if◌then◌else◌, arith,
}
use mathlib.Core.List.{append_assoc}
use toocal.Node.{
  Item, Node, Rotated, is_last, is_leaf, rotate_right, rotate_left, shift_right, shift_left,
  pop_front,
}

-- The separator of the parent at the index `j` and the items of its two neighbours.
abbrev pub around : Node → Item → Node → List Item
around a separator b = a.items ++ (separator ∷ b.items)

-- `a`, the separator and `b` keep their items and children in order, and the parent changes only in
-- the separator.
pub record IsRotation (a p b : Node) (j : ℕ) (r : Rotated) : Type 0 where
  pub old : Item
  pub new : Item
  pub old_separator : get_elem? p.items j ≡ some old
  pub parent : r.pnode ≡ record p { items = set p.items j new }
  pub items : around r.anode new r.bnode ≡ around a old b
  pub children : r.anode.children ++ r.bnode.children ≡ a.children ++ b.children
  pub pages : (r.anode.page_num ≡ a.page_num) × (r.bnode.page_num ≡ b.page_num)

-- The last child of `before` becomes the first child of `after`, or `before` is a leaf and both keep
-- what they have: the children in front of and behind the cut, before and after.
pub data ChildMovesRight (before after before' after' : List ℕ) : Type 0 where
  no_child_right :
      before ≡ [] → before' ≡ before → after' ≡ after → ChildMovesRight before after before' after'
  child_right :
      (child : ℕ)
      → before ≡ before' ++ (child ∷ [])
      → after' ≡ child ∷ after
      → ChildMovesRight before after before' after'

-- The first child of `after` becomes the last child of `before`, or `after` is a leaf and both keep
-- what they have.
pub data ChildMovesLeft (before after before' after' : List ℕ) : Type 0 where
  no_child_left :
      after ≡ [] → before' ≡ before → after' ≡ after → ChildMovesLeft before after before' after'
  child_left :
      (child : ℕ)
      → after ≡ child ∷ after'
      → before' ≡ before ++ (child ∷ [])
      → ChildMovesLeft before after before' after'

-- One item and, in inner nodes, one child go from `a` to `b`: the last item of `a` becomes the
-- separator, the separator `old` becomes the first item of `b`, and the last child of `a` its first
-- child.
pub record MovesRight (a b : Node) (old new : Item) (r : Rotated) : Type 0 where
  pub from_items : a.items ≡ r.anode.items ++ (new ∷ [])
  pub to_items : r.bnode.items ≡ old ∷ b.items
  pub child : ChildMovesRight a.children b.children r.anode.children r.bnode.children

-- The same from `b` to `a`.
pub record MovesLeft (a b : Node) (old new : Item) (r : Rotated) : Type 0 where
  pub from_items : b.items ≡ new ∷ r.bnode.items
  pub to_items : r.anode.items ≡ a.items ++ (old ∷ [])
  pub child : ChildMovesLeft a.children b.children r.anode.children r.bnode.children

-- One child goes over, or there is none.
record Shifted (Moves : List ℕ → List ℕ → List ℕ → List ℕ → Type 0) (a b : Node)
    (o : Option (Node × Node)) : Type 0 where
  left : Node
  right : Node
  shifted : o ≡ some (left, right)
  children : left.children ++ right.children ≡ a.children ++ b.children
  moves : Moves a.children b.children left.children right.children
  left_rest : (left.items ≡ a.items) × (left.page_num ≡ a.page_num)
  right_rest : (right.items ≡ b.items) × (right.page_num ≡ b.page_num)

unshifted :
    (Moves : List ℕ → List ℕ → List ℕ → List ℕ → Type 0) (a b : Node) (o : Option (Node × Node))
    → Moves a.children b.children a.children b.children
    → o ≡ some (a, b)
    → Shifted Moves a b o
unshifted Moves a b o kept e = record {
  left = a;
  right = b;
  shifted = e;
  children = refl;
  moves = kept;
  left_rest = (refl, refl);
  right_rest = (refl, refl);
}

shift_right-Shifted : (a b : Node) → Shifted ChildMovesRight a b (shift_right a b)
unfolding shift_right
shift_right-Shifted a b = by_children a.children refl
  where
    by_children : (cs : List ℕ) → a.children ≡ cs → Shifted ChildMovesRight a b (shift_right a b)
    by_children [] e =
        unshifted ChildMovesRight a b (shift_right a b) (no_child_right e refl refl)
          (rw (e, shift_right))
    by_children (c ∷ cs) e = elim (Option-cases (unsnoc (c ∷ cs))) [
      | inl n ↦ cc (unsnoc-none (c ∷ cs) n)
      | inr ((front, back), s) ↦
          let inner : is_leaf a ≡ false = rw e refl in
          let last : unsnoc a.children ≡ some (front, back) = rw e s in
          record {
            left = record a { children = front };
            right = record b { children = back ∷ b.children };
            shifted = rw (inner, last);
            children = sym (
                ap (λ xs. xs ++ b.children) (e ∙ unsnoc-some (c ∷ cs) s)
                ∙ append_assoc front (back ∷ []) b.children);
            moves = child_right back (e ∙ unsnoc-some (c ∷ cs) s) refl;
            left_rest = (refl, refl);
            right_rest = (refl, refl);
          }
    ]

shift_left-Shifted : (a b : Node) → Shifted ChildMovesLeft a b (shift_left a b)
unfolding shift_left pop_front
shift_left-Shifted a b = by_children b.children refl
  where
    by_children : (cs : List ℕ) → b.children ≡ cs → Shifted ChildMovesLeft a b (shift_left a b)
    by_children [] e =
        unshifted ChildMovesLeft a b (shift_left a b) (no_child_left e refl refl)
          (rw (e, shift_left))
    by_children (c ∷ cs) e =
        let inner : is_leaf b ≡ false = rw e refl in
        let first : pop_front b.children ≡ some (c, cs) = rw e refl in
        record {
          left = record a { children = a.children ++ (c ∷ []) };
          right = record b { children = cs };
          shifted = rw (inner, first);
          children = rw (append_assoc a.children (c ∷ []) cs, e);
          moves = child_left c e refl;
          left_rest = (refl, refl);
          right_rest = (refl, refl);
        }

-- From a left sibling with items, and with the separator in the parent, rotate_right succeeds: the
-- last item of the sibling becomes the separator, the old separator the first item of the right
-- node, and the last child of the sibling, unless it is a leaf, the first child of the right node.
-- No other item or child moves, so all keep their order, and the page numbers and the parent's
-- other items and its children stay.
pub rotate_right-IsRotation :
    (a p b : Node) (index : ℕ) (separator : Item)
    → a.items ≢ []
    → get_elem? p.items index ≡ some separator
    → (r : Rotated) × (rotate_right a p b (suc index) ≡ some r)
      × (rot : IsRotation a p b index r) × MovesRight a b rot.old rot.new r
unfolding rotate_right
rotate_right-IsRotation a p b index separator some_items found =
    elim (Option-cases (unsnoc a.items)) [
      | inl n ↦ absurd (some_items (unsnoc-none a.items n))
      | inr ((front, moved), s) ↦
          let a' : Node = record a { items = front } in
          let b' : Node = record b { items = separator ∷ b.items } in
          let before : (if suc index == 0 then 0 else suc index - 1) ≡ index = ground arith in
          let t = shift_right-Shifted a' b' in
          (
            record {
              anode = t.left;
              pnode = record p { items = set p.items index moved };
              bnode = t.right;
            },
            rw (s, before, found, t.shifted),
            record {
              old = separator;
              new = moved;
              old_separator = found;
              parent = refl;
              items =
                  rw (t.left_rest.0, t.right_rest.0)
                    (sym (
                      ap (λ xs. xs ++ (separator ∷ b.items)) (unsnoc-some a.items s)
                      ∙ append_assoc front (moved ∷ []) (separator ∷ b.items)));
              children = t.children;
              pages = (t.left_rest.1, t.right_rest.1);
            },
            record {
              from_items =
                  unsnoc-some a.items s ∙ ap (λ xs. xs ++ (moved ∷ [])) (sym t.left_rest.0);
              to_items = t.right_rest.0;
              child = t.moves;
            },
          )
    ]

-- From a right sibling with items, and with the separator in the parent, rotate_left succeeds: the
-- first item of the sibling becomes the separator, the old separator the last item of the left
-- node, and the first child of the sibling, unless it is a leaf, the last child of the left node.
-- No other item or child moves, so all keep their order, and the page numbers and the parent's
-- other items and its children stay.
pub rotate_left-IsRotation :
    (a p b : Node) (index : ℕ) (separator : Item)
    → b.items ≢ []
    → get_elem? p.items index ≡ some separator
    → (r : Rotated) × (rotate_left a p b index ≡ some r)
      × (rot : IsRotation a p b index r) × MovesLeft a b rot.old rot.new r
unfolding rotate_left pop_front
rotate_left-IsRotation a p b index separator some_items found = by_items b.items refl
  where
    by_items :
        (xs : List Item)
        → b.items ≡ xs
        → (r : Rotated) × (rotate_left a p b index ≡ some r)
          × (rot : IsRotation a p b index r) × MovesLeft a b rot.old rot.new r
    by_items [] e = absurd (some_items e)
    by_items (moved ∷ xs) e =
        let a' : Node = record a { items = a.items ++ (separator ∷ []) } in
        let b' : Node = record b { items = xs } in
        let first : pop_front b.items ≡ some (moved, xs) = rw e refl in
        let inside = lt_of_get_elem? p.items index found in
        let at : (if is_last index p then length p.items - 1 else index) ≡ index = ground arith in
        let t = shift_left-Shifted a' b' in
        (
          record {
            anode = t.left;
            pnode = record p { items = set p.items index moved };
            bnode = t.right;
          },
          rw (first, at, found, t.shifted),
          record {
            old = separator;
            new = moved;
            old_separator = found;
            parent = refl;
            items =
                rw (t.left_rest.0, t.right_rest.0)
                  (append_assoc a.items (separator ∷ []) (moved ∷ xs)
                    ∙ ap (λ ys. a.items ++ (separator ∷ ys)) (sym e));
            children = t.children;
            pages = (t.left_rest.1, t.right_rest.1);
          },
          record {
            from_items = e ∙ ap (moved ∷◌) (sym t.right_rest.0);
            to_items = t.left_rest.0;
            child = t.moves;
          },
        )
