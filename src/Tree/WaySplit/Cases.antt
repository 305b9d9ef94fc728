-- ===== src/Tree/WaySplit/Cases.antt =====
-- One step of the way to the node that is split, past a child or into it.
use toocal.Prelude.{
  ℕ, suc, ◌≤◌, List, ◌∷◌, ◌++◌, ◌≡◌, ◌⊎◌, ap, ◌∙◌, arith, inl, inr, ◌==◌, eq→==, Bool-cases, ==→eq,
}
use native.Mathlib.Nat.{suc-add}
use toocal.Platform.{Platform}
use toocal.Utils.{minus, zero_sign, plus, bytescmp}
use toocal.Utils.Order.{Sign-cases}
use toocal.Freelist.Allocation.{count, count-append}
use toocal.Node.{Item, Node}
use toocal.Dal.{Dal}
use toocal.Tree.Kept.{Keeps, HoldsTree-kept}
use toocal.Tree.Shape.{BTree, Branches, leaf, inner, last, branch, page_of, node_of, inorder}
use toocal.Tree.Descent.{path_below, path_branches, path_branches_at}
use toocal.Tree.Placement.{pages, pages_branches}
use toocal.Tree.WaySplit.Way.{
  Taken, in_front, equal-Taken, above-Taken, last-Ends, front-Ends, last-Continues, front-Continues,
}
use toocal.Tree.WaySplit.Steps.{Ends, Continues, Kept}
use toocal.Tree.WaySplit.{Cut, split_branches, split_branches_at, turn, turn_child, turn_at}

module _ (key : List ℕ) (cut : Cut) where
  -- The way goes past the first child.
  module _ (t : BTree) (x : Item) (bs : Branches) (e : bytescmp x.key key ≡ minus) where
    abbrev splits : split_branches key cut (branch t x bs) ≡ branch t x (split_branches key cut bs)
    splits = split_branches_at key cut t x bs minus e

    -- What is kept in all branches is kept in the first child, and in the rest.
    module _ ⦃p : Platform⦄ {d d' : Dal} (u : BTree)
        (among : (q : ℕ) → count q (pages u) ≤ count q (pages_branches bs))
        (kept : Kept key cut d d' u (branch t x bs)) where
      first_kept : ((q : ℕ) → count q (pages_branches (branch t x bs)) ≤ 1) → Keeps d d' (pages t)
      first_kept once q there =
          let split = count-append q (pages t) (pages_branches bs) in
          let all = once q in let part = among q in kept q (omega arith) (omega arith)

      rest-Kept : Kept key cut d d' u bs
      rest-Kept q there =
          kept q (omega (arith, there, count-append q (pages t) (pages_branches bs)))

    once_rest :
        ((q : ℕ) → count q (pages_branches (branch t x bs)) ≤ 1)
        → (q : ℕ) → count q (pages_branches bs) ≤ 1
    once_rest once q = omega (arith, once q, count-append q (pages t) (pages_branches bs))

    past-Ends : Ends key cut bs → Ends key cut (branch t x bs)
    past-Ends end = record {
      position = suc end.position;
      child = end.child;
      is_node = end.is_node;
      path = λ i.
          path_branches_at key i t x bs minus e
          ∙ end.path (suc i)
          ∙ ap (λ j. (j, node_of end.child) ∷ path_below key end.child) (omega arith);
      turns = λ n i.
          turn_at key cut.node n i t x bs minus e
          ∙ end.turns n (suc i)
          ∙ ap (λ j. record { parent = n; index = j; child = end.child }) (omega arith);
      new_items = rw splits (ap (x ∷◌) end.new_items);
      new_pages = rw (splits, suc-add) (ap (page_of t ∷◌) end.new_pages);
      order = λ h. rw splits (ap (λ zs. inorder t ++ (x ∷ zs)) (end.order h));
      level = λ h. rw (splits, end.level h);
      among = λ q. omega (arith, end.among q, count-append q (pages t) (pages_branches bs));
      held = λ d h. end.held d h.1;
      holds = λ d d' left right kept once h. rw splits (
        HoldsTree-kept d d' t (first_kept end.child end.among kept once) h.0,
        end.holds d d' left right (rest-Kept end.child end.among kept) (once_rest once) h.1,
      );
    }

    past-Continues : Continues key cut bs → Continues key cut (branch t x bs)
    past-Continues go = record {
      position = suc go.position;
      number = go.number;
      branches = go.branches;
      other = go.other;
      path = λ i.
          path_branches_at key i t x bs minus e
          ∙ go.path (suc i)
          ∙ ap (λ j. (j, node_of (inner go.number go.branches)) ∷ path_branches key 0 go.branches)
              (omega arith);
      turns = λ n i. turn_at key cut.node n i t x bs minus e ∙ go.turns n (suc i);
      same_items = rw splits (ap (x ∷◌) go.same_items);
      same_pages = rw splits (ap (page_of t ∷◌) go.same_pages);
      order = λ f. rw splits (ap (λ zs. inorder t ++ (x ∷ zs)) (go.order f));
      level = λ f. rw (splits, go.level f);
      lower = omega (arith, go.lower);
      among = λ q. omega (arith, go.among q, count-append q (pages t) (pages_branches bs));
      held = λ d h. go.held d h.1;
      holds = λ d d' new kept once h.
          let u : BTree = inner go.number go.branches in
          rw splits (
            HoldsTree-kept d d' t (first_kept u go.among kept once) h.0,
            go.holds d d' new (rest-Kept u go.among kept) (once_rest once) h.1,
          );
    }

  -- A leaf on the way that is not the node is not where the way comes to it.
  last_cases :
      (t : BTree) (n : Node) (i : ℕ)
      → page_of (turn_child key cut.node n i t).child ≡ cut.node
      → Ends key cut (last t) ⊎ Continues key cut (last t)
  last_cases (leaf q items) n i found = inl (last-Ends key cut (leaf q items) found)
  last_cases (inner q cs) n i found = elim (Bool-cases (q == cut.node)) [
    | inl e ↦ inl (last-Ends key cut (inner q cs) (==→eq q cut.node e))
    | inr e ↦ inr (last-Continues key cut q cs (λ same. let two = eq→== q cut.node same in cc))
  ]

  front_cases :
      (t : BTree) (x : Item) (bs : Branches) (n : Node) (i : ℕ)
      → Taken key cut t (in_front key cut x bs)
      → page_of (turn_child key cut.node n i t).child ≡ cut.node
      → Ends key cut (branch t x bs) ⊎ Continues key cut (branch t x bs)
  front_cases (leaf q items) x bs n i f found = inl (front-Ends key cut (leaf q items) x bs f found)
  front_cases (inner q cs) x bs n i f found = elim (Bool-cases (q == cut.node)) [
    | inl e ↦ inl (front-Ends key cut (inner q cs) x bs f (==→eq q cut.node e))
    | inr e ↦
        inr (front-Continues key cut q cs x bs f (λ same. let two = eq→== q cut.node same in cc))
  ]

  pub way_cases :
      (bs : Branches) (n : Node) (i : ℕ)
      → page_of (turn key cut.node n i bs).child ≡ cut.node
      → Ends key cut bs ⊎ Continues key cut bs
  way_cases (last t) n i found = last_cases t n i found
  way_cases (branch t x bs) n i found = elim (Sign-cases (bytescmp x.key key)) [
    | inl e ↦
        front_cases t x bs n i (equal-Taken key cut t x bs e)
          (rw (turn_at key cut.node n i t x bs zero_sign e) at found)
    | inr (inl e) ↦
        front_cases t x bs n i (above-Taken key cut t x bs e)
          (rw (turn_at key cut.node n i t x bs plus e) at found)
    | inr (inr e) ↦
        elim (way_cases bs n (suc i) (rw (turn_at key cut.node n i t x bs minus e) at found)) [
          | inl end ↦ inl (past-Ends t x bs e end)
          | inr go ↦ inr (past-Continues t x bs e go)
        ]
  ]
