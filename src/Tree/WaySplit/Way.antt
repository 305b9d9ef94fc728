-- ===== src/Tree/WaySplit/Way.antt =====
-- One step of the way to the node that is split: the node is a child, or the way goes on.
use toocal.Prelude.{
  ℕ, suc, ◌+◌, ◌≤◌, List, [], ◌∷◌, ◌++◌, ◌≡◌, ◌≢◌, refl, sym, ap, ◌∙◌, arith, insert_idx, ne→==,
  eq→==,
}
use mathlib.Core.List.{append_assoc}
use toocal.Platform.{Platform}
use toocal.Utils.{zero_sign, plus, bytescmp}
use toocal.Freelist.Allocation.{count, count-append}
use toocal.Node.{Item, Node}
use toocal.Dal.{Dal}
use toocal.Tree.Kept.{Keeps, HoldsBranches-kept}
use toocal.Tree.Shape.{
  BTree, Branches, leaf, inner, last, branch, page_of, pages_of, node_of, inorder, inorder_branches,
}
use toocal.Tree.SplitParts.{left_part, right_part, inorder-parts, height-parts}
use toocal.Tree.Descent.{path_below, path_branches, path_branches_at}
use toocal.Tree.Placement.{pages, pages_branches}
use toocal.Tree.WaySplit.Steps.{Ends, Continues, Kept}
use toocal.Tree.WaySplit.{
  Cut, split_branches, split_child, split_branches_at, turn, turn_child, turn_at, halves,
}

module _ (key : List ℕ) (cut : Cut) where
  -- The way takes a child, in front of other branches or as the last.
  pub record Taken (t : BTree) (rest : BTree → Branches) : Type 0 where
    pub splits : split_branches key cut (rest t) ≡ split_child key cut t rest
    pub paths : (i : ℕ) → path_branches key i (rest t) ≡ (i, node_of t) ∷ path_below key t
    pub turning :
        (n : Node) (i : ℕ) → turn key cut.node n i (rest t) ≡ turn_child key cut.node n i t

  abbrev pub in_front : Item → Branches → BTree → Branches
  in_front x bs t = branch t x bs

  last-Taken : (t : BTree) → Taken t last
  last-Taken t = record { splits = refl; paths = λ i. refl; turning = λ n i. refl }

  pub equal-Taken :
      (t : BTree) (x : Item) (bs : Branches)
      → bytescmp x.key key ≡ zero_sign
      → Taken t (in_front x bs)
  equal-Taken t x bs e = record {
    splits = split_branches_at key cut t x bs zero_sign e;
    paths = λ i. path_branches_at key i t x bs zero_sign e;
    turning = λ n i. turn_at key cut.node n i t x bs zero_sign e;
  }

  pub above-Taken :
      (t : BTree) (x : Item) (bs : Branches) → bytescmp x.key key ≡ plus → Taken t (in_front x bs)
  above-Taken t x bs e = record {
    splits = split_branches_at key cut t x bs plus e;
    paths = λ i. path_branches_at key i t x bs plus e;
    turning = λ n i. turn_at key cut.node n i t x bs plus e;
  }

  -- The pages of the other branches are not those of the child.
  in_rest :
      ⦃p : Platform⦄ {d d' : Dal} (t : BTree) (x : Item) (bs : Branches)
      → ((q : ℕ) → count q (pages_branches (branch t x bs)) ≤ 1)
      → Kept key cut d d' t (branch t x bs)
      → Keeps d d' (pages_branches bs)
  in_rest t x bs once kept q there =
      let split = count-append q (pages t) (pages_branches bs) in
      let all = once q in kept q (omega arith) (omega arith)

  two_pages :
      (t : BTree) (ps : List ℕ)
      → page_of (left_part cut.at t) ∷ (page_of (right_part cut.at cut.page t) ∷ ps)
        ≡ insert_idx (page_of t ∷ ps) (0 + 1) cut.page
  two_pages (leaf q items) ps = refl
  two_pages (inner q cs) ps = refl

  -- The child is the node.
  child_split :
      (t : BTree) (rest : BTree → Branches)
      → page_of t ≡ cut.node
      → split_child key cut t rest ≡ halves cut t rest
  child_split (leaf q items) rest e = rw (eq→== q cut.node e)
  child_split (inner q cs) rest e = rw (eq→== q cut.node e)

  child_turn :
      (t : BTree) (n : Node) (i : ℕ)
      → page_of t ≡ cut.node
      → turn_child key cut.node n i t ≡ record { parent = n; index = i; child = t }
  child_turn (leaf q items) n i e = refl
  child_turn (inner q cs) n i e = rw (eq→== q cut.node e)

  pub last-Ends : (t : BTree) → page_of t ≡ cut.node → Ends key cut (last t)
  last-Ends t e =
      let here = child_split t last e in
      record {
        position = 0;
        child = t;
        is_node = e;
        path = λ i. ap (λ j. (j, node_of t) ∷ path_below key t) (omega arith);
        turns = λ n i.
            child_turn t n i e
            ∙ ap (λ j. record { parent = n; index = j; child = t }) (omega arith);
        new_items = rw here;
        new_pages = rw here (two_pages t []);
        order = λ h. rw here (inorder-parts cut.at cut.middle cut.page t h);
        level = λ h. rw here (height-parts cut.at cut.middle cut.page t h);
        among = λ q. omega arith;
        held = λ d h. h;
        holds = λ d d' left right kept once h. rw here (left, right);
      }

  pub front-Ends :
      (t : BTree) (x : Item) (bs : Branches)
      → Taken t (in_front x bs)
      → page_of t ≡ cut.node
      → Ends key cut (branch t x bs)
  front-Ends t x bs f e =
      let here = f.splits ∙ child_split t (in_front x bs) e in
      record {
        position = 0;
        child = t;
        is_node = e;
        path = λ i. f.paths i ∙ ap (λ j. (j, node_of t) ∷ path_below key t) (omega arith);
        turns = λ n i.
            f.turning n i
            ∙ child_turn t n i e
            ∙ ap (λ j. record { parent = n; index = j; child = t }) (omega arith);
        new_items = rw here;
        new_pages = rw here (two_pages t (pages_of bs));
        order = λ h. rw here (
            sym (
              append_assoc (inorder (left_part cut.at t))
                (cut.middle ∷ inorder (right_part cut.at cut.page t)) (x ∷ inorder_branches bs))
            ∙ ap (λ zs. zs ++ (x ∷ inorder_branches bs))
                (inorder-parts cut.at cut.middle cut.page t h));
        level = λ h. rw here (omega (arith, height-parts cut.at cut.middle cut.page t h));
        among = λ q. omega (arith, count-append q (pages t) (pages_branches bs));
        held = λ d h. h.0;
        holds = λ d d' left right kept once h.
            rw here (left, (right, HoldsBranches-kept d d' bs (in_rest t x bs once kept) h.1));
      }

  pub last-Continues :
      (q : ℕ) (cs : Branches) → q ≢ cut.node → Continues key cut (last (inner q cs))
  last-Continues q cs ne = record {
    position = 0;
    number = q;
    branches = cs;
    other = ne;
    path = λ i. ap (λ j. (j, node_of (inner q cs)) ∷ path_branches key 0 cs) (omega arith);
    turns = λ n i. rw (ne→== q cut.node ne);
    same_items = rw (ne→== q cut.node ne);
    same_pages = rw (ne→== q cut.node ne);
    order = λ e. rw (ne→== q cut.node ne) e;
    level = λ e. rw (ne→== q cut.node ne) (ap suc e);
    lower = omega arith;
    among = λ r. omega arith;
    held = λ d h. h;
    holds = λ d d' new kept once h. rw (ne→== q cut.node ne) new;
  }

  pub front-Continues :
      (q : ℕ) (cs : Branches) (x : Item) (bs : Branches)
      → Taken (inner q cs) (in_front x bs)
      → q ≢ cut.node
      → Continues key cut (branch (inner q cs) x bs)
  front-Continues q cs x bs f ne = record {
    position = 0;
    number = q;
    branches = cs;
    other = ne;
    path =
        λ i. f.paths i ∙ ap (λ j. (j, node_of (inner q cs)) ∷ path_branches key 0 cs) (omega arith);
    turns = λ n i. f.turning n i ∙ rw (ne→== q cut.node ne);
    same_items = rw (f.splits, ne→== q cut.node ne);
    same_pages = rw (f.splits, ne→== q cut.node ne);
    order = λ e. rw (f.splits, ne→== q cut.node ne) (ap (λ zs. zs ++ (x ∷ inorder_branches bs)) e);
    level = λ e. rw (f.splits, ne→== q cut.node ne) (omega (arith, e));
    lower = omega arith;
    among = λ r. omega (arith, count-append r (pages (inner q cs)) (pages_branches bs));
    held = λ d h. h.0;
    holds = λ d d' new kept once h.
        rw (f.splits, ne→== q cut.node ne)
          (new, HoldsBranches-kept d d' bs (in_rest (inner q cs) x bs once kept) h.1);
  }
