-- ===== src/Tree/Descent.antt =====
-- The way down a tree to the leaf where a key belongs (`find_key` of core/node.cpp with `exact`
-- false), and the nodes on it.
use toocal.Prelude.{
  ℕ, zero, suc, ◌+◌, ◌≤◌, ◌<◌, false, none, some, List, [], ◌∷◌, ◌≡◌, refl, ap, ◌∙◌, arith, inl,
  inr, get_elem?,
}
use native.Mathlib.Nat.{le_refl}
use toocal.Platform.{Platform}
use toocal.Utils.{Sign, minus, zero_sign, plus, bytescmp}
use toocal.Utils.Order.{Sign-cases}
use toocal.Node.{Item, Node}
use toocal.Dal.{Dal}
use toocal.Tree.Shape.{
  BTree, Branches, leaf, inner, last, branch, page_of, items_of, pages_of, node_of, HoldsTree,
  HoldsBranches, height, height_branches, inorder, inorder_branches,
}
use toocal.Tree.Order.{IsSorted, IsSorted-middle, search_tree, search_branches}
use toocal.Tree.Search.{position, position_at, search_branches_at}

abbrev mutual
  -- The leaf that the way ends in.
  pub target : List ℕ → BTree → Node
  target key (leaf page items) = node_of (leaf page items)
  target key (inner page bs) = target_branches key bs

  pub target_branches : List ℕ → Branches → Node
  target_branches key (last t) = target key t
  target_branches key (branch t x bs) = elim (bytescmp x.key key) [
    | minus ↦ target_branches key bs
    | zero_sign ↦ target key t
    | plus ↦ target key t
  ]

abbrev mutual
  -- The nodes below the root, and the indices of the children taken.
  pub path_below : List ℕ → BTree → List (ℕ × Node)
  path_below key (leaf page items) = []
  path_below key (inner page bs) = path_branches key 0 bs

  -- From the child of the index on.
  pub path_branches : List ℕ → ℕ → Branches → List (ℕ × Node)
  path_branches key i (last t) = (i, node_of t) ∷ path_below key t
  path_branches key i (branch t x bs) = elim (bytescmp x.key key) [
    | minus ↦ path_branches key (suc i) bs
    | zero_sign ↦ (i, node_of t) ∷ path_below key t
    | plus ↦ (i, node_of t) ∷ path_below key t
  ]

abbrev pub indexes_of : List (ℕ × Node) → List ℕ
indexes_of [] = []
indexes_of ((i, n) ∷ path) = i ∷ indexes_of path

abbrev pub nodes_of : List (ℕ × Node) → List Node
nodes_of [] = []
nodes_of ((i, n) ∷ path) = n ∷ nodes_of path

pub target_branches_at :
    (key : List ℕ) (t : BTree) (x : Item) (bs : Branches) (s : Sign)
    → bytescmp x.key key ≡ s
    → target_branches key (branch t x bs)
      ≡ elim s [ minus ↦ target_branches key bs | zero_sign ↦ target key t | plus ↦ target key t ]
target_branches_at key t x bs s e =
    ap
      (λ c. elim c as (λ _. Node) [
        | minus ↦ target_branches key bs
        | zero_sign ↦ target key t
        | plus ↦ target key t
      ])
      e

pub path_branches_at :
    (key : List ℕ) (i : ℕ) (t : BTree) (x : Item) (bs : Branches) (s : Sign)
    → bytescmp x.key key ≡ s
    → path_branches key i (branch t x bs) ≡ elim s [
      | minus ↦ path_branches key (suc i) bs
      | zero_sign ↦ (i, node_of t) ∷ path_below key t
      | plus ↦ (i, node_of t) ∷ path_below key t
    ]
path_branches_at key i t x bs s e =
    ap
      (λ c. elim c as (λ _. List (ℕ × Node)) [
        | minus ↦ path_branches key (suc i) bs
        | zero_sign ↦ (i, node_of t) ∷ path_below key t
        | plus ↦ (i, node_of t) ∷ path_below key t
      ])
      e

-- One step of the way, at an inner node whose branches begin with the index `i`.
pub record Step (key : List ℕ) (i : ℕ) (bs : Branches) : Type 0 where
  pub child : BTree
  pub there : get_elem? (pages_of bs) (position key (items_of bs)).1 ≡ some (page_of child)
  pub path :
      path_branches key i bs
      ≡ (i + (position key (items_of bs)).1, node_of child) ∷ path_below key child
  pub same_target : target_branches key bs ≡ target key child
  pub lower : height child ≤ height_branches bs
  pub absent :
      search_branches key bs ≡ none
      → ((position key (items_of bs)).0 ≡ false) × (search_tree key child ≡ none)
  pub sorted : IsSorted (inorder_branches bs) → IsSorted (inorder child)
  pub holds : ⦃p : Platform⦄ (d : Dal) → HoldsBranches d bs → HoldsTree d child

pub step : (key : List ℕ) (i : ℕ) (bs : Branches) → Step key i bs
unfolding position
step key i (last t) = record {
  child = t;
  there = refl;
  path = ap (λ j. (j, node_of t) ∷ path_below key t) (omega arith);
  same_target = refl;
  lower = le_refl (height t);
  absent = λ e. (refl, e);
  sorted = λ s. s;
  holds = λ d h. h;
}
step key i (branch t x bs) = elim (Sign-cases (bytescmp x.key key)) [
  | inl e ↦
      let here = position_at key x (items_of bs) zero_sign e in
      record {
        child = t;
        there = rw here;
        path =
            path_branches_at key i t x bs zero_sign e
            ∙ rw here (ap (λ j. (j, node_of t) ∷ path_below key t) (omega arith));
        same_target = target_branches_at key t x bs zero_sign e;
        lower = omega arith;
        absent = λ n. let m = rw (search_branches_at key t x bs zero_sign e) at n in cc;
        sorted = λ s. (IsSorted-middle (inorder t) x (inorder_branches bs) s).0;
        holds = λ d h. h.0;
      }
  | inr (inl e) ↦
      let here = position_at key x (items_of bs) plus e in
      record {
        child = t;
        there = rw here;
        path =
            path_branches_at key i t x bs plus e
            ∙ rw here (ap (λ j. (j, node_of t) ∷ path_below key t) (omega arith));
        same_target = target_branches_at key t x bs plus e;
        lower = omega arith;
        absent = λ n. (rw here, rw (search_branches_at key t x bs plus e) at n);
        sorted = λ s. (IsSorted-middle (inorder t) x (inorder_branches bs) s).0;
        holds = λ d h. h.0;
      }
  | inr (inr e) ↦
      let here = position_at key x (items_of bs) minus e in
      let rest = step key (suc i) bs in
      record {
        child = rest.child;
        there = rw here rest.there;
        path =
            path_branches_at key i t x bs minus e
            ∙ rest.path
            ∙ rw here (ap (λ j. (j, node_of rest.child) ∷ path_below key rest.child) (omega arith));
        same_target = target_branches_at key t x bs minus e ∙ rest.same_target;
        lower = omega (arith, rest.lower);
        absent = λ n.
            let a = rest.absent (rw (search_branches_at key t x bs minus e) at n) in
            (rw here a.0, a.1);
        sorted = λ s. rest.sorted (IsSorted-middle (inorder t) x (inorder_branches bs) s).3;
        holds = λ d h. rest.holds d h.1;
      }
]

pub target-children :
    (fuel : ℕ) (key : List ℕ) (t : BTree) → height t < fuel → (target key t).children ≡ []
target-children zero key t lt = absurd (omega arith)
target-children (suc fuel) key (leaf page items) lt = refl
target-children (suc fuel) key (inner page bs) lt =
    let s = step key 0 bs in
    rw s.same_target (target-children fuel key s.child (omega (arith, s.lower)))
