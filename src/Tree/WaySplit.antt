-- ===== src/Tree/WaySplit.antt =====
-- The split of a node on the way to a key, as a function on trees: its upper half moves to a new node,
-- and its middle item to the parent.
pub mod Steps
pub mod Way
pub mod Cases
pub mod Order
pub mod Store
use toocal.Prelude.{ℕ, suc, List, [], ◌∷◌, ◌≡◌, ap, if◌then◌else◌, ◌==◌}
use toocal.Utils.{Sign, minus, zero_sign, plus, bytescmp}
use toocal.Node.{Item, Node}
use toocal.Tree.Shape.{BTree, Branches, leaf, inner, last, branch, node_of}
use toocal.Tree.SplitParts.{left_part, right_part}

-- The page of the node, the split index, the item there, and the page of the new node.
pub record Cut : Type 0 where
  pub node : ℕ
  pub at : ℕ
  pub middle : Item
  pub page : ℕ

-- The two halves in front of the other branches.
abbrev pub halves : Cut → BTree → (BTree → Branches) → Branches
halves cut t rest = branch (left_part cut.at t) cut.middle (rest (right_part cut.at cut.page t))

abbrev mutual
  pub split_branches : List ℕ → Cut → Branches → Branches
  split_branches key cut (last t) = split_child key cut t last
  split_branches key cut (branch t x bs) = elim (bytescmp x.key key) [
    | minus ↦ branch t x (split_branches key cut bs)
    | zero_sign ↦ split_child key cut t (λ u. branch u x bs)
    | plus ↦ split_child key cut t (λ u. branch u x bs)
  ]

  pub split_child : List ℕ → Cut → BTree → (BTree → Branches) → Branches
  split_child key cut (leaf q items) rest =
      if q == cut.node then halves cut (leaf q items) rest else rest (leaf q items)
  split_child key cut (inner q bs) rest =
      if q == cut.node
      then halves cut (inner q bs) rest
      else rest (inner q (split_branches key cut bs))

-- The root has no parent.
abbrev pub split_tree : List ℕ → Cut → BTree → BTree
split_tree key cut (leaf q items) = leaf q items
split_tree key cut (inner q bs) = inner q (split_branches key cut bs)

-- A parent, the index of a child in it, and the child.
pub record Turn : Type 0 where
  pub parent : Node
  pub index : ℕ
  pub child : BTree

abbrev mutual
  -- Where the way comes to the page `page`; `n` is the node of the branches, which begin with the
  -- index `i`.
  pub turn : List ℕ → ℕ → Node → ℕ → Branches → Turn
  turn key page n i (last t) = turn_child key page n i t
  turn key page n i (branch t x bs) = elim (bytescmp x.key key) [
    | minus ↦ turn key page n (suc i) bs
    | zero_sign ↦ turn_child key page n i t
    | plus ↦ turn_child key page n i t
  ]

  pub turn_child : List ℕ → ℕ → Node → ℕ → BTree → Turn
  turn_child key page n i (leaf q items) = record { parent = n; index = i; child = leaf q items }
  turn_child key page n i (inner q bs) =
      if q == page
      then record { parent = n; index = i; child = inner q bs }
      else turn key page (node_of (inner q bs)) 0 bs

pub split_branches_at :
    (key : List ℕ) (cut : Cut) (t : BTree) (x : Item) (bs : Branches) (s : Sign)
    → bytescmp x.key key ≡ s
    → split_branches key cut (branch t x bs) ≡ elim s [
      | minus ↦ branch t x (split_branches key cut bs)
      | zero_sign ↦ split_child key cut t (λ u. branch u x bs)
      | plus ↦ split_child key cut t (λ u. branch u x bs)
    ]
split_branches_at key cut t x bs s e =
    ap
      (λ c. elim c as (λ _. Branches) [
        | minus ↦ branch t x (split_branches key cut bs)
        | zero_sign ↦ split_child key cut t (λ u. branch u x bs)
        | plus ↦ split_child key cut t (λ u. branch u x bs)
      ])
      e

pub turn_at :
    (key : List ℕ) (page : ℕ) (n : Node) (i : ℕ) (t : BTree) (x : Item) (bs : Branches) (s : Sign)
    → bytescmp x.key key ≡ s
    → turn key page n i (branch t x bs) ≡ elim s [
      | minus ↦ turn key page n (suc i) bs
      | zero_sign ↦ turn_child key page n i t
      | plus ↦ turn_child key page n i t
    ]
turn_at key page n i t x bs s e =
    ap
      (λ c. elim c as (λ _. Turn) [
        | minus ↦ turn key page n (suc i) bs
        | zero_sign ↦ turn_child key page n i t
        | plus ↦ turn_child key page n i t
      ])
      e
