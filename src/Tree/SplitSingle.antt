-- ===== src/Tree/SplitSingle.antt =====
-- `Node::split` of core/node.cpp on a node that has no split index.
use toocal.Prelude.{ℕ, ◌≤◌, ◌≡◌, arith, inl, inr, length, get_elem?-none}
use toocal.Platform.{Platform}
use toocal.Effects.{undefined_behavior}
use toocal.Node.{Node}
use toocal.Dal.{Dal, get_split_index, no_index}
use toocal.Dal.SplitIndex.{get_split_index-least}
use toocal.Tree.{split}

module _ ⦃p : Platform⦄ where
  -- The split of a node with at most one item, however long that is, reads the item of the index
  -- 4294967295 and is undefined.
  pub split_single :
      (parent n : Node) (index : ℕ) (d : Dal)
      → length n.items ≤ 1
      → (get_split_index n d ≡ no_index) × (split parent n index d ≡ undefined_behavior)
  unfolding split
  split_single parent n index d few =
      let no_split : get_split_index n d ≡ no_index = elim (get_split_index-least n d).0 [
        | inl e ↦ e
        | inr between ↦ absurd (omega (arith, between.0, between.1))
      ] in
      (no_split, rw (no_split, get_elem?-none n.items no_index (omega arith)))
