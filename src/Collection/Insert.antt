-- ===== src/Collection/Insert.antt =====
-- `Collection::put` of core/collection.cpp: the two branches behind the test for a present key.
use toocal.Prelude.{
  ℕ, ◌≡◌, refl, sym, List, inl, inr, length, insert_idx-length, ◌==◌, Bool-cases, ==→eq, arith,
}
use mathlib.Core.Path.{fun_ext}
use toocal.Platform.{Platform}
use toocal.Node.{Item, Node, add_item}
use toocal.Tree.{Found, missing, located}
use toocal.Collection.{insert_item, put_at, put}

-- Whether the key is present or not, and whatever a read behind the last item returns, the item is
-- added at the index: nothing is replaced.
pub insert_item-add_item :
    (stale : List ℕ) (item : Item) (index : ℕ) (n : Node)
    → insert_item stale item index n ≡ add_item item index n
unfolding insert_item add_item
insert_item-add_item stale item index n = elim (Bool-cases (length n.items == index)) [
  | inl e ↦
      let i : index ≡ length n.items = sym (==→eq _ _ e) in
      rw i (ground (arith, insert_idx-length n.items item))
  | inr e ↦ ground arith
]

module _ ⦃p : Platform⦄ where
  put_at-stale :
      (stale stale' : List ℕ) (item : Item) (result : Found × List ℕ)
      → put_at stale item result ≡ put_at stale' item result
  unfolding put_at
  put_at-stale stale stale' item (missing, ancestors) = refl
  put_at-stale stale stale' item (located index n, ancestors) =
      rw (insert_item-add_item stale item index n, insert_item-add_item stale' item index n)

  -- What the memory behind the last item reads as does not change the outcome of a `put`.
  pub put-stale :
      (fuel : ℕ) (stale stale' key value : List ℕ)
      → put fuel stale key value ≡ put fuel stale' key value
  unfolding put
  put-stale fuel stale stale' key value =
      let item : Item = record { key = key; value = value } in
      let same : put_at stale item ≡ put_at stale' item =
        fun_ext (put_at-stale stale stale' item) in
      rw same
