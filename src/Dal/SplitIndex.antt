-- ===== src/Dal/SplitIndex.antt =====
-- `get_split_index` of core/data_access_layer.cpp: where a node is split.
use toocal.Prelude.{
  ℕ, zero, suc, ◌+◌, ◌≤◌, ◌<◌, ◌≡◌, ◌≢◌, ◌⊎◌, refl, Bool, true, false, List, [], ◌∷◌, arith, inl,
  inr, length, take, u32, Bool-cases, ◌==◌, ==→eq, eq→==,
}
use toocal.Node.{Item, Node, item_size, header_size}
use toocal.Dal.{Dal, get_split_index, split_index_from, no_index}
use toocal.Dal.Threshold.{above}

-- The header and the first items, as the loop adds them up.
abbrev pub sizes_from : ℕ → List Item → ℕ
sizes_from total [] = total
sizes_from total (item ∷ items) = sizes_from (u32 (total + item_size item)) items

abbrev pub exceeds : Dal → ℕ → Bool
exceeds d total = above total d.min_fill_percent d.page_size

-- The loop stands at the item `i`, and its result is `r`.
record FirstIndex (d : Dal) (total i : ℕ) (items : List Item) (r : ℕ) : Type 0 where
  enough :
      r ≢ no_index
      → (k : ℕ) × (r ≡ i + suc k)
        × (suc k < length items)
        × (exceeds d (sizes_from total (take (suc k) items)) ≡ true)
  first :
      (k : ℕ)
      → suc k < length items
      → exceeds d (sizes_from total (take (suc k) items)) ≡ true
      → r ≤ i + suc k

split_index_from_single :
    (d : Dal) (total i : ℕ) (item : Item) → split_index_from d total i (item ∷ []) ≡ no_index
unfolding split_index_from
split_index_from_single d total i item =
    elim (Bool-cases (exceeds d (u32 (total + item_size item)))) [
      | inl e ↦ rw (e, split_index_from)
      | inr e ↦ rw (e, split_index_from)
    ]

split_index_from-FirstIndex :
    (d : Dal) (total i : ℕ) (items : List Item)
    → FirstIndex d total i items (split_index_from d total i items)
unfolding split_index_from
split_index_from-FirstIndex d total i [] = record {
  enough = λ ne. absurd (ne refl);
  first = λ k lt e. absurd (omega arith);
}
split_index_from-FirstIndex d total i (item ∷ []) = record {
  enough = λ ne. absurd (ne (split_index_from_single d total i item));
  first = λ k lt e. absurd (omega arith);
}
split_index_from-FirstIndex d total i (item ∷ (next ∷ items)) =
    let total' : ℕ = u32 (total + item_size item) in
    let rest = split_index_from-FirstIndex d total' (suc i) (next ∷ items) in
    elim (Bool-cases (exceeds d total')) [
      | inl e ↦
          rw (e, split_index_from)
            (record {
              enough = λ ne. (0, omega arith, omega arith, e);
              first = λ k lt f. omega arith;
            })
      | inr e ↦
          rw (e, split_index_from)
            (record {
              enough = λ ne.
                  let (k, at, lt, big) = rest.enough ne in (suc k, omega arith, omega arith, big);
              first = from_second e rest.first;
            })
    ]
  where
    from_second :
        {r : ℕ}
        → exceeds d (u32 (total + item_size item)) ≡ false
        → ((k : ℕ)
            → suc k < length (next ∷ items)
            → exceeds d (sizes_from (u32 (total + item_size item)) (take (suc k) (next ∷ items)))
              ≡ true
            → r ≤ suc i + suc k)
        → (k : ℕ) → suc k < length (item ∷ (next ∷ items))
        → exceeds d (sizes_from total (take (suc k) (item ∷ (next ∷ items)))) ≡ true
        → r ≤ i + suc k
    from_second small rest zero lt big = cc
    from_second small rest (suc k) lt big = omega (arith, rest k (omega arith) big)

abbrev pub IsBetween : Dal → List Item → ℕ → Type 0
IsBetween d items r =
    (0 < r) × (r < length items) × (exceeds d (sizes_from header_size (take r items)) ≡ true)

IsBetween-of_FirstIndex :
    (d : Dal) (items : List Item) (r : ℕ)
    → FirstIndex d header_size 0 items r
    → (r ≡ no_index) ⊎ IsBetween d items r
IsBetween-of_FirstIndex d items r f = elim (Bool-cases (r == no_index)) [
  | inl e ↦ inl (==→eq r no_index e)
  | inr e ↦
      let (k, at, lt, big) = f.enough (λ same. cc (eq→== r no_index same)) in
      let at' : r ≡ suc k = omega arith in inr (omega arith, omega arith, rw at' big)
]

-- The split index is -1, or lies between two items, where the header and the items in front of it
-- exceed the minimum; and no smaller index between two items does. So it is -1 only where no proper
-- front part of the node, the node's header included, exceeds the minimum.
pub get_split_index-least :
    (n : Node) (d : Dal)
    → let r = get_split_index n d in
      ((r ≡ no_index) ⊎ IsBetween d n.items r)
      × ((j : ℕ)
          → 0 < j
          → j < length n.items
          → exceeds d (sizes_from header_size (take j n.items)) ≡ true
          → r ≤ j)
unfolding get_split_index
get_split_index-least n d =
    let f = split_index_from-FirstIndex d header_size 0 n.items in
    (IsBetween-of_FirstIndex d n.items (get_split_index n d) f, from_one f.first)
  where
    from_one :
        {r : ℕ}
        → ((k : ℕ)
            → suc k < length n.items
            → exceeds d (sizes_from header_size (take (suc k) n.items)) ≡ true
            → r ≤ 0 + suc k)
        → (j : ℕ) → 0 < j
        → j < length n.items
        → exceeds d (sizes_from header_size (take j n.items)) ≡ true
        → r ≤ j
    from_one first zero pos lt big = absurd (omega arith)
    from_one first (suc k) pos lt big = omega (arith, first k lt big)
