-- ===== src/Tree/Termination.antt =====
-- `find_key` of core/node.cpp on any store, whatever its pages hold: it ends where no page is reached
-- from itself through children.
use toocal.Prelude.{
  ℕ, zero, suc, ◌+◌, ◌<◌, Bool, true, false, none, some, List, [], ◌∷◌, ◌++◌, ◌≡◌, ◌≢◌, ◌⊎◌, All,
  arith, inl, inr, get_elem?, Bool-cases, Option-cases, ltb, ◌&&◌, not, leb, length, slice, subst,
}
use toocal.Platform.{Platform}
use toocal.Effects.{ok, err, out_of_fuel, undefined_behavior, Error, io_error}
use toocal.Node.{Node, is_leaf, find_key_in_node}
use toocal.Node.Serializer.{deserialize}
use toocal.Dal.{Dal, Page, read_page, get_node, offset_of}
use toocal.Dal.Fstream
use toocal.Dal.Fstream.{File}
use toocal.Tree.{find_key_helper}

seek_cases :
    (pos : ℕ) (f : File)
    → (Fstream.seek pos f ≡ (true, f)) ⊎ (Fstream.seek pos f ≡ (false, record f { failed = true }))
unfolding Fstream.seek
seek_cases pos f = elim (Bool-cases (f.is_open && not f.failed && ltb pos 9223372036854775808)) [
  | inl found ↦ inl (rw found)
  | inr lost ↦ inr (rw lost)
]

read_cases :
    (pos n : ℕ) (f : File)
    → (Fstream.read pos n f ≡ (some (slice f.bytes pos n), f))
      ⊎ (Fstream.read pos n f ≡ (none, record f { failed = true }))
unfolding Fstream.read
read_cases pos n f = elim (Bool-cases (leb (pos + n) (length f.bytes))) [
  | inl inside ↦ inl (rw inside)
  | inr outside ↦ inr (rw outside)
]

-- A read gives the page and leaves the store as it was, or an error.
read_page_cases :
    (q : ℕ) (d : Dal)
    → ((page : Page) × (read_page q d ≡ ok page d))
      ⊎ ((e : Error) × (d' : Dal) × (read_page q d ≡ err e d'))
unfolding read_page
read_page_cases q d =
    let broken : Dal = record d { file = record d.file { failed = true } } in
    elim (seek_cases (offset_of q d) d.file) [
      | inl found ↦ elim (read_cases (offset_of q d) d.page_size d.file) [
        | inl inside ↦ inl (
          record { page_num = q; bytes = slice d.file.bytes (offset_of q d) d.page_size },
          simp (found, inside),
        )
        | inr outside ↦ inr (io_error, broken, simp (found, outside))
      ]
      | inr lost ↦ inr (io_error, broken, simp lost)
    ]

module _ ⦃p : Platform⦄ (d : Dal) where
  -- What a read of a node does to a search that goes on with it.
  pub get_node_cases :
      (q : ℕ)
      → ((n : Node) × (get_node q d ≡ ok n d))
        ⊎ (((e : Error) × (d' : Dal) × (get_node q d ≡ err e d'))
            ⊎ (get_node q d ≡ undefined_behavior))
  unfolding get_node
  get_node_cases q = elim (read_page_cases q d) [
    | inl (page, e) ↦ elim (Option-cases (deserialize page.bytes)) [
      | inl none_there ↦ inr (inr (rw (e, none_there)))
      | inr (n, there) ↦ inl (record n { page_num = q }, rw (e, there))
    ]
    | inr (e, d', f) ↦ inr (inl (e, d', rw f))
  ]

  -- Every child of a node has a lower rank than the node.
  unfoldable pub IsRanked : (ℕ → ℕ) → Type 0
  IsRanked rank = (q : ℕ) (n : Node) → get_node q d ≡ ok n d → All (λ c. rank c < rank q) n.children

  All-get_elem? :
      (bound : ℕ → Type 0) (xs : List ℕ) (i x : ℕ)
      → All bound xs
      → get_elem? xs i ≡ some x
      → bound x
  All-get_elem? bound [] i x a h = cc
  All-get_elem? bound (y ∷ xs) zero x a h = let same : y ≡ x = cc in subst bound same a.0
  All-get_elem? bound (y ∷ xs) (suc i) x a h = All-get_elem? bound xs i x a.1 h

  pub find_key_helper-ends :
      (rank : ℕ → ℕ) (fuel : ℕ) (key : List ℕ) (exact : Bool) (q : ℕ) (n : Node)
      (ancestors : List ℕ)
      → IsRanked rank
      → get_node q d ≡ ok n d
      → rank q < fuel
      → find_key_helper fuel key exact n ancestors d ≢ out_of_fuel
  unfolding find_key_helper IsRanked
  find_key_helper-ends rank zero key exact q n ancestors ranked there lt = absurd (omega arith)
  find_key_helper-ends rank (suc fuel) key exact q n ancestors ranked there lt =
      elim (Bool-cases (find_key_in_node key n).0) [
        | inl hit ↦ rw hit (λ stuck. cc)
        | inr miss ↦ elim (Bool-cases (is_leaf n)) [
          | inl tip ↦ rw (miss, tip) (λ stuck. cc)
          | inr inner ↦ elim (Option-cases (get_elem? n.children (find_key_in_node key n).1)) [
            | inl outside ↦ rw (miss, inner, outside) (λ stuck. cc)
            | inr (child, at) ↦ elim (get_node_cases child) [
              | inl (next, read) ↦
                  let less : rank child < rank q =
                    All-get_elem? (λ c. rank c < rank q) n.children (find_key_in_node key n).1 child
                      (ranked q n there) at in
                  rw (miss, inner, at, read)
                    (find_key_helper-ends rank fuel key exact child next
                      (ancestors ++ ((find_key_in_node key n).1 ∷ [])) ranked read (omega arith))
              | inr (inl (e, d', read)) ↦ rw (miss, inner, at, read) (λ stuck. cc)
              | inr (inr read) ↦ rw (miss, inner, at, read) (λ stuck. cc)
            ]
          ]
        ]
      ]
