-- ===== src/Tests/Termination.antt =====
-- The termination of a search at a concrete store.
use toocal.Prelude.{
  ℕ, ◌+◌, ◌-◌, ◌<◌, ◌≢◌, ◌≡◌, ◌∙◌, sym, refl, ap, true, false, none, some, List, [], ◌∷◌, ◌++◌, All,
  arith, length, replicate, if◌then◌else◌, ◌==◌, subst, inl, inr, leb, ltb, Bool-cases, ◌≤◌, ==→eq,
  lt→leb,
}
use toocal.Effects.{ok, out_of_fuel, Outcome}
use toocal.Node.{Node}
use toocal.Node.Serializer
use toocal.Dal.{Dal, get_node, offset_of}
use toocal.Collection.{find}
use toocal.Tree.Termination.{IsRanked}
use toocal.Collection.Termination.{find-ends}
use toocal.Tests.{little_endian, blank, program}
use toocal.Tests.Storable.{item}

page_image : Node → List ℕ
unfolding program
page_image n = elim (Serializer.serialize 128 n) [
  | none ↦ []
  | some bytes ↦ bytes ++ replicate (128 - length bytes) 0
]

-- Page 0 holds an inner node with page 1 as both children, and page 1 a leaf.
two_pages : Dal
unfolding page_image
two_pages = record blank {
  file = record {
    bytes =
        page_image (record { page_num = 0; items = item 2 ∷ []; children = 1 ∷ 1 ∷ [] })
        ++ page_image (record { page_num = 1; items = item 1 ∷ []; children = [] });
    is_open = true;
    failed = false;
    capacity = 256;
  };
}

-- A page number from 2^57 on wraps to the same two pages.
abbrev rank : ℕ → ℕ
rank q = if offset_of q two_pages == 0 then 1 else 0

children_of : {S : Type 0} → Outcome S Node → List ℕ
children_of (ok n s) = n.children
children_of _ = []

at_first : (q : ℕ) → offset_of q two_pages ≡ 0 → children_of (get_node q two_pages) ≡ 1 ∷ 1 ∷ []
unfolding two_pages program children_of
at_first q e = rw e refl

at_second : (q : ℕ) → offset_of q two_pages ≡ 128 → children_of (get_node q two_pages) ≡ []
unfolding two_pages program children_of
at_second q e = rw e refl

at_no_page : (q : ℕ) → 256 ≤ offset_of q two_pages → children_of (get_node q two_pages) ≡ []
unfolding two_pages program children_of
at_no_page q far =
    let outside : leb (offset_of q two_pages + 128) 256 ≡ false =
      lt→leb (offset_of q two_pages + 128) 256 (omega arith) in
    elim (Bool-cases (ltb (offset_of q two_pages) 9223372036854775808)) [
      | inl near ↦ rw (near, outside) refl
      | inr lost ↦ rw lost refl
    ]

-- Offsets are multiples of 128.
beyond :
    (q : ℕ)
    → (offset_of q two_pages == 0) ≡ false
    → (offset_of q two_pages == 128) ≡ false
    → 256 ≤ offset_of q two_pages
unfolding two_pages
beyond q a b = grind arith

two_pages-IsRanked : IsRanked two_pages rank
unfolding IsRanked two_pages children_of
two_pages-IsRanked q n read =
    let read_children : children_of (get_node q two_pages) ≡ n.children = ap children_of read in
    elim (Bool-cases (offset_of q two_pages == 0)) [
      | inl first ↦ rw first (
          subst (All (λ c. rank c < 1)) (sym (at_first q (==→eq _ 0 first)) ∙ read_children)
            (omega arith, (omega arith, tt)))
      | inr later ↦ elim (Bool-cases (offset_of q two_pages == 128)) [
        | inl second ↦
            subst (All (λ c. rank c < rank q))
              (sym (at_second q (==→eq _ 128 second)) ∙ read_children) tt
        | inr third ↦
            subst (All (λ c. rank c < rank q))
              (sym (at_no_page q (beyond q later third)) ∙ read_children) tt
      ]
    ]

find-ends_example : find 2 (1 ∷ []) (record { dal = two_pages; name = []; root = 0 }) ≢ out_of_fuel
unfolding two_pages
find-ends_example =
    find-ends (record { dal = two_pages; name = []; root = 0 }) rank (1 ∷ []) 2 two_pages-IsRanked
      (omega arith)
