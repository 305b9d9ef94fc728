-- ===== src/Collection/Termination.antt =====
-- `Collection::find` of core/collection.cpp on any store, whatever its pages hold.
use toocal.Prelude.{ℕ, ◌<◌, true, List, [], ◌∷◌, ◌≡◌, ◌≢◌, refl, inl, inr, Option-cases, get_elem?}
use toocal.Platform.{Platform}
use toocal.Effects.{ok, err, terminated, undefined_behavior, out_of_fuel, Outcome, M, ◌>>=◌}
use toocal.Dal.{Dal}
use toocal.Tree.{Found, missing, located, find_key, find_key_helper}
use toocal.Tree.Termination.{IsRanked, find_key_helper-ends, get_node_cases}
use toocal.Collection.{Collection, find, item_at, on_store}

module _ ⦃p : Platform⦄ where
  item_at-ends : (result : Found) (c : Collection) → item_at result c ≢ out_of_fuel
  item_at-ends missing c = λ e. cc
  item_at-ends (located index n) c = elim (Option-cases (get_elem? n.items index)) [
    | inl outside ↦ rw outside (λ e. cc)
    | inr (item, there) ↦ rw there (λ e. cc)
  ]

  on_store-ends :
      {A B : Type 0} (m : M Dal A) (f : A → M Collection B) (c : Collection)
      → m c.dal ≢ out_of_fuel
      → ((a : A) (c' : Collection) → f a c' ≢ out_of_fuel)
      → (on_store m >>= f) c ≢ out_of_fuel
  on_store-ends {A} {B} m f c m_ends f_ends = by_outcome (m c.dal) refl
    where
      by_outcome : (o : Outcome Dal A) → m c.dal ≡ o → (on_store m >>= f) c ≢ out_of_fuel
      by_outcome (ok a d) e = rw e (f_ends a (record c { dal = d }))
      by_outcome (err x d) e = rw e (λ stuck. cc)
      by_outcome terminated e = rw e (λ stuck. cc)
      by_outcome undefined_behavior e = rw e (λ stuck. cc)
      by_outcome out_of_fuel e = absurd (m_ends e)

  -- Whatever the pages of the store hold, a search ends, with a result, an error of the stream or an
  -- undefined access, once the fuel exceeds the rank of the root page, where every child of a node
  -- that can be read has a lower rank than the node.
  pub find-ends :
      (c : Collection) (rank : ℕ → ℕ) (key : List ℕ) (fuel : ℕ)
      → IsRanked c.dal rank
      → rank c.root < fuel
      → find fuel key c ≢ out_of_fuel
  unfolding find find_key
  find-ends c rank key fuel ranked lt = elim (get_node_cases c.dal c.root) [
    | inl (n, read) ↦ rw read (
        on_store-ends (find_key_helper fuel key true n (0 ∷ [])) (λ (result, _). item_at result) c
          (find_key_helper-ends c.dal rank fuel key true c.root n (0 ∷ []) ranked read lt)
          (λ (result, _) c'. item_at-ends result c'))
    | inr (inl (e, d', read)) ↦ rw read (λ stuck. cc)
    | inr (inr read) ↦ rw read (λ stuck. cc)
  ]
