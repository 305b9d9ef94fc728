-- ===== src/Prelude/Lists.antt =====
-- Lists measured and indexed by native numbers, under the library's names.
use Prim.Native.Nat.{ℕ, zero, suc, ◌+◌, ◌-◌, ◌≤◌, ◌<◌, min}
use mathlib.Core.Path.{◌≡◌, refl, ap}
use mathlib.Core.List.{List, [], ◌∷◌, ◌++◌}
use mathlib.Core.Option.{Option, none, some}
use mathlib.Core.Logic.{inl, inr}
use native.Mathlib.Omega.{arith}
use toocal.Prelude.Tests.{Option-cases}

module _ {ℓ} {A : Type ℓ} where
  abbrev pub length : List A → ℕ
  length [] = 0
  length (x ∷ xs) = suc (length xs)

  abbrev pub get_elem? : List A → ℕ → Option A
  get_elem? [] i = none
  get_elem? (x ∷ xs) zero = some x
  get_elem? (x ∷ xs) (suc i) = get_elem? xs i

  abbrev pub set : List A → ℕ → A → List A
  set [] i v = []
  set (x ∷ xs) zero v = v ∷ xs
  set (x ∷ xs) (suc i) v = x ∷ set xs i v

  abbrev pub take : ℕ → List A → List A
  take n [] = []
  take zero (x ∷ xs) = []
  take (suc n) (x ∷ xs) = x ∷ take n xs

  abbrev pub drop : ℕ → List A → List A
  drop n [] = []
  drop zero (x ∷ xs) = x ∷ xs
  drop (suc n) (x ∷ xs) = drop n xs

  abbrev pub replicate : ℕ → A → List A
  replicate zero a = []
  replicate (suc n) a = a ∷ replicate n a

  -- `insert(begin() + i, v)`, for an index up to the length.
  abbrev pub insert_idx : List A → ℕ → A → List A
  insert_idx xs zero v = v ∷ xs
  insert_idx [] (suc i) v = []
  insert_idx (x ∷ xs) (suc i) v = x ∷ insert_idx xs i v

  -- `erase(begin() + i)`, for an index below the length.
  abbrev pub erase_idx : List A → ℕ → List A
  erase_idx [] i = []
  erase_idx (x ∷ xs) zero = xs
  erase_idx (x ∷ xs) (suc i) = x ∷ erase_idx xs i

  -- `pop_back` with the element that `back` names.
  abbrev pub unsnoc : List A → Option (List A × A)
  unsnoc [] = none
  unsnoc (x ∷ xs) = elim (unsnoc xs) [ none ↦ some ([], x) | some (ys, y) ↦ some (x ∷ ys, y) ]

  abbrev pub All {κ} : (A → Type κ) → List A → Type κ
  All P [] = Unit
  All P (x ∷ xs) = P x × All P xs

  pub lt_of_get_elem? : (xs : List A) (i : ℕ) {x : A} → get_elem? xs i ≡ some x → i < length xs
  lt_of_get_elem? [] i h = cc
  lt_of_get_elem? (y ∷ xs) zero h = omega arith
  lt_of_get_elem? (y ∷ xs) (suc i) h = omega (arith, lt_of_get_elem? xs i h)

  pub unsnoc-none : (xs : List A) → unsnoc xs ≡ none → xs ≡ []
  unsnoc-none [] h = refl
  unsnoc-none (x ∷ xs) h = ground arith

  pub unsnoc-some :
      (xs : List A) {ys : List A} {y : A} → unsnoc xs ≡ some (ys, y) → xs ≡ ys ++ (y ∷ [])
  unsnoc-some [] h = cc
  unsnoc-some (x ∷ xs) h = elim (Option-cases (unsnoc xs)) [
    | inl e ↦ ground (arith, unsnoc-none xs e)
    | inr ((zs, z), e) ↦ ground (arith, unsnoc-some xs e)
  ]

  pub unsnoc-append : (xs : List A) (y : A) → unsnoc (xs ++ (y ∷ [])) ≡ some (xs, y)
  unsnoc-append [] y = refl
  unsnoc-append (x ∷ xs) y = rw (unsnoc-append xs y)

  pub take_zero : (xs : List A) → take 0 xs ≡ []
  take_zero [] = refl
  take_zero (x ∷ xs) = refl

  pub drop_zero : (xs : List A) → drop 0 xs ≡ xs
  drop_zero [] = refl
  drop_zero (x ∷ xs) = refl

  pub take-drop_zero : (n : ℕ) (xs : List A) → take n (drop 0 xs) ≡ take n xs
  take-drop_zero n xs = ap (take n) (drop_zero xs)

  pub length-append : (xs ys : List A) → length (xs ++ ys) ≡ length xs + length ys
  length-append [] ys = omega arith
  length-append (x ∷ xs) ys = omega (arith, length-append xs ys)

  pub length-replicate : (n : ℕ) (a : A) → length (replicate n a) ≡ n
  length-replicate zero a = refl
  length-replicate (suc n) a = ap suc (length-replicate n a)

  pub length-take : (n : ℕ) (xs : List A) → length (take n xs) ≡ min n (length xs)
  length-take n [] = omega arith
  length-take zero (x ∷ xs) = omega arith
  length-take (suc n) (x ∷ xs) = omega (arith, length-take n xs)

  pub length-drop : (n : ℕ) (xs : List A) → length (drop n xs) ≡ length xs - n
  length-drop n [] = omega arith
  length-drop zero (x ∷ xs) = omega arith
  length-drop (suc n) (x ∷ xs) = omega (arith, length-drop n xs)

  pub take_all : (n : ℕ) (xs : List A) → length xs ≤ n → take n xs ≡ xs
  take_all n [] h = refl
  take_all zero (x ∷ xs) h = absurd (omega arith)
  take_all (suc n) (x ∷ xs) h = ap {B = List A} (x ∷◌) (take_all n xs (omega arith))

  pub insert_idx-length : (xs : List A) (x : A) → insert_idx xs (length xs) x ≡ xs ++ (x ∷ [])
  insert_idx-length [] x = refl
  insert_idx-length (y ∷ xs) x = ap {B = List A} (y ∷◌) (insert_idx-length xs x)

  pub get_elem?-none : (xs : List A) (i : ℕ) → length xs ≤ i → get_elem? xs i ≡ none
  get_elem?-none [] i h = refl
  get_elem?-none (x ∷ xs) zero h = absurd (omega arith)
  get_elem?-none (x ∷ xs) (suc i) h = get_elem?-none xs i (omega arith)
