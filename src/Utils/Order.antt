-- ===== src/Utils/Order.antt =====
-- `bytescmp` of core/utils.cpp is the lexicographic order.
use toocal.Prelude.{
  ℕ, ◌<◌, ◌≡◌, refl, List, [], ◌∷◌, ◌⊎◌, inl, inr, arith, Bool-cases, ◌==◌, ==→eq, eq→==, ◌↔◌,
}
use toocal.Utils.{Sign, minus, zero_sign, plus, bytescmp}

-- The order of words, independently of the comparison: a proper prefix comes first, and otherwise
-- the first byte that differs decides.
pub data Before : List ℕ → List ℕ → Type 0 where
  shorter : {b : ℕ} {k₂ : List ℕ} → Before [] (b ∷ k₂)
  smaller : {a b : ℕ} {k₁ k₂ : List ℕ} → a < b → Before (a ∷ k₁) (b ∷ k₂)
  later : {a b : ℕ} {k₁ k₂ : List ℕ} → a ≡ b → Before k₁ k₂ → Before (a ∷ k₁) (b ∷ k₂)

-- To split on a comparison and keep the equation.
pub Sign-cases : (s : Sign) → (s ≡ zero_sign) ⊎ ((s ≡ plus) ⊎ (s ≡ minus))
Sign-cases zero_sign = inl refl
Sign-cases plus = inr (inl refl)
Sign-cases minus = inr (inr refl)

pub bytescmp_refl : (k : List ℕ) → bytescmp k k ≡ zero_sign
unfolding bytescmp
bytescmp_refl [] = refl
bytescmp_refl (a ∷ k) = ground (arith, bytescmp_refl k)

pub eq_of_bytescmp : (k₁ k₂ : List ℕ) → bytescmp k₁ k₂ ≡ zero_sign → k₁ ≡ k₂
unfolding bytescmp
eq_of_bytescmp [] [] h = refl
eq_of_bytescmp [] (b ∷ k₂) h = cc
eq_of_bytescmp (a ∷ k₁) [] h = cc
eq_of_bytescmp (a ∷ k₁) (b ∷ k₂) h = ground (arith, eq_of_bytescmp k₁ k₂)

pub lt_of_gt : (k₁ k₂ : List ℕ) → bytescmp k₁ k₂ ≡ plus → bytescmp k₂ k₁ ≡ minus
unfolding bytescmp
lt_of_gt [] [] h = cc
lt_of_gt [] (b ∷ k₂) h = cc
lt_of_gt (a ∷ k₁) [] h = refl
lt_of_gt (a ∷ k₁) (b ∷ k₂) h = ground (arith, lt_of_gt k₁ k₂)

pub gt_of_lt : (k₁ k₂ : List ℕ) → bytescmp k₁ k₂ ≡ minus → bytescmp k₂ k₁ ≡ plus
unfolding bytescmp
gt_of_lt [] [] h = cc
gt_of_lt [] (b ∷ k₂) h = refl
gt_of_lt (a ∷ k₁) [] h = cc
gt_of_lt (a ∷ k₁) (b ∷ k₂) h = ground (arith, gt_of_lt k₁ k₂)

pub lt_trans :
    (k₁ k₂ k₃ : List ℕ) → bytescmp k₁ k₂ ≡ minus → bytescmp k₂ k₃ ≡ minus → bytescmp k₁ k₃ ≡ minus
unfolding bytescmp
lt_trans [] [] k₃ p q = cc
lt_trans [] (b ∷ k₂) [] p q = cc
lt_trans [] (b ∷ k₂) (c ∷ k₃) p q = refl
lt_trans (a ∷ k₁) [] k₃ p q = cc
lt_trans (a ∷ k₁) (b ∷ k₂) [] p q = cc
lt_trans (a ∷ k₁) (b ∷ k₂) (c ∷ k₃) p q = ground (arith, lt_trans k₁ k₂ k₃)

Before-of_lt : (k₁ k₂ : List ℕ) → bytescmp k₁ k₂ ≡ minus → Before k₁ k₂
unfolding bytescmp
Before-of_lt [] [] h = cc
Before-of_lt [] (b ∷ k₂) h = shorter
Before-of_lt (a ∷ k₁) [] h = cc
Before-of_lt (a ∷ k₁) (b ∷ k₂) h = elim (Bool-cases (a == b)) [
  | inl same ↦ later (==→eq a b same) (Before-of_lt k₁ k₂ (rw same at h))
  | inr differ ↦ smaller (ground arith)
]

lt_of_Before : {k₁ k₂ : List ℕ} → Before k₁ k₂ → bytescmp k₁ k₂ ≡ minus
unfolding bytescmp
lt_of_Before shorter = refl
lt_of_Before (smaller h) = ground arith
lt_of_Before (later e h) = rw (eq→== _ _ e, lt_of_Before h)

-- `bytescmp` answers 0 exactly on equal keys, -1 exactly on keys in the order of words, and 1
-- exactly on keys in the reverse order.
pub bytescmp_lex :
    (k₁ k₂ : List ℕ)
    → ((bytescmp k₁ k₂ ≡ zero_sign) ↔ (k₁ ≡ k₂))
      × ((bytescmp k₁ k₂ ≡ minus) ↔ Before k₁ k₂)
      × ((bytescmp k₁ k₂ ≡ plus) ↔ Before k₂ k₁)
bytescmp_lex k₁ k₂ = (
  (eq_of_bytescmp k₁ k₂, λ e. rw e (bytescmp_refl k₂)),
  (Before-of_lt k₁ k₂, λ b. lt_of_Before b),
  (λ h. Before-of_lt k₂ k₁ (lt_of_gt k₁ k₂ h), λ b. gt_of_lt k₂ k₁ (lt_of_Before b)),
)
