-- ===== src/Utils/Strings.antt =====
-- `memcmp` of core/utils.cpp against `bytescmp`.
use toocal.Prelude.{ℕ, ◌<◌, ◌≡◌, refl, Bool, true, false, List, [], ◌∷◌, All, arith}
use toocal.Utils.{bytescmp, memcmp}

-- On bytes below 128, and wherever `char` is unsigned, `memcmp` on strings answers as `bytescmp` does
-- on their bytes.
pub memcmp-bytescmp :
    (signed : Bool) (k₁ k₂ : List ℕ)
    → (signed ≡ true → All (λ c. c < 128) k₁ × All (λ c. c < 128) k₂)
    → memcmp signed k₁ k₂ ≡ bytescmp k₁ k₂
unfolding memcmp bytescmp
memcmp-bytescmp signed [] [] low = refl
memcmp-bytescmp signed [] (b ∷ k₂) low = refl
memcmp-bytescmp signed (a ∷ k₁) [] low = refl
memcmp-bytescmp true (a ∷ k₁) (b ∷ k₂) low =
    let (low₁, low₂) = low refl in
    let rest = memcmp-bytescmp true k₁ k₂ (λ e. (low₁.1, low₂.1)) in
    grind (arith, rest, low₁.0, low₂.0)
memcmp-bytescmp false (a ∷ k₁) (b ∷ k₂) low =
    let rest = memcmp-bytescmp false k₁ k₂ (λ e. cc) in grind (arith, rest)
