-- ===== src/Text/Case.antt =====
-- `case_lowerb` and `case_diffb` agree on what a letter is.
use geoipdns.Base.{
  ℕ, ◌<◌, true, List, [], ◌∷◌, map, ◌≡◌, ◌↔◌, refl, ap₂, IsByte, All, length, arith,
}
use geoipdns.Text.{lower, fold_case, case_equal}

pub fold_case-lower : (b : ℕ) → IsByte b → fold_case b ≡ lower b
unfolding fold_case lower
fold_case-lower b h = ground arith

pub lower-IsByte : (b : ℕ) → IsByte b → IsByte (lower b)
unfolding lower
lower-IsByte b h = ground arith

pub lower-lower : (b : ℕ) → IsByte b → lower (lower b) ≡ lower b
unfolding lower
lower-lower b h = ground arith

-- The bytes of a label's length are no letters.
pub lower_small : (b : ℕ) → b < 65 → lower b ≡ b
unfolding lower
lower_small b h = ground arith

pub length-lower : (xs : List ℕ) → length (map lower xs) ≡ length xs
length-lower [] = refl
length-lower (x ∷ xs) = omega (arith, length-lower xs)

pub All-lower : (xs : List ℕ) → All IsByte xs → All IsByte (map lower xs)
All-lower [] h = tt
All-lower (x ∷ xs) h = (lower-IsByte x h.0, All-lower xs h.1)

pub case_lowerb_idem : (xs : List ℕ) → All IsByte xs → map lower (map lower xs) ≡ map lower xs
case_lowerb_idem [] h = refl
case_lowerb_idem (x ∷ xs) h = ap₂ (λ y ys. y ∷ ys) (lower-lower x h.0) (case_lowerb_idem xs h.1)

-- Two arrays of bytes compare equal exactly when they are the same in lower case.
pub case_equal_iff :
    (xs ys : List ℕ)
    → All IsByte xs
    → All IsByte ys
    → (case_equal xs ys ≡ true) ↔ (map lower xs ≡ map lower ys)
unfolding case_equal
case_equal_iff [] [] hx hy = (λ e. refl, λ e. refl)
case_equal_iff [] (y ∷ ys) hx hy = (λ e. cc, λ e. cc)
case_equal_iff (x ∷ xs) [] hx hy = (λ e. cc, λ e. cc)
case_equal_iff (x ∷ xs) (y ∷ ys) hx hy =
    let fx = fold_case-lower x hx.0 in
    let fy = fold_case-lower y hy.0 in
    let rest = case_equal_iff xs ys hx.1 hy.1 in
    (λ e. ground (arith, fx, fy, rest.0), λ e. ground (arith, fx, fy, rest.1))
