-- ===== src/Scores.antt =====
-- The scores and ratios of api/src/lib: each adds up disclosed points, factor by factor. A ratio
-- that the code rounds to two decimals is an integer in hundredths.
mod Tests
pub mod Credit
pub mod Delinquency
pub mod Collector
pub mod Customer
pub mod Capital
pub mod Portfolio
use nexus_efos.Common.{
  ℕ, ◌+◌, ◌*◌, ◌≤◌, ◌<◌, suc, ◌≡◌, arith, List, [], ◌∷◌, ◌++◌, ltb, if◌then◌else◌, Bool, true,
  false, length, sum_by, sum_by-nil, sum_by-cons, All, All-append,
}

-- What `customerRiskRating` may be.
pub data RiskRating : Type 0 where
  low medium high unrated : RiskRating

pub data Confidence : Type 0 where
  low_confidence medium_confidence high_confidence : Confidence

-- An entry `{ factor, points }` of a breakdown.
pub record ScoreFactor (F : Type 0) : Type 0 where
  pub factor : F
  pub points : ℕ

-- `if (condition) breakdown.push({ factor, points })`
abbrev pub push_if : {F : Type 0} → Bool → F → ℕ → List (ScoreFactor F)
push_if false f p = []
push_if true f p = record { factor = f; points = p } ∷ []

-- `if (condition) breakdown.push({ factor, points }) else …`
abbrev pub push_or : {F : Type 0} → Bool → F → ℕ → List (ScoreFactor F) → List (ScoreFactor F)
push_or false f p rest = rest
push_or true f p rest = record { factor = f; points = p } ∷ []

-- `breakdown.reduce((s, f) => s + f.points, 0)`
abbrev pub total_points : {F : Type 0} → List (ScoreFactor F) → ℕ
total_points breakdown = sum_by (λ f. f.points) breakdown

unfoldable pub AtMost : {F : Type 0} → ℕ → List (ScoreFactor F) → Type 0
AtMost m breakdown = All (λ f. f.points ≤ m) breakdown

-- A total above what one factor can give needs a second factor.
pub two_factors :
    {F : Type 0} (m : ℕ) (xs : List (ScoreFactor F))
    → AtMost m xs
    → m < total_points xs
    → 2 ≤ length xs
unfolding AtMost
two_factors {F} m [] h over = omega (arith, sum_by-nil (λ (f : ScoreFactor F). f.points))
two_factors {F} m (x ∷ []) (hx, h) over = omega (
  arith,
  sum_by-nil (λ (f : ScoreFactor F). f.points),
  sum_by-cons (λ (f : ScoreFactor F). f.points) x [],
)
two_factors m (x ∷ y ∷ xs) h over = omega arith

pub push_if-AtMost :
    {F : Type 0} (m : ℕ) (c : Bool) (f : F) (p : ℕ) → p ≤ m → AtMost m (push_if c f p)
unfolding AtMost
push_if-AtMost m false f p h = tt
push_if-AtMost m true f p h = (h, tt)

pub push_or-AtMost :
    {F : Type 0} (m : ℕ) (c : Bool) (f : F) (p : ℕ) (rest : List (ScoreFactor F))
    → p ≤ m
    → AtMost m rest
    → AtMost m (push_or c f p rest)
unfolding AtMost
push_or-AtMost m false f p rest h k = k
push_or-AtMost m true f p rest h k = (h, tt)

pub AtMost-append :
    {F : Type 0} (m : ℕ) (xs ys : List (ScoreFactor F))
    → AtMost m xs
    → AtMost m ys
    → AtMost m (xs ++ ys)
unfolding AtMost
AtMost-append {F} m xs ys h k = All-append (λ (f : ScoreFactor F). f.points ≤ m) xs ys h k

pub AtMost-nil : (F : Type 0) (m : ℕ) → AtMost {F = F} m []
unfolding AtMost
AtMost-nil F m = tt
