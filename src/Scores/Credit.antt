-- ===== src/Scores/Credit.antt =====
-- Credit assessment, api/src/lib/creditAssessment.ts. Amounts are in cents and the two ratios in
-- hundredths of a percent.
use nexus_efos.Common.{
  ℕ, ◌+◌, ◌*◌, ◌<◌, ◌≤◌, ◌≡◌, arith, Bool, true, false, not, ◌&&◌, ◌||◌, List, [], ◌∷◌, ◌++◌, ltb,
  leb, if◌then◌else◌, sum_by_ℤ, Bool-cases, ltb→lt, ◌≢◌, ◌⊎◌, inl, inr,
}
use nexus_efos.Common.Int.{ℤ, ◌+ℤ◌, pos, negsuc, pos_part}
use nexus_efos.Common.Rounding.{round2, lt_of_round2, round2_mono}
use nexus_efos.Scores.{RiskRating}

pub record CreditAssessmentInput : Type 0 where
  pub monthly_income : ℕ
  pub monthly_expenses : ℕ
  pub existing_loan_obligations : ℕ
  pub proposed_installment : ℕ
  pub customer_risk_rating : RiskRating
  pub has_loans_in_arrears : Bool

pub data Factor : Type 0 where
  starting_score debt_to_income_50 debt_to_income_30 capacity_60 capacity_40 : Factor
  rating_high rating_medium loan_in_arrears : Factor

pub data Recommendation : Type 0 where
  approve review decline : Recommendation

pub record CreditAssessmentResult : Type 0 where
  pub debt_to_income_ratio : ℕ
  pub repayment_capacity_ratio : ℕ
  pub risk_score : ℕ
  pub score_breakdown : List (Factor × ℤ)
  pub recommendation : Recommendation

-- `input.monthlyIncome > 0 ? round2((amount / input.monthlyIncome) * 100) : 100`
unfoldable pub ratio_of_income : ℕ → ℕ → ℕ
unfolding round2
ratio_of_income amount income = if ltb 0 income then round2 (amount * 10000) income else 10000

abbrev pub rating_points : RiskRating → List (Factor × ℤ)
rating_points RiskRating.high = (Factor.rating_high, negsuc 19) ∷ []
rating_points RiskRating.medium = (Factor.rating_medium, negsuc 9) ∷ []
rating_points RiskRating.low = []
rating_points RiskRating.unrated = []

-- The entries that are pushed for the two ratios.
abbrev pub debt_points : ℕ → List (Factor × ℤ)
debt_points ratio =
    if leb 5000 ratio
    then (Factor.debt_to_income_50, negsuc 29) ∷ []
    else (if leb 3000 ratio then (Factor.debt_to_income_30, negsuc 14) ∷ [] else [])

abbrev pub capacity_points : ℕ → List (Factor × ℤ)
capacity_points ratio =
    if leb 6000 ratio
    then (Factor.capacity_60, negsuc 34) ∷ []
    else (if leb 4000 ratio then (Factor.capacity_40, negsuc 14) ∷ [] else [])

abbrev pub is_high : RiskRating → Bool
is_high RiskRating.high = true
is_high _ = false

abbrev pub recommend : ℕ → Bool → Recommendation
recommend risk_score forces_review =
    if ltb risk_score 40
    then Recommendation.decline
    else (if leb 70 risk_score && not forces_review
        then Recommendation.approve
        else Recommendation.review)

abbrev pub breakdown_of : ℕ → ℕ → RiskRating → Bool → List (Factor × ℤ)
breakdown_of debt capacity rating arrears =
    (Factor.starting_score, pos 100) ∷ debt_points debt
    ++ (capacity_points capacity
        ++ (rating_points rating
            ++ (if arrears then (Factor.loan_in_arrears, negsuc 24) ∷ [] else [])))

-- `Math.max(0, breakdown.reduce((sum, f) => sum + f.points, 0))`
unfoldable pub score_of : List (Factor × ℤ) → ℕ
unfolding sum_by_ℤ
score_of breakdown = pos_part (sum_by_ℤ (λ f. f.1) breakdown)

unfoldable pub assess_credit : CreditAssessmentInput → CreditAssessmentResult
assess_credit input =
    let debt = ratio_of_income input.existing_loan_obligations input.monthly_income in
    let capacity =
      ratio_of_income (input.existing_loan_obligations + input.proposed_installment)
        input.monthly_income in
    let breakdown =
      breakdown_of debt capacity input.customer_risk_rating input.has_loans_in_arrears in
    let risk_score = score_of breakdown in
    record {
      debt_to_income_ratio = debt;
      repayment_capacity_ratio = capacity;
      risk_score = risk_score;
      score_breakdown = breakdown;
      recommendation =
          recommend risk_score (input.has_loans_in_arrears || is_high input.customer_risk_rating);
    }

forced_not_approved : (score : ℕ) → recommend score true ≢ Recommendation.approve
forced_not_approved score h = ground arith

approved_parts :
    (d c : ℕ) (r : RiskRating) (a : Bool)
    → recommend (score_of (breakdown_of d c r a)) (a || is_high r) ≡ Recommendation.approve
    → (a ≡ false) × (is_high r ≡ false) × (c < 6000) × ((d < 5000) ⊎ (c < 4000))
unfolding score_of ◌+ℤ◌
approved_parts d c r true h = absurd (forced_not_approved (score_of (breakdown_of d c r true)) h)
approved_parts d c RiskRating.high false h = ground arith
approved_parts d c RiskRating.medium false h = ground arith
approved_parts d c RiskRating.low false h = ground arith
approved_parts d c RiskRating.unrated false h = ground arith

-- What the ratio below a bound says of the amounts.
ratio_below :
    (amount income k : ℕ)
    → k ≤ 10000
    → ratio_of_income amount income < k
    → (0 < income) × (amount * 10000 < k * income)
unfolding ratio_of_income
ratio_below amount income k small h = elim (Bool-cases (ltb 0 income)) [
  | inl earning ↦
      let bound = lt_of_round2 (amount * 10000) income k (ltb→lt 0 income earning) (ground arith) in
      (ltb→lt 0 income earning, omega arith)
  | inr none_earned ↦ absurd (ground arith)
]

ratio_of_income_mono :
    (a b income : ℕ) → a ≤ b → ratio_of_income a income ≤ ratio_of_income b income
unfolding ratio_of_income
ratio_of_income_mono a b income h = elim (Bool-cases (ltb 0 income)) [
  | inl earning ↦
      simp earning
        (round2_mono (a * 10000) (b * 10000) income (ltb→lt 0 income earning) (omega arith))
  | inr none_earned ↦ simp none_earned (omega arith)
]

-- A recommendation to approve is only given to a customer with no other loan in
-- arrears and not rated HIGH, whose existing obligations are below half the income, and whose
-- obligations with the proposed installment are below 60% of it.
pub approve_affordable :
    (input : CreditAssessmentInput)
    → (assess_credit input).recommendation ≡ Recommendation.approve
    → (input.has_loans_in_arrears ≡ false)
      × (is_high input.customer_risk_rating ≡ false)
      × (100 * input.existing_loan_obligations < 50 * input.monthly_income)
      × (100 * (input.existing_loan_obligations + input.proposed_installment)
          < 60 * input.monthly_income)
unfolding assess_credit
approve_affordable input h =
    let o = input.existing_loan_obligations in
    let total = o + input.proposed_installment in
    let income = input.monthly_income in
    let (clear, not_high, capacity, debt) =
      approved_parts (ratio_of_income o income) (ratio_of_income total income)
        input.customer_risk_rating input.has_loans_in_arrears h in
    let below = ratio_of_income_mono o total income (omega arith) in
    let debt' = ratio_below o income 5000 (omega arith) (ground arith) in
    let total' = ratio_below total income 6000 (omega arith) capacity in
    (clear, not_high, omega arith, omega arith)
