-- ===== src/Scores/Delinquency.antt =====
-- Delinquency risk, api/src/lib/delinquencyRisk.ts. Amounts are in cents and the buffer ratio in
-- hundredths.
use nexus_efos.Common.{
  ℕ, ◌*◌, ◌<◌, ◌≤◌, ◌≡◌, arith, Bool, true, List, [], ◌++◌, ltb, leb, if◌then◌else◌, Option, none,
  some, min, length, Bool-cases, inl, inr,
}
use nexus_efos.Common.Int.{ℤ, pos, negsuc, ◌-ℤ◌, ltb_ℤ}
use nexus_efos.Common.Rounding.{round2_ℤ}
use nexus_efos.Scores.{
  RiskRating, Confidence, ScoreFactor, push_if, push_or, total_points, AtMost, two_factors,
  push_if-AtMost, push_or-AtMost, AtMost-append, AtMost-nil,
}

pub record DelinquencyRiskInput : Type 0 where
  pub cumulative_due : ℕ
  pub cumulative_paid : ℕ
  pub days_since_last_repayment : Option ℕ
  pub typical_installment_interval_days : ℕ
  pub installments_so_far : ℕ
  pub customer_risk_rating : RiskRating
  pub has_other_loans_in_arrears : Bool

pub data Factor : Type 0 where
  far_behind behind thin_buffer no_repayment late_repayment slow_repayment : Factor
  rating_high rating_medium other_arrears : Factor

pub data RiskBand : Type 0 where
  low watch elevated high : RiskBand

pub record DelinquencyRiskResult : Type 0 where
  pub buffer_ratio : ℤ
  pub risk_score : ℕ
  pub risk_band : RiskBand
  pub breakdown : List (ScoreFactor Factor)
  pub confidence : Confidence

-- `due > 0 ? round2((paid - due) / due) : 0`
unfoldable pub buffer_ratio_of : ℕ → ℕ → ℤ
buffer_ratio_of due paid =
    if ltb 0 due then round2_ℤ (pos (100 * paid) -ℤ pos (100 * due)) due else pos 0

-- The entry for the buffer.
abbrev pub buffer_points : ℤ → List (ScoreFactor Factor)
buffer_points ratio = push_or (ltb_ℤ ratio (negsuc 9)) Factor.far_behind 35 (
    push_or (ltb_ℤ ratio (pos 0)) Factor.behind 20
      (push_if (ltb_ℤ ratio (pos 5)) Factor.thin_buffer 10))

-- The entry for the time since the last repayment: `days / interval` is compared with 1.5 and 1.1.
abbrev pub gap_points : Option ℕ → ℕ → ℕ → List (ScoreFactor Factor)
gap_points none interval so_far = push_if (ltb 0 so_far) Factor.no_repayment 30
gap_points (some days) interval so_far =
    if ltb 0 interval
    then push_or (leb (3 * interval) (2 * days)) Factor.late_repayment 25
        (push_if (leb (11 * interval) (10 * days)) Factor.slow_repayment 10)
    else []

abbrev pub rating_points : RiskRating → List (ScoreFactor Factor)
rating_points RiskRating.high = push_if true Factor.rating_high 15
rating_points RiskRating.medium = push_if true Factor.rating_medium 5
rating_points RiskRating.low = []
rating_points RiskRating.unrated = []

abbrev pub band_of : ℕ → RiskBand
band_of score =
    if leb 60 score
    then RiskBand.high
    else (if leb 35 score
        then RiskBand.elevated
        else (if leb 15 score then RiskBand.watch else RiskBand.low))

abbrev pub confidence_of : ℕ → Confidence
confidence_of so_far =
    if leb 3 so_far
    then Confidence.high_confidence
    else (if leb 1 so_far then Confidence.medium_confidence else Confidence.low_confidence)

unfoldable pub breakdown_of : DelinquencyRiskInput → List (ScoreFactor Factor)
breakdown_of input =
    buffer_points (buffer_ratio_of input.cumulative_due input.cumulative_paid)
    ++ (gap_points input.days_since_last_repayment input.typical_installment_interval_days
          input.installments_so_far
        ++ (rating_points input.customer_risk_rating
            ++ push_if input.has_other_loans_in_arrears Factor.other_arrears 20))

unfoldable pub assess_delinquency_risk : DelinquencyRiskInput → DelinquencyRiskResult
assess_delinquency_risk input =
    let breakdown = breakdown_of input in
    let risk_score = min 100 (total_points breakdown) in
    record {
      buffer_ratio = buffer_ratio_of input.cumulative_due input.cumulative_paid;
      risk_score = risk_score;
      risk_band = band_of risk_score;
      breakdown = breakdown;
      confidence = confidence_of input.installments_so_far;
    }

gap_points-AtMost :
    (days : Option ℕ) (interval so_far : ℕ) → AtMost 35 (gap_points days interval so_far)
gap_points-AtMost none interval so_far =
    push_if-AtMost 35 (ltb 0 so_far) Factor.no_repayment 30 (omega arith)
gap_points-AtMost (some days) interval so_far = elim (Bool-cases (ltb 0 interval)) [
  | inl some_interval ↦
      let slow = leb (11 * interval) (10 * days) in
      simp some_interval (
        push_or-AtMost 35 (leb (3 * interval) (2 * days)) Factor.late_repayment 25
          (push_if slow Factor.slow_repayment 10) (omega arith)
          (push_if-AtMost 35 slow Factor.slow_repayment 10 (omega arith)))
  | inr no_interval ↦ simp no_interval (AtMost-nil Factor 35)
]

buffer_points-AtMost : (ratio : ℤ) → AtMost 35 (buffer_points ratio)
buffer_points-AtMost ratio =
    push_or-AtMost 35 (ltb_ℤ ratio (negsuc 9)) Factor.far_behind 35 _ (omega arith) (
      push_or-AtMost 35 (ltb_ℤ ratio (pos 0)) Factor.behind 20 _ (omega arith)
        (push_if-AtMost 35 (ltb_ℤ ratio (pos 5)) Factor.thin_buffer 10 (omega arith)))

rating_points-AtMost : (r : RiskRating) → AtMost 35 (rating_points r)
rating_points-AtMost RiskRating.high = push_if-AtMost 35 true Factor.rating_high 15 (omega arith)
rating_points-AtMost RiskRating.medium = push_if-AtMost 35 true Factor.rating_medium 5 (omega arith)
rating_points-AtMost RiskRating.low = AtMost-nil Factor 35
rating_points-AtMost RiskRating.unrated = AtMost-nil Factor 35

breakdown-AtMost : (input : DelinquencyRiskInput) → AtMost 35 (breakdown_of input)
unfolding breakdown_of
breakdown-AtMost input =
    AtMost-append 35 _ _
      (buffer_points-AtMost (buffer_ratio_of input.cumulative_due input.cumulative_paid))
      (AtMost-append 35 _ _
        (gap_points-AtMost input.days_since_last_repayment input.typical_installment_interval_days
          input.installments_so_far)
        (AtMost-append 35 _ _ (rating_points-AtMost input.customer_risk_rating) (
          push_if-AtMost 35 input.has_other_loans_in_arrears Factor.other_arrears 20
            (omega arith))))

high_needs_points : (score : ℕ) → band_of (min 100 score) ≡ RiskBand.high → 35 < score
high_needs_points score h = ground arith

-- Where the band is HIGH, at least two of the disclosed factors apply: no single signal is enough.
pub high_has_two_factors :
    (input : DelinquencyRiskInput)
    → (assess_delinquency_risk input).risk_band ≡ RiskBand.high
    → 2 ≤ length (assess_delinquency_risk input).breakdown
unfolding assess_delinquency_risk
high_has_two_factors input h =
    two_factors 35 (breakdown_of input) (breakdown-AtMost input)
      (high_needs_points (total_points (breakdown_of input)) h)
