-- ===== src/Scores/Collector.antt =====
-- Collector integrity, api/src/lib/collectorIntegrity.ts. Amounts are in cents and the two rates
-- in thousandths. The institution's reversal rate is the quotient of two counts that
-- api/src/routes/collections.routes.ts computes, here a pair.
use nexus_efos.Common.{
  ℕ, ◌*◌, ◌<◌, ◌≤◌, ◌≡◌, arith, Bool, ◌&&◌, List, [], ◌++◌, ltb, leb, if◌then◌else◌, min, length,
  Bool-cases, inl, inr,
}
use nexus_efos.Common.Rounding.{round2}
use nexus_efos.Scores.{
  Confidence, ScoreFactor, push_if, push_or, total_points, AtMost, two_factors, push_if-AtMost,
  push_or-AtMost, AtMost-append, AtMost-nil,
}

pub record CollectorIntegrityInput : Type 0 where
  pub collector_transaction_count : ℕ
  pub collector_reversal_count : ℕ
  -- reversals and transactions of all collectors; a rate of 0 where there is no transaction
  pub institutional_reversal_rate : ℕ × ℕ
  pub settlement_count : ℕ
  pub variance_settlement_count : ℕ
  pub total_variance_amount : ℕ
  pub total_settled_amount : ℕ
  pub complaint_count : ℕ

pub data IntegrityFactor : Type 0 where
  reversals_3x reversals_2x reversals_10_percent : IntegrityFactor
  variance_half variance_quarter variance_2_percent variance_1_percent : IntegrityFactor
  complaints_3 complaints_1 : IntegrityFactor

pub data IntegrityBand : Type 0 where
  normal watch investigate : IntegrityBand

pub record CollectorIntegrityResult : Type 0 where
  pub collector_reversal_rate : ℕ
  pub variance_rate : ℕ
  pub score : ℕ
  pub band : IntegrityBand
  pub breakdown : List (ScoreFactor IntegrityFactor)
  pub confidence : Confidence

-- `b > 0 ? round3(a / b) : 0`, in thousandths.
unfoldable pub round3_quotient : ℕ → ℕ → ℕ
round3_quotient a b = if ltb 0 b then round2 (1000 * a) b else 0

-- `rate / baseline >= k` for a rate in thousandths and a baseline of reversals / transactions.
abbrev pub reversal_points : ℕ → ℕ × ℕ → List (ScoreFactor IntegrityFactor)
reversal_points rate (reversals, transactions) =
    if ltb 0 reversals && ltb 0 transactions
    then push_or (leb (3 * 1000 * reversals) (rate * transactions)) IntegrityFactor.reversals_3x 30
        (push_if (leb (2 * 1000 * reversals) (rate * transactions)) IntegrityFactor.reversals_2x 15)
    else push_if (ltb 100 rate) IntegrityFactor.reversals_10_percent 15

-- `varianceSettlementCount / settlementCount` is compared with a half and a quarter.
abbrev pub settlement_points : ℕ → ℕ → List (ScoreFactor IntegrityFactor)
settlement_points variances settlements =
    if ltb 0 variances && ltb 0 settlements
    then push_or (leb settlements (2 * variances)) IntegrityFactor.variance_half 25
        (push_if (leb settlements (4 * variances)) IntegrityFactor.variance_quarter 12)
    else []

abbrev pub variance_points : ℕ → List (ScoreFactor IntegrityFactor)
variance_points rate =
    push_or (leb 20 rate) IntegrityFactor.variance_2_percent 20
      (push_if (leb 10 rate) IntegrityFactor.variance_1_percent 10)

abbrev pub complaint_points : ℕ → List (ScoreFactor IntegrityFactor)
complaint_points complaints =
    push_or (leb 3 complaints) IntegrityFactor.complaints_3 25
      (push_if (leb 1 complaints) IntegrityFactor.complaints_1 10)

abbrev pub band_of : ℕ → IntegrityBand
band_of score =
    if leb 50 score
    then IntegrityBand.investigate
    else (if leb 20 score then IntegrityBand.watch else IntegrityBand.normal)

abbrev pub confidence_of : ℕ → ℕ → Confidence
confidence_of transactions settlements =
    if leb 20 transactions && leb 5 settlements
    then Confidence.high_confidence
    else (if leb 5 transactions then Confidence.medium_confidence else Confidence.low_confidence)

unfoldable pub breakdown_of : CollectorIntegrityInput → List (ScoreFactor IntegrityFactor)
breakdown_of input =
    reversal_points
      (round3_quotient input.collector_reversal_count input.collector_transaction_count)
      input.institutional_reversal_rate
    ++ (settlement_points input.variance_settlement_count input.settlement_count
        ++ (variance_points (round3_quotient input.total_variance_amount input.total_settled_amount)
            ++ complaint_points input.complaint_count))

unfoldable pub assess_collector_integrity : CollectorIntegrityInput → CollectorIntegrityResult
assess_collector_integrity input =
    let breakdown = breakdown_of input in
    let score = min 100 (total_points breakdown) in
    record {
      collector_reversal_rate =
          round3_quotient input.collector_reversal_count input.collector_transaction_count;
      variance_rate = round3_quotient input.total_variance_amount input.total_settled_amount;
      score = score;
      band = band_of score;
      breakdown = breakdown;
      confidence = confidence_of input.collector_transaction_count input.settlement_count;
    }

pair-AtMost :
    (c d : Bool) (f g : IntegrityFactor) (p q : ℕ)
    → p ≤ 30
    → q ≤ 30
    → AtMost 30 (push_or c f p (push_if d g q))
pair-AtMost c d f g p q hp hq =
    push_or-AtMost 30 c f p (push_if d g q) hp (push_if-AtMost 30 d g q hq)

reversal_points-AtMost : (rate : ℕ) (baseline : ℕ × ℕ) → AtMost 30 (reversal_points rate baseline)
reversal_points-AtMost rate (reversals, transactions) =
    elim (Bool-cases (ltb 0 reversals && ltb 0 transactions)) [
      | inl compared ↦ simp compared (
          pair-AtMost _ _ IntegrityFactor.reversals_3x IntegrityFactor.reversals_2x 30 15
            (omega arith) (omega arith))
      | inr alone ↦
          simp alone
            (push_if-AtMost 30 (ltb 100 rate) IntegrityFactor.reversals_10_percent 15 (omega arith))
    ]

settlement_points-AtMost : (v s : ℕ) → AtMost 30 (settlement_points v s)
settlement_points-AtMost v s = elim (Bool-cases (ltb 0 v && ltb 0 s)) [
  | inl compared ↦ simp compared (
      pair-AtMost _ _ IntegrityFactor.variance_half IntegrityFactor.variance_quarter 25 12
        (omega arith) (omega arith))
  | inr alone ↦ simp alone (AtMost-nil IntegrityFactor 30)
]

breakdown-AtMost : (input : CollectorIntegrityInput) → AtMost 30 (breakdown_of input)
unfolding breakdown_of
breakdown-AtMost input =
    let rate = round3_quotient input.total_variance_amount input.total_settled_amount in
    AtMost-append 30 _ _
      (reversal_points-AtMost
        (round3_quotient input.collector_reversal_count input.collector_transaction_count)
        input.institutional_reversal_rate)
      (AtMost-append 30 _ _
        (settlement_points-AtMost input.variance_settlement_count input.settlement_count)
        (AtMost-append 30 _ _
          (pair-AtMost (leb 20 rate) (leb 10 rate) IntegrityFactor.variance_2_percent
            IntegrityFactor.variance_1_percent 20 10 (omega arith) (omega arith))
          (pair-AtMost (leb 3 input.complaint_count) (leb 1 input.complaint_count)
            IntegrityFactor.complaints_3 IntegrityFactor.complaints_1 25 10 (omega arith)
            (omega arith))))

investigate_needs_points :
    (score : ℕ) → band_of (min 100 score) ≡ IntegrityBand.investigate → 30 < score
investigate_needs_points score h = ground arith

-- Where a collector is marked for investigation, at least two of the disclosed factors apply: one
-- signal alone, an unusual reversal rate for example, is not enough.
pub investigate_has_two_factors :
    (input : CollectorIntegrityInput)
    → (assess_collector_integrity input).band ≡ IntegrityBand.investigate
    → 2 ≤ length (assess_collector_integrity input).breakdown
unfolding assess_collector_integrity
investigate_has_two_factors input h =
    two_factors 30 (breakdown_of input) (breakdown-AtMost input)
      (investigate_needs_points (total_points (breakdown_of input)) h)
