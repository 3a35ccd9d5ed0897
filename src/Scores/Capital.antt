-- ===== src/Scores/Capital.antt =====
-- The regulatory classification and risk weight of a loan, api/src/lib/capitalAdequacy.ts.
-- Provision rates and weights are in percent, amounts in cents.
use nexus_efos.Common.{
  ℕ, ◌*◌, ◌≤◌, ◌≡◌, ◌↔◌, arith, Bool, true, false, ◌&&◌, ltb, leb, if◌then◌else◌,
}

pub data RegulatoryClassification : Type 0 where
  current olem substandard doubtful loss : RegulatoryClassification

pub record ClassificationResult : Type 0 where
  pub classification : RegulatoryClassification
  pub provision_rate : ℕ

pub data CustomerSegment : Type 0 where
  individual business farmer_group womens_group youth corporate : CustomerSegment

pub record LoanForRiskWeight : Type 0 where
  pub outstanding : ℕ
  pub days_in_arrears : ℕ
  pub customer_segment : CustomerSegment

abbrev pub past_due_threshold_days : ℕ
past_due_threshold_days = 90

abbrev pub retail_max_exposure : ℕ
retail_max_exposure = 500000 * 100

abbrev result : RegulatoryClassification → ℕ → ClassificationResult
result c rate = record { classification = c; provision_rate = rate }

unfoldable pub classify_loan_for_regulatory : ℕ → ClassificationResult
unfolding result
classify_loan_for_regulatory days =
    if leb days 30
    then result RegulatoryClassification.current 1
    else (if leb days past_due_threshold_days
        then result RegulatoryClassification.olem 10
        else (if leb days 180
            then result RegulatoryClassification.substandard 25
            else (if leb days 365
                then result RegulatoryClassification.doubtful 50
                else result RegulatoryClassification.loss 100)))

abbrev pub past_due_weight : RegulatoryClassification → ℕ
past_due_weight RegulatoryClassification.substandard = 150
past_due_weight RegulatoryClassification.doubtful = 100
past_due_weight _ = 0

abbrev pub is_individual : CustomerSegment → Bool
is_individual CustomerSegment.individual = true
is_individual _ = false

unfoldable pub loan_risk_weight_percent : LoanForRiskWeight → ℕ
loan_risk_weight_percent loan =
    if ltb past_due_threshold_days loan.days_in_arrears
    then past_due_weight (classify_loan_for_regulatory loan.days_in_arrears).classification
    else (if is_individual loan.customer_segment && leb loan.outstanding retail_max_exposure
        then 75
        else 100)

-- A loan that is longer in arrears never has the lower provision rate.
pub provision_rate_mono :
    (d d' : ℕ)
    → d ≤ d'
    → (classify_loan_for_regulatory d).provision_rate
      ≤ (classify_loan_for_regulatory d').provision_rate
unfolding classify_loan_for_regulatory
provision_rate_mono d d' h = ground arith

-- The weight is 0 exactly for the loans that are provisioned in full.
pub zero_weight_iff :
    (loan : LoanForRiskWeight)
    → (loan_risk_weight_percent loan ≡ 0)
      ↔ ((classify_loan_for_regulatory loan.days_in_arrears).provision_rate ≡ 100)
unfolding loan_risk_weight_percent classify_loan_for_regulatory
zero_weight_iff loan = ground arith
