-- ===== src/Scores/Tests.antt =====
-- One customer, one collector and one portfolio.
use nexus_efos.Common.{
  ℕ, ◌+◌, ◌*◌, ◌<◌, ◌≤◌, ◌≡◌, ◌↔◌, refl, true, false, some, none, List, [], ◌∷◌, arith, length,
}
use nexus_efos.Scores.{RiskRating}
use nexus_efos.Scores.Credit
use nexus_efos.Scores.Delinquency
use nexus_efos.Scores.Collector
use nexus_efos.Scores.Portfolio
use nexus_efos.Loan.Repayment.{LoanStatus}

abbrev applicant : Credit.CreditAssessmentInput
applicant = record {
  monthly_income = 400000;
  monthly_expenses = 150000;
  existing_loan_obligations = 60000;
  proposed_installment = 50000;
  customer_risk_rating = RiskRating.medium;
  has_loans_in_arrears = false;
}

approved : (Credit.assess_credit applicant).recommendation ≡ Credit.Recommendation.approve
unfolding Credit.assess_credit Credit.score_of Credit.ratio_of_income nexus_efos.Common.Int.◌+ℤ◌
approved = refl

abbrev borrower : Delinquency.DelinquencyRiskInput
borrower = record {
  cumulative_due = 100000;
  cumulative_paid = 80000;
  days_since_last_repayment = some 60;
  typical_installment_interval_days = 30;
  installments_so_far = 4;
  customer_risk_rating = RiskRating.high;
  has_other_loans_in_arrears = false;
}

high_band : (Delinquency.assess_delinquency_risk borrower).risk_band ≡ Delinquency.RiskBand.high
unfolding Delinquency.assess_delinquency_risk Delinquency.breakdown_of Delinquency.buffer_ratio_of
    nexus_efos.Common.sum_by nexus_efos.Common.Rounding.round2_ℤ
high_band = refl

abbrev collector : Collector.CollectorIntegrityInput
collector = record {
  collector_transaction_count = 40;
  collector_reversal_count = 8;
  institutional_reversal_rate = (5, 100);
  settlement_count = 10;
  variance_settlement_count = 5;
  total_variance_amount = 100;
  total_settled_amount = 100000;
  complaint_count = 0;
}

investigated :
    (Collector.assess_collector_integrity collector).band ≡ Collector.IntegrityBand.investigate
unfolding Collector.assess_collector_integrity Collector.breakdown_of Collector.round3_quotient
    nexus_efos.Common.sum_by nexus_efos.Common.Rounding.round2
investigated = refl

abbrev rows : List Portfolio.LoanRow
rows =
    (record {
      id = 1;
      status = LoanStatus.disbursed;
      principal = 100000;
      days_in_arrears = 45;
      installments = 10000 ∷ 10000 ∷ [];
    })
    ∷ (record {
      id = 2;
      status = LoanStatus.active;
      principal = 50000;
      days_in_arrears = 0;
      installments = [];
    })
    ∷ []
