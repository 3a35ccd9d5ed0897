-- ===== src/Scores/Portfolio.antt =====
-- The loan portfolio and the ratio at risk, api/src/lib/portfolio.ts. Amounts are in cents and
-- the ratio in hundredths of a percent. A loan's row stands with the principal paid on each of its
-- installments, as the query returns them.
use nexus_efos.Common.{
  ℕ, ◌+◌, ◌-◌, ◌*◌, ◌≤◌, ◌≡◌, arith, Bool, true, false, List, [], ◌∷◌, map, filter, ltb, ◌==◌,
  if◌then◌else◌, sum_by, sum_by-cons, Bool-cases, inl, inr,
}
use nexus_efos.Loan.Repayment.{LoanStatus}
use nexus_efos.Common.Rounding.{round2, round2_le, round2_mono}

pub record LoanRow : Type 0 where
  pub id : ℕ
  pub status : LoanStatus
  pub principal : ℕ
  pub days_in_arrears : ℕ
  pub installments : List ℕ

pub record OutstandingLoan : Type 0 where
  pub row : LoanRow
  pub outstanding : ℕ

-- `status: { in: ["DISBURSED", "ACTIVE", "DEFAULTED"] }`
abbrev pub is_outstanding : LoanStatus → Bool
is_outstanding LoanStatus.disbursed = true
is_outstanding LoanStatus.active = true
is_outstanding LoanStatus.defaulted = true
is_outstanding _ = false

unfoldable pub with_balance : LoanRow → OutstandingLoan
with_balance l = record {
  row = l;
  outstanding = round2 (l.principal - sum_by (λ paid. paid) l.installments) 1;
}

unfoldable pub outstanding_loans_with_balance : List LoanRow → List OutstandingLoan
outstanding_loans_with_balance loans =
    map with_balance (filter (λ l. is_outstanding l.status) loans)

abbrev pub total_outstanding : List OutstandingLoan → ℕ
total_outstanding loans = sum_by (λ l. l.outstanding) loans

abbrev pub at_risk : ℕ → List OutstandingLoan → List OutstandingLoan
at_risk threshold loans = filter (λ l. ltb threshold l.row.days_in_arrears) loans

unfoldable pub par_ratio : List OutstandingLoan → ℕ → ℕ
par_ratio loans threshold_days =
    if total_outstanding loans == 0
    then 0
    else round2 (total_outstanding (at_risk threshold_days loans) * 10000) (total_outstanding loans)

at_risk-cons :
    (t : ℕ) (l : OutstandingLoan) (loans : List OutstandingLoan)
    → total_outstanding (at_risk t (l ∷ loans))
      ≡ (if ltb t l.row.days_in_arrears then l.outstanding else 0)
        + total_outstanding (at_risk t loans)
at_risk-cons t l loans = elim (Bool-cases (ltb t l.row.days_in_arrears)) [
  | inl late ↦ simp (late, sum_by-cons)
  | inr in_time ↦ simp in_time (omega arith)
]

at_risk_bounds :
    (t t' : ℕ) (loans : List OutstandingLoan)
    → t ≤ t'
    → (total_outstanding (at_risk t' loans) ≤ total_outstanding (at_risk t loans))
      × (total_outstanding (at_risk t loans) ≤ total_outstanding loans)
at_risk_bounds t t' [] h = (omega arith, omega arith)
at_risk_bounds t t' (l ∷ loans) h =
    let (first, second) = at_risk_bounds t t' loans h in
    rw (at_risk-cons, at_risk-cons, sum_by-cons) (ground arith, ground arith)

-- Under t ≤ t', the portfolio at risk for t is at most 100%, and a longer threshold never raises it.
pub par_ratio_bounds :
    (loans : List OutstandingLoan) (t t' : ℕ)
    → t ≤ t'
    → (par_ratio loans t' ≤ par_ratio loans t) × (par_ratio loans t ≤ 10000)
unfolding par_ratio
par_ratio_bounds loans t t' h =
    let (fewer, part) = at_risk_bounds t t' loans h in
    elim (Bool-cases (total_outstanding loans == 0)) [
      | inl empty ↦ simp empty (omega arith, omega arith)
      | inr some_loans ↦ simp some_loans (
        round2_mono _ _ (total_outstanding loans) (ground arith) (omega arith),
        round2_le _ (total_outstanding loans) 10000 (ground arith) (omega arith),
      )
    ]
