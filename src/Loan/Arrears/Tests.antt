-- ===== src/Loan/Arrears/Tests.antt =====
-- A loan with two installments, one of them partly paid.
use nexus_efos.Common.{ℕ, ◌*◌, ◌≤◌, ◌≡◌, refl, List, [], ◌∷◌, arith, sum_by}
use nexus_efos.Common.Rounding.{round2}
use nexus_efos.Loan.Arrears.{
  ArrearsInstallment, ArrearsClassification, classify, summarise, calculate_arrears, day,
}
use nexus_efos.Loan.Arrears.Monotone.{rank, arrears_grow}

abbrev installment : ℕ → ℕ → ArrearsInstallment
installment due paid = record {
  due_date = due * day;
  total_due = 1000;
  principal_paid = paid;
  interest_paid = 0;
}

abbrev installments : List ArrearsInstallment
installments = installment 10 400 ∷ installment 40 0 ∷ []

at_day_45 : calculate_arrears installments (45 * day) ≡ record {
  days_in_arrears = 35;
  arrears_amount = 1600;
  classification = ArrearsClassification.arrears_31_60;
}
unfolding calculate_arrears summarise classify round2 sum_by
at_day_45 = refl

arrears_grow_example :
    let r = calculate_arrears installments (20 * day) in
    let r' = calculate_arrears installments (45 * day) in
    (r.days_in_arrears ≤ r'.days_in_arrears)
    × (r.arrears_amount ≤ r'.arrears_amount)
    × (rank r.classification ≤ rank r'.classification)
arrears_grow_example = arrears_grow installments (20 * day) (45 * day) (ground arith)
