-- ===== src/Loan/Tests.antt =====
-- Loans on concrete data.
use nexus_efos.Common.{ℕ, ◌≡◌, ◌+◌, ◌-◌, refl, true, false, List, [], ◌∷◌, All, arith, inl, sum_by}
use nexus_efos.Loan.Allocation.{Installment, InstallmentStatus, allocate_repayment}
use nexus_efos.Loan.Allocation.Sums.{outstanding, paid_total, allocate_repayment-conserves}
use nexus_efos.Loan.Allocation.Order.{IsWithin, IsOldestFirst, allocate_repayment_order}
use nexus_efos.Loan.Allocation.Replay.{allocate_repayment-replay}
use nexus_efos.Loan.Repayment.{Loan, LoanStatus, update_rows, apply_loan_repayment_in_tx}
use nexus_efos.Loan.Repayment.Persisted.{HasUniqueIds, update_rows-allocate_repayment}
use nexus_efos.Loan.Repayment.Closing.{
  is_closed, repay_each, repayment_closes, stuck_loan_stays_open,
}

abbrev installment : ℕ → ℕ → ℕ → Installment
installment id interest principal = record {
  id = id;
  interest_due = interest;
  principal_due = principal;
  interest_paid = 0;
  principal_paid = 0;
  status = InstallmentStatus.pending;
}

abbrev rows : List Installment
rows = installment 7 100 1000 ∷ installment 8 100 1000 ∷ []

abbrev loan : Loan
loan = record { status = LoanStatus.disbursed; installments = rows; repayments = [] }

-- One cent spread over three installments, as the schedule of the remaining balance rounds it.
abbrev stuck_loan : Loan
stuck_loan = record {
  status = LoanStatus.disbursed;
  installments = installment 1 0 0 ∷ installment 2 0 0 ∷ installment 3 0 1 ∷ [];
  repayments = [];
}

rows-HasUniqueIds : HasUniqueIds rows
rows-HasUniqueIds = (((λ p. ground arith), tt), (tt, tt))

allocate_repayment-conserves_example :
    let a = allocate_repayment rows 1150 in
    (sum_by paid_total a.installments + a.remaining ≡ sum_by paid_total rows + 1150)
    × (a.remaining ≡ 1150 - sum_by outstanding rows)
    × (sum_by outstanding a.installments ≡ sum_by outstanding rows - 1150)
allocate_repayment-conserves_example = allocate_repayment-conserves rows 1150

allocate_repayment_order_example :
    let after = (allocate_repayment rows 1150).installments in
    IsOldestFirst rows after × (All IsWithin rows → All IsWithin after)
allocate_repayment_order_example = allocate_repayment_order rows 1150

allocate_repayment-replay_example :
    (allocate_repayment (allocate_repayment rows 1150).installments 50).installments
    ≡ (allocate_repayment rows 1200).installments
allocate_repayment-replay_example = allocate_repayment-replay rows 1150 50

update_rows-allocate_repayment_example :
    let a = allocate_repayment rows 1150 in update_rows a.updates rows ≡ a.installments
update_rows-allocate_repayment_example = update_rows-allocate_repayment rows 1150 rows-HasUniqueIds

repayment_closes_example :
    let (loan', loan_closed) = apply_loan_repayment_in_tx loan 2200 in
    (loan_closed ≡ true) × (loan'.status ≡ LoanStatus.closed)
repayment_closes_example =
    repayment_closes loan 2200 rows-HasUniqueIds (ground arith)
      (inl (ground arith), (inl (ground arith), tt)) (unfold sum_by in ground arith)

stuck_loan_stays_open_example : is_closed (repay_each stuck_loan (1 ∷ 1000 ∷ [])).status ≡ false
stuck_loan_stays_open_example =
    stuck_loan_stays_open (1 ∷ 1000 ∷ []) stuck_loan
      (((λ p. ground arith), ((λ p. ground arith), tt)), (((λ p. ground arith), tt), (tt, tt)))
      (inl (refl, refl)) refl
