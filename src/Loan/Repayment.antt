-- ===== src/Loan/Repayment.antt =====
-- `applyLoanRepaymentInTx` of api/src/lib/loanRepayment.ts: the one path by which a repayment reaches
-- the installments and the status of a loan.
pub mod Persisted
pub mod Closing
use nexus_efos.Common.{
  ℕ, Bool, true, false, ◌&&◌, List, [], ◌∷◌, ◌++◌, all, length, ltb, ◌==◌, if◌then◌else◌,
}
use nexus_efos.Loan.Allocation.{
  Installment, InstallmentStatus, AllocationUpdate, allocate_repayment,
}

pub data LoanStatus : Type 0 where
  pending approved rejected disbursed active closed defaulted written_off : LoanStatus

abbrev pub is_disbursed : LoanStatus → Bool
is_disbursed LoanStatus.disbursed = true
is_disbursed _ = false

abbrev pub is_paid : InstallmentStatus → Bool
is_paid InstallmentStatus.paid = true
is_paid _ = false

-- A loan with its installments in order of their number, and its repayments.
pub record Loan : Type 0 where
  pub status : LoanStatus
  pub installments : List Installment
  pub repayments : List ℕ

-- `loanInstallment.update({ where: { id }, data: … })`
abbrev pub update_row : AllocationUpdate → List Installment → List Installment
update_row u [] = []
update_row u (i ∷ rows) =
    let rest = update_row u rows in
    if u.id == i.id
    then (record i {
      interest_paid = u.new_interest_paid;
      principal_paid = u.new_principal_paid;
      status = u.new_status;
    })
      ∷ rows
    else i ∷ rest

abbrev pub update_rows : List AllocationUpdate → List Installment → List Installment
update_rows [] rows = rows
update_rows (u ∷ updates) rows = update_rows updates (update_row u rows)

-- `allInstallments.length > 0 && allInstallments.every((i) => i.status === "PAID")`
abbrev pub is_repaid : List Installment → Bool
is_repaid rows = ltb 0 (length rows) && all (λ i. is_paid i.status) rows

-- The new state of the loan, and `loanClosed`.
unfoldable pub apply_loan_repayment_in_tx : Loan → ℕ → Loan × Bool
apply_loan_repayment_in_tx loan amount =
    let updates = (allocate_repayment loan.installments amount).updates in
    let rows = update_rows updates loan.installments in
    let loan_closed = is_repaid rows in
    let status =
      if loan_closed
      then LoanStatus.closed
      else (if is_disbursed loan.status then LoanStatus.active else loan.status) in
    (
      record {
        status = status;
        installments = rows;
        repayments = loan.repayments ++ (amount ∷ []);
      },
      loan_closed,
    )
