-- ===== src/Payroll/Balance.antt =====
-- The totals of the accrual journal.
use nexus_efos.Common.{ℕ, ◌+◌, ◌<◌, ◌≡◌, true, arith, ◌==◌, ◌∙◌, all, sum_by}
use nexus_efos.Common.Rounding.{round2-one}
use nexus_efos.Ledger.Journals.{is_balanced_input, is_one_sided}
use nexus_efos.Ledger.Journals.Lines.{is_nonzero, sum_by-filter, filtered_one_sided}
use nexus_efos.Payroll.{
  PayrollAccrualInputs, PayrollGlPurpose, accrual_lines, build_payroll_accrual_lines,
}

accrual_totals :
    (i : PayrollAccrualInputs) (account_ids : PayrollGlPurpose → ℕ)
    → (sum_by (λ l. l.debit) (accrual_lines i account_ids)
        ≡ i.total_gross + i.total_ssnit_employer_tier1 + i.total_tier2_employer)
      × (sum_by (λ l. l.credit) (accrual_lines i account_ids)
          ≡ i.total_paye
            + (i.total_ssnit_employee + i.total_ssnit_employer_tier1)
            + i.total_tier2_employer
            + i.total_other_deductions
            + i.total_net)
unfolding sum_by
accrual_totals i account_ids = (omega arith, omega (arith, round2-one))

-- The checks that `/journals` makes of the lines: each is either a debit or a credit, and the debits
-- are the credits, which they are exactly if the gross pay is the net pay and what was taken away.
pub payroll_accrual_checks :
    (i : PayrollAccrualInputs) (account_ids : PayrollGlPurpose → ℕ)
    → 0 < i.total_gross + i.total_ssnit_employer_tier1 + i.total_tier2_employer
    → let lines = build_payroll_accrual_lines i account_ids in
      (is_balanced_input lines ≡ (
        i.total_gross
        == i.total_net + i.total_paye + i.total_ssnit_employee + i.total_other_deductions))
      × (all is_one_sided lines ≡ true)
unfolding build_payroll_accrual_lines
payroll_accrual_checks i account_ids some_amount =
    let all_lines = accrual_lines i account_ids in
    let (debits, credits) = accrual_totals i account_ids in
    (
      rw
          (
            sum_by-filter (λ l. l.debit) is_nonzero all_lines (λ x e. ground (arith, e)),
            sum_by-filter (λ l. l.credit) is_nonzero all_lines (λ x e. ground (arith, e)),
            debits,
            credits,
            round2-one,
            round2-one,
          )
          (ground (arith, some_amount)),
      filtered_one_sided all_lines (ground arith),
    )

pub payroll_accrual_balances :
    (i : PayrollAccrualInputs) (account_ids : PayrollGlPurpose → ℕ)
    → i.total_net + i.total_paye + i.total_ssnit_employee + i.total_other_deductions ≡ i.total_gross
    → 0 < i.total_gross + i.total_ssnit_employer_tier1 + i.total_tier2_employer
    → let lines = build_payroll_accrual_lines i account_ids in
      (is_balanced_input lines ≡ true) × (all is_one_sided lines ≡ true)
payroll_accrual_balances i account_ids net some_amount =
    let (balanced, one_sided) = payroll_accrual_checks i account_ids some_amount in
    (balanced ∙ ground (arith, net), one_sided)
