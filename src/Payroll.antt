-- ===== src/Payroll.antt =====
-- The journals of a payroll run, api/src/lib/payrollAccounting.ts.
mod Tests
pub mod Balance
pub mod Run
pub mod Salary
pub mod Setup
pub mod Tax
pub mod Totals
use nexus_efos.Common.{ℕ, ◌+◌, Bool, ◌||◌, List, [], ◌∷◌, filter, ltb}
use nexus_efos.Common.Rounding.{round2}
use nexus_efos.Ledger.Journals.{LineInput}
use nexus_efos.Ledger.Journals.Lines.{debit_line, credit_line, is_nonzero}

pub record PayrollAccrualInputs : Type 0 where
  pub total_gross : ℕ
  pub total_paye : ℕ
  pub total_ssnit_employee : ℕ
  pub total_ssnit_employer_tier1 : ℕ
  pub total_tier2_employer : ℕ
  pub total_other_deductions : ℕ
  pub total_net : ℕ

pub data PayrollGlPurpose : Type 0 where
  salary_expense employer_ssnit_expense employer_tier2_expense paye_payable ssnit_payable
        tier2_payable other_deductions_payable salaries_payable cash_disbursement :
      PayrollGlPurpose

-- All the lines, and those of an amount that is not zero.
abbrev pub accrual_lines : PayrollAccrualInputs → (PayrollGlPurpose → ℕ) → List LineInput
accrual_lines inputs account_ids =
    let total_ssnit_payable =
      round2 (inputs.total_ssnit_employee + inputs.total_ssnit_employer_tier1) 1 in
    debit_line (account_ids PayrollGlPurpose.salary_expense) inputs.total_gross
    ∷ debit_line (account_ids PayrollGlPurpose.employer_ssnit_expense)
        inputs.total_ssnit_employer_tier1
    ∷ debit_line (account_ids PayrollGlPurpose.employer_tier2_expense) inputs.total_tier2_employer
    ∷ credit_line (account_ids PayrollGlPurpose.paye_payable) inputs.total_paye
    ∷ credit_line (account_ids PayrollGlPurpose.ssnit_payable) total_ssnit_payable
    ∷ credit_line (account_ids PayrollGlPurpose.tier2_payable) inputs.total_tier2_employer
    ∷ credit_line (account_ids PayrollGlPurpose.other_deductions_payable)
        inputs.total_other_deductions
    ∷ credit_line (account_ids PayrollGlPurpose.salaries_payable) inputs.total_net
    ∷ []

unfoldable pub build_payroll_accrual_lines :
    PayrollAccrualInputs → (PayrollGlPurpose → ℕ) → List LineInput
build_payroll_accrual_lines inputs account_ids =
    filter is_nonzero (accrual_lines inputs account_ids)

unfoldable pub build_payroll_settlement_lines : ℕ → ℕ → ℕ → List LineInput
build_payroll_settlement_lines total_net salaries cash =
    debit_line salaries total_net ∷ credit_line cash total_net ∷ []
