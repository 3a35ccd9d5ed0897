-- ===== src/Payroll/Run/Tests.antt =====
-- A run over one active salary, and one where the deductions are more than the pay.
use nexus_efos.Common.{ℕ, ◌≡◌, refl, true, false, all, arith, some, none, List, [], ◌∷◌, sum_by}
use nexus_efos.Common.Rounding.{round2}
use nexus_efos.Common.Table.{Table}
use nexus_efos.Common.Result.{ok, settle}
use nexus_efos.Ledger.Posting.{is_postable}
use nexus_efos.Ledger.Journals.{is_balanced_input, is_one_sided}
use nexus_efos.Payroll.{build_payroll_accrual_lines}
use nexus_efos.Payroll.Tax.{TaxBand, calculate_paye, calculate_statutory_contribution}
use nexus_efos.Payroll.Salary.{
  EmployeeDeduction, EmployeeSalaryStructure, SalaryStructureStatus, StatutoryContributionRate,
  RateName, PayrollEntry, payroll_entry,
}
use nexus_efos.Payroll.Run.{
  PayrollPeriod, PayrollPeriodStatus, PayrollRequest, PayrollRun, PayrollRunStatus, PayrollDb,
  process, accrual_inputs, request_approval, post_accrual, approve, reject, post_settlement,
  mark_paid, reverse,
}
use nexus_efos.Payroll.Run.Balanced.{is_covered, processed_run_balances}

abbrev bands : List TaxBand
bands =
    (record { lower_bound = 0; upper_bound = some 49000; rate = 0 })
    ∷ (record { lower_bound = 49000; upper_bound = some 60000; rate = 500 })
    ∷ (record { lower_bound = 60000; upper_bound = none; rate = 1750 })
    ∷ []

abbrev rate_row : RateName → ℕ → StatutoryContributionRate
rate_row name rate = record {
  name = name;
  rate = rate;
  ceiling = none;
  minimum = none;
  active = true;
}

abbrev structure : SalaryStructureStatus → EmployeeDeduction → EmployeeSalaryStructure
structure status deduction = record {
  employee_id = 1;
  basic_salary = 100000;
  status = status;
  allowances = (record { earning_code_id = 1; amount = 5000; is_percentage_of_basic = false }) ∷ [];
  deductions = deduction ∷ [];
}

abbrev period : PayrollPeriodStatus → PayrollPeriod
period status = record { calendar_id = 1; start_date = 1; end_date = 30; status = status }

abbrev db_of : EmployeeDeduction → PayrollDb
db_of deduction = record {
  periods = (1, period PayrollPeriodStatus.open_period) ∷ [];
  grades = [];
  earning_codes = (1, record { code = 5; taxable = true }) ∷ [];
  structures =
      (1, structure SalaryStructureStatus.draft deduction)
      ∷ (2, structure SalaryStructureStatus.active deduction)
      ∷ [];
  tax_tables = (1, record { bands = bands; active = true }) ∷ [];
  rates =
      (1, rate_row RateName.ssnit_employee 550)
      ∷ (2, rate_row RateName.ssnit_employer_tier1 1300)
      ∷ (3, rate_row RateName.tier2_employer 500)
      ∷ [];
  requests = [];
  mappings = λ purpose. some 7;
  runs = [];
  books = record { accounts = []; periods = []; journals = [] };
}

abbrev tenth : EmployeeDeduction
tenth = record { amount = 1000; is_percentage_of_basic = true; active = true }

abbrev entry : PayrollEntry
entry = record {
  employee_id = 1;
  basic_salary = 100000;
  gross_pay = 105000;
  taxable_income = 105000;
  paye = 8425;
  ssnit_employee = 5500;
  ssnit_employer_tier1 = 13000;
  tier2_employer = 5000;
  other_deductions = 10000;
  net_pay = 81075;
}

abbrev run : PayrollRun
run = record {
  payroll_period_id = 1;
  status = PayrollRunStatus.processed;
  total_gross = 105000;
  total_deductions = 23925;
  total_net = 81075;
  entries = entry ∷ [];
  accrual_journal_id = none;
  settlement_journal_id = none;
}

abbrev processing : Table PayrollPeriod
processing = (1, period PayrollPeriodStatus.processing) ∷ []

abbrev db_after : PayrollDb
db_after = record (db_of tenth) { periods = processing; runs = (3, run) ∷ [] }

process_example : process 3 1 (db_of tenth) ≡ ok (db_after, run)
unfolding process payroll_entry calculate_paye calculate_statutory_contribution round2 sum_by
process_example = refl

processed_run_balances_example :
    let lines = build_payroll_accrual_lines (accrual_inputs run) (λ purpose. 7) in
    (is_balanced_input lines ≡ true) × (all is_one_sided lines ≡ true)
processed_run_balances_example =
    processed_run_balances 3 1 (db_of tenth) db_after run (λ purpose. 7) process_example
      (ground arith)

-- A deduction of 950.00 from a pay of 1050.00 leaves no net pay, and a run that is approved, paid and
-- reversed without any journal.
abbrev large : EmployeeDeduction
large = record { amount = 95000; is_percentage_of_basic = false; active = true }

abbrev entry_large : PayrollEntry
entry_large = record entry { other_deductions = 95000; net_pay = 0 }

abbrev run_large : PayrollRun
run_large = record run { total_deductions = 108925; total_net = 0; entries = entry_large ∷ [] }

abbrev db_large : PayrollRun → PayrollDb
db_large row = record (db_of large) { periods = processing; runs = (3, row) ∷ [] }

process_clamped : process 3 1 (db_of large) ≡ ok (db_large run_large, run_large)
unfolding process payroll_entry calculate_paye calculate_statutory_contribution round2 sum_by
process_clamped = refl

uncovered : all is_covered run_large.entries ≡ false
uncovered = ground arith

approve_clamped :
    approve 31 3 (db_large run_large)
    ≡ ok (db_large (record run_large { status = PayrollRunStatus.approved }))
unfolding approve post_accrual accrual_inputs build_payroll_accrual_lines round2 sum_by is_postable
approve_clamped = refl

mark_paid_clamped :
    mark_paid 31 3 (db_large (record run_large { status = PayrollRunStatus.approved }))
    ≡ ok (db_large (record run_large { status = PayrollRunStatus.paid }))
unfolding mark_paid post_settlement
mark_paid_clamped = refl

reverse_clamped :
    reverse 3 (db_large (record run_large { status = PayrollRunStatus.paid }))
    ≡ ok (db_large (record run_large { status = PayrollRunStatus.reversed }))
unfolding reverse
reverse_clamped = refl

-- A rejected run can be sent again.
request_clamped :
    settle
      (db_large run_large)
      (reject 3 (settle (db_large run_large) (request_approval 3 (db_large run_large))))
    ≡ record (db_large run_large) { requests = PayrollRequest.run_approval 3 ∷ [] }
unfolding request_approval reject
request_clamped = refl
