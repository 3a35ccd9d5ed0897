-- ===== src/Payroll/Setup/Tests.antt =====
-- Two structures of one employee, both approved, and a run over them.
use nexus_efos.Common.{ℕ, ◌≡◌, refl, true, false, none, List, [], ◌∷◌, arith, map, sum_by}
use nexus_efos.Common.Rounding.{round2}
use nexus_efos.Common.Result.{err, bad_request}
use nexus_efos.Payroll.Tax.{calculate_paye, calculate_statutory_contribution}
use nexus_efos.Payroll.Salary.{RateName, payroll_entry}
use nexus_efos.Payroll.Run.{PayrollDb, PayrollRun, process, request_approval, approve, post_accrual}
use nexus_efos.Payroll.Setup.{
  StructureRequest, create_period, create_tax_table, create_rate, activate_tax_table, activate_rate,
  create_structure, request_structure, approve_structure,
}
use nexus_efos.Payroll.Setup.Active.{IsOnce}
use nexus_efos.Payroll.Setup.Once.{Op, perform, run, run-IsOnce}

abbrev empty : PayrollDb
empty = record {
  periods = [];
  grades = [];
  earning_codes = [];
  structures = [];
  tax_tables = [];
  rates = [];
  requests = [];
  mappings = λ purpose. none;
  runs = [];
  books = record { accounts = []; periods = []; journals = [] };
}

abbrev salary : ℕ → StructureRequest
salary basic = record {
  employee_id = 9;
  salary_grade_id = none;
  basic_salary = basic;
  allowances = [];
  deductions = (record { amount = 500; is_percentage_of_basic = true; active = false }) ∷ [];
}

abbrev requests : List Op
requests =
    Op.period_op 1 1 1 30
    ∷ Op.table_op 1 ((record { lower_bound = 0; upper_bound = none; rate = 1000 }) ∷ [])
    ∷ Op.activate_table_op 1
    ∷ Op.rate_op 1 RateName.ssnit_employee 550 none none
    ∷ Op.rate_op 2 RateName.ssnit_employer_tier1 1300 none none
    ∷ Op.rate_op 3 RateName.tier2_employer 500 none none
    ∷ Op.activate_rate_op 1
    ∷ Op.activate_rate_op 2
    ∷ Op.activate_rate_op 3
    ∷ Op.structure_op 1 (salary 100000)
    ∷ Op.structure_op 2 (salary 120000)
    ∷ Op.request_structure_op 1
    ∷ Op.approve_structure_op 1
    ∷ Op.request_structure_op 2
    ∷ Op.approve_structure_op 2
    ∷ Op.process_op 1 1
    ∷ Op.process_op 2 1
    ∷ Op.request_op 1
    ∷ Op.approve_op 40 1
    ∷ []

empty-IsOnce : IsOnce empty
unfolding sum_by
empty-IsOnce = (λ e. omega arith, omega arith, λ name. omega arith, λ period_id e. omega arith)

run-IsOnce_example : IsOnce (run requests empty)
run-IsOnce_example = run-IsOnce requests empty empty-IsOnce

-- One run, with one entry, of the second structure.
net_pays : PayrollRun → List ℕ
net_pays row = map (λ e. e.net_pay) row.entries

run_requests : map (λ row. net_pays row.1) (run requests empty).runs ≡ (95400 ∷ []) ∷ []
unfolding run perform create_period create_tax_table activate_tax_table create_rate activate_rate
    create_structure request_structure approve_structure process request_approval approve
    post_accrual payroll_entry calculate_paye calculate_statutory_contribution round2 sum_by
    net_pays
run_requests = refl

-- A second period of the calendar may not overlap the first.
period_overlap :
    perform (Op.period_op 2 1 30 60) (run (Op.period_op 1 1 1 30 ∷ []) empty) ≡ err bad_request
unfolding run perform create_period
period_overlap = refl
