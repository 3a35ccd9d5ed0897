-- ===== src/Payroll/Run.antt =====
-- Payroll runs: `/periods/:periodId/process`, `/runs/:id/request-approval`, `/runs/:id/mark-paid` and
-- `/runs/:id/reverse` of api/src/routes/payroll.routes.ts, and `case "PAYROLL_RUN_APPROVAL"` of
-- api/src/routes/approvals.routes.ts. The state is that of one institution.
mod Tests
pub mod Balanced
use nexus_efos.Common.{
  ℕ, ◌+◌, ◌-◌, ◌*◌, Bool, true, false, not, ◌&&◌, ◌||◌, Option, none, some, List, [], ◌∷◌, ◌++◌,
  map, filter, any, length, ◌==◌, if◌then◌else◌, sum_by,
}
use nexus_efos.Common.Rounding.{round2}
use nexus_efos.Common.Table.{Table, get, set}
use nexus_efos.Common.Result.{
  Result, ok, err, guard, require, ◌>>=◌, ◌>>◌, bad_request, not_found, server_error,
}
use nexus_efos.Ledger.Posting.{Books, is_postable, post_automatic}
use nexus_efos.Ledger.Journals.{LineInput, join_lines, is_balanced_input}
use nexus_efos.Payroll.{
  PayrollAccrualInputs, PayrollGlPurpose, build_payroll_accrual_lines,
  build_payroll_settlement_lines,
}
use nexus_efos.Payroll.Salary.{
  EarningCode, is_active_rate, EmployeeAllowance, EmployeeDeduction, SalaryStructureStatus,
  EmployeeSalaryStructure, RateName, StatutoryContributionRate, TaxTable, PayrollEntry, Rates,
  amount_of, allowance_of, deduction_of, is_taxable, contribution, payroll_entry,
  is_active_structure, is_named, find, active_rate,
}

pub data PayrollRunStatus : Type 0 where
  draft processing processed pending_approval approved paid reversed : PayrollRunStatus

-- A journal's id is its position in the books.
pub record PayrollRun : Type 0 where
  pub payroll_period_id : ℕ
  pub status : PayrollRunStatus
  pub total_gross : ℕ
  pub total_deductions : ℕ
  pub total_net : ℕ
  pub entries : List PayrollEntry
  pub accrual_journal_id : Option ℕ
  pub settlement_journal_id : Option ℕ

pub data PayrollPeriodStatus : Type 0 where
  open_period processing pending_approval approved paid closed : PayrollPeriodStatus

pub record PayrollPeriod : Type 0 where
  pub calendar_id : ℕ
  pub start_date : ℕ
  pub end_date : ℕ
  pub status : PayrollPeriodStatus

-- The requests that are sent to the approval workflow, each with its target.
pub data PayrollRequest : Type 0 where
  run_approval structure_change : ℕ → PayrollRequest

pub record PayrollDb : Type 0 where
  pub periods : Table PayrollPeriod
  pub grades : Table (ℕ × ℕ)
  pub earning_codes : Table EarningCode
  pub structures : Table EmployeeSalaryStructure
  pub tax_tables : Table TaxTable
  pub rates : Table StatutoryContributionRate
  pub requests : List PayrollRequest
  pub mappings : PayrollGlPurpose → Option ℕ
  pub runs : Table PayrollRun
  pub books : Books

-- What `/process` has checked, and the entries that it writes from it.
abbrev pub run_of : ℕ → List PayrollEntry → PayrollRun
run_of period_id entries = record {
  payroll_period_id = period_id;
  status = PayrollRunStatus.processed;
  total_gross = round2 (sum_by (λ e. e.gross_pay) entries) 1;
  total_deductions =
      round2 (sum_by (λ e. e.paye + e.ssnit_employee + e.other_deductions) entries) 1;
  total_net = round2 (sum_by (λ e. e.net_pay) entries) 1;
  entries = entries;
  accrual_journal_id = none;
  settlement_journal_id = none;
}

abbrev pub active_structures : PayrollDb → List EmployeeSalaryStructure
active_structures db = filter is_active_structure (map (λ row. row.1) db.structures)

-- `POST /periods/:periodId/process`, for the run with the id `id`: the rows after it, and the run.
unfoldable pub process : ℕ → ℕ → PayrollDb → Result (PayrollDb × PayrollRun)
process id period_id db = do
  period ← require (get period_id db.periods) not_found
  guard (not (any (λ e. e.1.payroll_period_id == period_id) db.runs)) bad_request
  tax_table ← require (find (λ t. t.active) (map (λ row. row.1) db.tax_tables)) bad_request
  employee ← require (active_rate RateName.ssnit_employee db.rates) bad_request
  employer ← require (active_rate RateName.ssnit_employer_tier1 db.rates) bad_request
  tier2 ← require (active_rate RateName.tier2_employer db.rates) bad_request
  let rates : Rates = record { employee = employee; employer = employer; tier2 = tier2 }
  let entry = payroll_entry db.earning_codes tax_table.bands rates
  let run = run_of period_id (map entry (active_structures db))
  let period' : PayrollPeriod = record period { status = PayrollPeriodStatus.processing }
  ok (
    record db { periods = set period_id period' db.periods; runs = db.runs ++ (id, run) ∷ [] },
    run,
  )

abbrev pub is_processed : PayrollRunStatus → Bool
is_processed PayrollRunStatus.processed = true
is_processed _ = false

abbrev pub is_approved : PayrollRunStatus → Bool
is_approved PayrollRunStatus.approved = true
is_approved _ = false

abbrev pub is_paid : PayrollRunStatus → Bool
is_paid PayrollRunStatus.paid = true
is_paid _ = false

-- `POST /runs/:id/request-approval`
unfoldable pub request_approval : ℕ → PayrollDb → Result PayrollDb
request_approval id db = do
  run ← require (get id db.runs) not_found
  guard (is_processed run.status) bad_request
  ok (record db {
    requests = PayrollRequest.run_approval id ∷ db.requests;
    runs = set id (record run { status = PayrollRunStatus.pending_approval }) db.runs;
  })

abbrev pub is_mapped : PayrollDb → PayrollGlPurpose → Bool
is_mapped db p = elim (db.mappings p) [ none ↦ false | some account ↦ true ]

abbrev pub account_of : PayrollDb → PayrollGlPurpose → ℕ
account_of db p = elim (db.mappings p) [ none ↦ 0 | some account ↦ account ]

-- `REQUIRED_ACCRUAL_PURPOSES.every((p) => accountIdByPurpose[p])`
abbrev pub has_all_mappings : PayrollDb → Bool
has_all_mappings db =
    is_mapped db PayrollGlPurpose.salary_expense
    && is_mapped db PayrollGlPurpose.employer_ssnit_expense
    && is_mapped db PayrollGlPurpose.employer_tier2_expense
    && is_mapped db PayrollGlPurpose.paye_payable
    && is_mapped db PayrollGlPurpose.ssnit_payable
    && is_mapped db PayrollGlPurpose.tier2_payable
    && is_mapped db PayrollGlPurpose.other_deductions_payable
    && is_mapped db PayrollGlPurpose.salaries_payable

-- The totals of the entries, with the run's own gross and net.
unfoldable pub accrual_inputs : PayrollRun → PayrollAccrualInputs
accrual_inputs run = record {
  total_gross = run.total_gross;
  total_paye = sum_by (λ e. e.paye) run.entries;
  total_ssnit_employee = sum_by (λ e. e.ssnit_employee) run.entries;
  total_ssnit_employer_tier1 = sum_by (λ e. e.ssnit_employer_tier1) run.entries;
  total_tier2_employer = sum_by (λ e. e.tier2_employer) run.entries;
  total_other_deductions = sum_by (λ e. e.other_deductions) run.entries;
  total_net = run.total_net;
}

-- `journal.create` and the loop over its lines: the books after, and the journal's id.
abbrev pub post_journal : ℕ → List LineInput → Books → Result (Books × Option ℕ)
post_journal posting_date lines books = do
  joined ← require (join_lines lines books.accounts) server_error
  posted ← require (post_automatic posting_date joined books) server_error
  ok (posted, some (length books.journals))

-- The accrual journal, or none where it is not posted.
unfoldable pub post_accrual : ℕ → PayrollRun → PayrollDb → Result (Books × Option ℕ)
post_accrual now run db =
    let posting_date : ℕ = elim (get run.payroll_period_id db.periods) [
      | none ↦ now
      | some period ↦ period.end_date
    ] in
    let lines = build_payroll_accrual_lines (accrual_inputs run) (account_of db) in
    elim (has_all_mappings db
      && is_postable db.books.periods posting_date
      && is_balanced_input lines) [
        | false ↦ ok (db.books, none)
        | true ↦ post_journal posting_date lines db.books
      ]

-- `case "PAYROLL_RUN_APPROVAL"`, which does not look at the run's status.
unfoldable pub approve : ℕ → ℕ → PayrollDb → Result PayrollDb
approve now id db = do
  run ← require (get id db.runs) server_error
  posted ← post_accrual now run db
  let run' : PayrollRun = record run {
    status = PayrollRunStatus.approved;
    accrual_journal_id = posted.1;
  }
  ok (record db { books = posted.0; runs = set id run' db.runs })

-- The branch of `/reject` for a payroll run.
unfoldable pub reject : ℕ → PayrollDb → Result PayrollDb
reject id db = do
  run ← require (get id db.runs) server_error
  ok (record db { runs = set id (record run { status = PayrollRunStatus.processed }) db.runs })

-- The settlement journal, or none where it is not posted.
unfoldable pub post_settlement : ℕ → PayrollRun → PayrollDb → Result (Books × Option ℕ)
post_settlement now run db = elim run.accrual_journal_id [
  | none ↦ ok (db.books, none)
  | some accrual ↦
      let salaries = account_of db PayrollGlPurpose.salaries_payable in
      let cash = account_of db PayrollGlPurpose.cash_disbursement in
      elim (is_mapped db PayrollGlPurpose.salaries_payable
        && is_mapped db PayrollGlPurpose.cash_disbursement
        && is_postable db.books.periods now) [
          | false ↦ ok (db.books, none)
          | true ↦
              post_journal now (build_payroll_settlement_lines run.total_net salaries cash) db.books
        ]
]

-- `POST /runs/:id/mark-paid`
unfoldable pub mark_paid : ℕ → ℕ → PayrollDb → Result PayrollDb
mark_paid now id db = do
  run ← require (get id db.runs) not_found
  guard (is_approved run.status) bad_request
  posted ← post_settlement now run db
  let run' : PayrollRun = record run {
    status = PayrollRunStatus.paid;
    settlement_journal_id = posted.1;
  }
  ok (record db { books = posted.0; runs = set id run' db.runs })

-- `POST /runs/:id/reverse`, with a reason: no journal is posted.
unfoldable pub reverse : ℕ → PayrollDb → Result PayrollDb
reverse id db = do
  run ← require (get id db.runs) not_found
  guard (is_approved run.status || is_paid run.status) bad_request
  ok (record db { runs = set id (record run { status = PayrollRunStatus.reversed }) db.runs })
