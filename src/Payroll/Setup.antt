-- ===== src/Payroll/Setup.antt =====
-- What a payroll run is configured by: `/periods`, `/salary-grades`, `/earning-codes`, `/tax-tables`,
-- `/statutory-rates`, `/salary-structures` and their activation, of api/src/routes/payroll.routes.ts,
-- with `case "SALARY_STRUCTURE_CHANGE"` of api/src/routes/approvals.routes.ts. The ids of new rows are
-- arguments.
mod Tests
pub mod Active
pub mod RunSteps
pub mod Steps
pub mod Once
use nexus_efos.Common.{
  ℕ, ◌+◌, ◌*◌, Bool, true, false, not, ◌&&◌, Option, none, some, List, [], ◌∷◌, ◌++◌, map, any, all,
  length, ltb, leb, ◌==◌, if◌then◌else◌, sum_by,
}
use nexus_efos.Common.Table.{Table, get, set, update_many}
use nexus_efos.Common.Result.{
  Result, ok, err, guard, require, ◌>>=◌, ◌>>◌, bad_request, not_found, server_error,
}
use nexus_efos.Payroll.Tax.{TaxBand}
use nexus_efos.Payroll.Salary.{
  EarningCode, EmployeeAllowance, EmployeeDeduction, SalaryStructureStatus, EmployeeSalaryStructure,
  RateName, StatutoryContributionRate, TaxTable, is_active_structure, is_active_rate,
}
use nexus_efos.Payroll.Run.{PayrollPeriod, PayrollPeriodStatus, PayrollRequest, PayrollDb}

abbrev pub overlaps : ℕ → ℕ → ℕ → PayrollPeriod → Bool
overlaps calendar_id start_date end_date p =
    p.calendar_id == calendar_id && leb p.start_date end_date && leb start_date p.end_date

-- `POST /periods`
unfoldable pub create_period : ℕ → ℕ → ℕ → ℕ → PayrollDb → Result PayrollDb
create_period id calendar_id start_date end_date db = do
  guard (not (any (λ row. overlaps calendar_id start_date end_date row.1) db.periods)) bad_request
  let period : PayrollPeriod = record {
    calendar_id = calendar_id;
    start_date = start_date;
    end_date = end_date;
    status = PayrollPeriodStatus.open_period;
  }
  ok (record db { periods = db.periods ++ (id, period) ∷ [] })

-- `POST /salary-grades`
unfoldable pub create_grade : ℕ → ℕ → ℕ → PayrollDb → Result PayrollDb
create_grade id min_salary max_salary db = do
  guard (ltb 0 min_salary && ltb 0 max_salary) bad_request
  guard (not (leb max_salary min_salary)) bad_request
  ok (record db { grades = db.grades ++ (id, (min_salary, max_salary)) ∷ [] })

-- `POST /earning-codes`
unfoldable pub create_earning_code : ℕ → EarningCode → PayrollDb → Result PayrollDb
create_earning_code id code db = do
  guard (not (any (λ row. row.1.code == code.code) db.earning_codes)) bad_request
  ok (record db { earning_codes = db.earning_codes ++ (id, code) ∷ [] })

-- `z.number().positive().optional()`
abbrev pub is_positive : Option ℕ → Bool
is_positive none = true
is_positive (some n) = ltb 0 n

-- `POST /tax-tables`, with the bands in order.
unfoldable pub create_tax_table : ℕ → List TaxBand → PayrollDb → Result PayrollDb
create_tax_table id bands db = do
  guard (leb 1 (length bands)) bad_request
  guard (all (λ b. leb b.rate 10000 && is_positive b.upper_bound) bands) bad_request
  ok (record db {
    tax_tables = db.tax_tables ++ (id, record { bands = bands; active = false }) ∷ [];
  })

-- `POST /statutory-rates`
unfoldable pub create_rate : ℕ → RateName → ℕ → Option ℕ → Option ℕ → PayrollDb → Result PayrollDb
create_rate id name rate ceiling minimum db = do
  guard (leb rate 10000 && is_positive ceiling) bad_request
  let row : StatutoryContributionRate = record {
    name = name;
    rate = rate;
    ceiling = ceiling;
    minimum = minimum;
    active = false;
  }
  ok (record db { rates = db.rates ++ (id, row) ∷ [] })

abbrev pub deactivate_table : TaxTable → TaxTable
deactivate_table t = record t { active = false }

-- `POST /tax-tables/:id/activate`
unfoldable pub activate_tax_table : ℕ → PayrollDb → Result PayrollDb
activate_tax_table id db = do
  table ← require (get id db.tax_tables) not_found
  ok (record db {
    tax_tables =
        set id (record table { active = true }) (update_many deactivate_table db.tax_tables);
  })

-- The rates of a name that are active.
abbrev pub deactivate_rate : RateName → StatutoryContributionRate → StatutoryContributionRate
deactivate_rate name r = if is_active_rate name r then record r { active = false } else r

-- `POST /statutory-rates/:id/activate`
unfoldable pub activate_rate : ℕ → PayrollDb → Result PayrollDb
activate_rate id db = do
  rate ← require (get id db.rates) not_found
  ok (record db {
    rates =
        set id (record rate { active = true }) (update_many (deactivate_rate rate.name) db.rates);
  })

-- `salaryStructureSchema`
pub record StructureRequest : Type 0 where
  pub employee_id : ℕ
  pub salary_grade_id : Option ℕ
  pub basic_salary : ℕ
  pub allowances : List EmployeeAllowance
  pub deductions : List EmployeeDeduction

-- `grade && (basicSalary < minSalary || basicSalary > maxSalary)`, negated.
abbrev pub fits_grade : Table (ℕ × ℕ) → Option ℕ → ℕ → Bool
fits_grade grades none basic_salary = true
fits_grade grades (some grade_id) basic_salary = elim (get grade_id grades) [
  | none ↦ true
  | some grade ↦ leb grade.0 basic_salary && leb basic_salary grade.1
]

-- `isPercentageOfBasic ? basicSalary * (amount / 100) : amount`, in hundredths of a percent of a cent,
-- since nothing is rounded here.
abbrev pub exact_amount : ℕ → Bool → ℕ → ℕ
exact_amount basic_salary is_percentage amount =
    if is_percentage then basic_salary * amount else amount * 10000

abbrev pub deductions_fit : StructureRequest → Bool
deductions_fit r =
    let exact = exact_amount r.basic_salary in
    let total_allowances = sum_by (λ a. exact a.is_percentage_of_basic a.amount) r.allowances in
    let total_deductions = sum_by (λ d. exact d.is_percentage_of_basic d.amount) r.deductions in
    leb total_deductions (r.basic_salary * 10000 + total_allowances)

-- An assigned deduction is active.
abbrev pub assigned : EmployeeDeduction → EmployeeDeduction
assigned d = record d { active = true }

-- `POST /salary-structures`
unfoldable pub create_structure : ℕ → StructureRequest → PayrollDb → Result PayrollDb
create_structure id r db = do
  guard (ltb 0 r.basic_salary) bad_request
  guard (all (λ a. ltb 0 a.amount) r.allowances) bad_request
  guard (all (λ d. ltb 0 d.amount) r.deductions) bad_request
  guard (fits_grade db.grades r.salary_grade_id r.basic_salary) bad_request
  guard (deductions_fit r) bad_request
  let structure : EmployeeSalaryStructure = record {
    employee_id = r.employee_id;
    basic_salary = r.basic_salary;
    status = SalaryStructureStatus.draft;
    allowances = r.allowances;
    deductions = map assigned r.deductions;
  }
  ok (record db { structures = db.structures ++ (id, structure) ∷ [] })

abbrev pub is_draft : SalaryStructureStatus → Bool
is_draft SalaryStructureStatus.draft = true
is_draft _ = false

-- `POST /salary-structures/:id/request-approval`
unfoldable pub request_structure : ℕ → PayrollDb → Result PayrollDb
request_structure id db = do
  structure ← require (get id db.structures) not_found
  guard (is_draft structure.status) bad_request
  ok (record db {
    requests = PayrollRequest.structure_change id ∷ db.requests;
    structures =
        set id (record structure { status = SalaryStructureStatus.pending_approval }) db.structures;
  })

-- The employee's ACTIVE structures become SUPERSEDED.
abbrev pub supersede : ℕ → EmployeeSalaryStructure → EmployeeSalaryStructure
supersede employee_id s =
    if is_active_structure s && s.employee_id == employee_id
    then record s { status = SalaryStructureStatus.superseded }
    else s

-- `case "SALARY_STRUCTURE_CHANGE"`, which does not look at the structure's status.
unfoldable pub approve_structure : ℕ → PayrollDb → Result PayrollDb
approve_structure id db = do
  structure ← require (get id db.structures) server_error
  ok (record db {
    structures =
        set id (record structure { status = SalaryStructureStatus.active })
          (update_many (supersede structure.employee_id) db.structures);
  })

-- The branch of `/reject` for a salary structure.
unfoldable pub reject_structure : ℕ → PayrollDb → Result PayrollDb
reject_structure id db = do
  structure ← require (get id db.structures) server_error
  ok (record db {
    structures = set id (record structure { status = SalaryStructureStatus.draft }) db.structures;
  })
