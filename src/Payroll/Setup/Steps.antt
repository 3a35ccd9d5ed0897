-- ===== src/Payroll/Setup/Steps.antt =====
-- What the requests about the configuration keep.
use nexus_efos.Common.{ℕ, ◌≡◌, not, ◌&&◌, Option, List, any, all, length, ltb, leb, ◌==◌, arith}
use nexus_efos.Common.Table.{get}
use nexus_efos.Common.Result.{
  ok, bad_request, not_found, server_error, guard-eq-ok, require-eq-ok, ok-injective,
}
use nexus_efos.Payroll.Totals.{total-set_le, total-append}
use nexus_efos.Payroll.Tax.{TaxBand}
use nexus_efos.Payroll.Salary.{EarningCode, RateName}
use nexus_efos.Payroll.Run.{PayrollDb}
use nexus_efos.Payroll.Setup.{
  overlaps, create_period, create_grade, create_earning_code, create_tax_table, is_positive,
  create_rate, activate_tax_table, activate_rate, StructureRequest, fits_grade, deductions_fit,
  create_structure, is_draft, request_structure, approve_structure, reject_structure,
}
use nexus_efos.Payroll.Setup.Active.{
  of_employee, active_table, active_named, IsOnce, superseded-StructureOnce, activated-TableOnce,
  activated-RateOnce,
}

pub create_structure-IsOnce :
    (id : ℕ) (r : StructureRequest) (db db' : PayrollDb)
    → IsOnce db
    → create_structure id r db ≡ ok db'
    → IsOnce db'
unfolding create_structure
create_structure-IsOnce id r db db' (structures, tables, rates, paid) h =
    let (_, h1) = guard-eq-ok (ltb 0 r.basic_salary) bad_request _ h in
    let (_, h2) = guard-eq-ok (all (λ a. ltb 0 a.amount) r.allowances) bad_request _ h1 in
    let (_, h3) = guard-eq-ok (all (λ d. ltb 0 d.amount) r.deductions) bad_request _ h2 in
    let (_, h4) =
      guard-eq-ok (fits_grade db.grades r.salary_grade_id r.basic_salary) bad_request _ h3 in
    let (_, last) = guard-eq-ok (deductions_fit r) bad_request _ h4 in
    rw (← ok-injective last) (
      λ e. omega (arith, total-append (of_employee e) id _ db.structures, structures e),
      tables,
      rates,
      paid,
    )

pub request_structure-IsOnce :
    (id : ℕ) (db db' : PayrollDb) → IsOnce db → request_structure id db ≡ ok db' → IsOnce db'
unfolding request_structure
request_structure-IsOnce id db db' (structures, tables, rates, paid) h =
    let (s, _, h1) = require-eq-ok (get id db.structures) not_found _ h in
    let (_, last) = guard-eq-ok (is_draft s.status) bad_request _ h1 in
    rw (← ok-injective last) (
      λ e. omega (arith, total-set_le (of_employee e) id _ db.structures, structures e),
      tables,
      rates,
      paid,
    )

pub approve_structure-IsOnce :
    (id : ℕ) (db db' : PayrollDb) → IsOnce db → approve_structure id db ≡ ok db' → IsOnce db'
unfolding approve_structure
approve_structure-IsOnce id db db' (structures, tables, rates, paid) h =
    let (s, _, last) = require-eq-ok (get id db.structures) server_error _ h in
    rw (← ok-injective last)
      (λ e. superseded-StructureOnce id s db.structures e (structures e), tables, rates, paid)

pub reject_structure-IsOnce :
    (id : ℕ) (db db' : PayrollDb) → IsOnce db → reject_structure id db ≡ ok db' → IsOnce db'
unfolding reject_structure
reject_structure-IsOnce id db db' (structures, tables, rates, paid) h =
    let (s, _, last) = require-eq-ok (get id db.structures) server_error _ h in
    rw (← ok-injective last) (
      λ e. omega (arith, total-set_le (of_employee e) id _ db.structures, structures e),
      tables,
      rates,
      paid,
    )

pub create_period-IsOnce :
    (id calendar_id start_date end_date : ℕ) (db db' : PayrollDb)
    → IsOnce db
    → create_period id calendar_id start_date end_date db ≡ ok db'
    → IsOnce db'
unfolding create_period
create_period-IsOnce id calendar_id start_date end_date db db' inv h =
    let free = not (any (λ row. overlaps calendar_id start_date end_date row.1) db.periods) in
    let (_, last) = guard-eq-ok free bad_request _ h in rw (← ok-injective last) inv

pub create_grade-IsOnce :
    (id min_salary max_salary : ℕ) (db db' : PayrollDb)
    → IsOnce db
    → create_grade id min_salary max_salary db ≡ ok db'
    → IsOnce db'
unfolding create_grade
create_grade-IsOnce id min_salary max_salary db db' inv h =
    let (_, h1) = guard-eq-ok (ltb 0 min_salary && ltb 0 max_salary) bad_request _ h in
    let (_, last) = guard-eq-ok (not (leb max_salary min_salary)) bad_request _ h1 in
    rw (← ok-injective last) inv

pub create_earning_code-IsOnce :
    (id : ℕ) (code : EarningCode) (db db' : PayrollDb)
    → IsOnce db
    → create_earning_code id code db ≡ ok db'
    → IsOnce db'
unfolding create_earning_code
create_earning_code-IsOnce id code db db' inv h =
    let free = not (any (λ row. row.1.code == code.code) db.earning_codes) in
    let (_, last) = guard-eq-ok free bad_request _ h in rw (← ok-injective last) inv

pub create_tax_table-IsOnce :
    (id : ℕ) (bands : List TaxBand) (db db' : PayrollDb)
    → IsOnce db
    → create_tax_table id bands db ≡ ok db'
    → IsOnce db'
unfolding create_tax_table
create_tax_table-IsOnce id bands db db' (structures, tables, rates, paid) h =
    let (_, h1) = guard-eq-ok (leb 1 (length bands)) bad_request _ h in
    let (_, last) =
      guard-eq-ok (all (λ b. leb b.rate 10000 && is_positive b.upper_bound) bands) bad_request _
        h1 in
    rw (← ok-injective last)
      (structures, omega (arith, total-append active_table id _ db.tax_tables, tables), rates, paid)

pub create_rate-IsOnce :
    (id : ℕ) (name : RateName) (rate : ℕ) (ceiling minimum : Option ℕ) (db db' : PayrollDb)
    → IsOnce db
    → create_rate id name rate ceiling minimum db ≡ ok db'
    → IsOnce db'
unfolding create_rate
create_rate-IsOnce id name rate ceiling minimum db db' (structures, tables, rates, paid) h =
    let (_, last) = guard-eq-ok (leb rate 10000 && is_positive ceiling) bad_request _ h in
    rw (← ok-injective last) (
      structures,
      tables,
      λ n. omega (arith, total-append (active_named n) id _ db.rates, rates n),
      paid,
    )

pub activate_tax_table-IsOnce :
    (id : ℕ) (db db' : PayrollDb) → IsOnce db → activate_tax_table id db ≡ ok db' → IsOnce db'
unfolding activate_tax_table
activate_tax_table-IsOnce id db db' (structures, tables, rates, paid) h =
    let (x, _, last) = require-eq-ok (get id db.tax_tables) not_found _ h in
    rw (← ok-injective last) (structures, activated-TableOnce id x db.tax_tables, rates, paid)

pub activate_rate-IsOnce :
    (id : ℕ) (db db' : PayrollDb) → IsOnce db → activate_rate id db ≡ ok db' → IsOnce db'
unfolding activate_rate
activate_rate-IsOnce id db db' (structures, tables, rates, paid) h =
    let (r, _, last) = require-eq-ok (get id db.rates) not_found _ h in
    rw (← ok-injective last)
      (structures, tables, λ n. activated-RateOnce id r db.rates n (rates n), paid)
