-- ===== src/Payroll/Setup/Once.antt =====
-- Nobody is paid twice for a period: the requests that change the configuration and the runs, in any
-- order.
use nexus_efos.Common.{ℕ, ◌≡◌, Option, List, [], ◌∷◌}
use nexus_efos.Common.Result.{Result, ok, settle, ◌>>=◌, settle-keeps, >>=-eq-ok, ok-injective}
use nexus_efos.Payroll.Tax.{TaxBand}
use nexus_efos.Payroll.Salary.{EarningCode, RateName}
use nexus_efos.Payroll.Run.{
  PayrollDb, process, request_approval, approve, reject, mark_paid, reverse,
}
use nexus_efos.Payroll.Setup.{
  create_period, create_grade, create_earning_code, create_tax_table, create_rate,
  activate_tax_table, activate_rate, StructureRequest, create_structure, request_structure,
  approve_structure, reject_structure,
}
use nexus_efos.Payroll.Setup.Active.{IsOnce}
use nexus_efos.Payroll.Setup.RunSteps.{
  process-IsOnce, request-IsOnce, approve-IsOnce, reject-IsOnce, mark_paid-IsOnce, reverse-IsOnce,
}
use nexus_efos.Payroll.Setup.Steps.{
  create_structure-IsOnce, request_structure-IsOnce, approve_structure-IsOnce,
  reject_structure-IsOnce, create_period-IsOnce, create_grade-IsOnce, create_earning_code-IsOnce,
  create_tax_table-IsOnce, create_rate-IsOnce, activate_tax_table-IsOnce, activate_rate-IsOnce,
}

pub data Op : Type 0 where
  period_op : ℕ → ℕ → ℕ → ℕ → Op
  grade_op : ℕ → ℕ → ℕ → Op
  code_op : ℕ → EarningCode → Op
  table_op : ℕ → List TaxBand → Op
  rate_op : ℕ → RateName → ℕ → Option ℕ → Option ℕ → Op
  structure_op : ℕ → StructureRequest → Op
  activate_table_op activate_rate_op request_structure_op approve_structure_op reject_structure_op :
      ℕ → Op
  process_op approve_op pay_op : ℕ → ℕ → Op
  request_op reject_op reverse_op : ℕ → Op

unfoldable pub perform : Op → PayrollDb → Result PayrollDb
perform (period_op id calendar_id start_date end_date) =
    create_period id calendar_id start_date end_date
perform (grade_op id min_salary max_salary) = create_grade id min_salary max_salary
perform (code_op id code) = create_earning_code id code
perform (table_op id bands) = create_tax_table id bands
perform (rate_op id name rate ceiling minimum) = create_rate id name rate ceiling minimum
perform (structure_op id request) = create_structure id request
perform (activate_table_op id) = activate_tax_table id
perform (activate_rate_op id) = activate_rate id
perform (request_structure_op id) = request_structure id
perform (approve_structure_op id) = approve_structure id
perform (reject_structure_op id) = reject_structure id
perform (process_op id period_id) = λ db. process id period_id db >>= (λ done. ok done.0)
perform (approve_op now id) = approve now id
perform (pay_op now id) = mark_paid now id
perform (request_op id) = request_approval id
perform (reject_op id) = reject id
perform (reverse_op id) = reverse id

unfoldable pub run : List Op → PayrollDb → PayrollDb
run [] db = db
run (op ∷ ops) db = run ops (settle db (perform op db))

perform-IsOnce : (op : Op) (db db' : PayrollDb) → IsOnce db → perform op db ≡ ok db' → IsOnce db'
unfolding perform
perform-IsOnce (period_op id calendar_id start_date end_date) db db' inv h =
    create_period-IsOnce id calendar_id start_date end_date db db' inv h
perform-IsOnce (grade_op id min_salary max_salary) db db' inv h =
    create_grade-IsOnce id min_salary max_salary db db' inv h
perform-IsOnce (code_op id code) db db' inv h = create_earning_code-IsOnce id code db db' inv h
perform-IsOnce (table_op id bands) db db' inv h = create_tax_table-IsOnce id bands db db' inv h
perform-IsOnce (rate_op id name rate ceiling minimum) db db' inv h =
    create_rate-IsOnce id name rate ceiling minimum db db' inv h
perform-IsOnce (structure_op id request) db db' inv h =
    create_structure-IsOnce id request db db' inv h
perform-IsOnce (activate_table_op id) db db' inv h = activate_tax_table-IsOnce id db db' inv h
perform-IsOnce (activate_rate_op id) db db' inv h = activate_rate-IsOnce id db db' inv h
perform-IsOnce (request_structure_op id) db db' inv h = request_structure-IsOnce id db db' inv h
perform-IsOnce (approve_structure_op id) db db' inv h = approve_structure-IsOnce id db db' inv h
perform-IsOnce (reject_structure_op id) db db' inv h = reject_structure-IsOnce id db db' inv h
perform-IsOnce (approve_op now id) db db' inv h = approve-IsOnce now id db db' inv h
perform-IsOnce (pay_op now id) db db' inv h = mark_paid-IsOnce now id db db' inv h
perform-IsOnce (request_op id) db db' inv h = request-IsOnce id db db' inv h
perform-IsOnce (reject_op id) db db' inv h = reject-IsOnce id db db' inv h
perform-IsOnce (reverse_op id) db db' inv h = reverse-IsOnce id db db' inv h
perform-IsOnce (process_op id period_id) db db' inv h =
    let (done, e, last) = >>=-eq-ok (process id period_id db) _ h in
    rw (← ok-injective last) (process-IsOnce id period_id db done.0 done.1 inv e)

-- If it holds at first, as it does of an empty database, then after any sequence of requests that
-- create, approve, reject and activate salary structures, tax tables and rates, and that process,
-- approve, reject, pay and reverse runs, refused ones included: an employee has at most one active
-- structure, at most one tax table is active, at most one rate of each name is, and all runs of a
-- period together have at most one entry for an employee.
pub run-IsOnce : (ops : List Op) (db : PayrollDb) → IsOnce db → IsOnce (run ops db)
unfolding run
run-IsOnce [] db inv = inv
run-IsOnce (op ∷ ops) db inv =
    run-IsOnce ops (settle db (perform op db))
      (settle-keeps IsOnce db (perform op db) inv (λ db' h. perform-IsOnce op db db' inv h))
