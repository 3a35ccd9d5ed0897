-- ===== src/Payroll/Setup/RunSteps.antt =====
-- What the requests about runs keep.
use nexus_efos.Common.{
  ℕ, ◌≤◌, ◌≡◌, refl, false, ◌||◌, some, [], ◌∷◌, ◌++◌, any, ◌==◌, arith, sum_by-nil, sum_by-cons,
  Bool-cases, inl, inr, ==_iff,
}
use nexus_efos.Common.Table.{Table, get, set}
use nexus_efos.Common.Result.{
  ok, bad_request, not_found, server_error, guard-eq-ok, require-eq-ok, >>=-eq-ok, ok-injective,
}
use nexus_efos.Payroll.Totals.{total, total-set, total-append}
use nexus_efos.Payroll.Run.{
  PayrollRun, PayrollDb, process, request_approval, approve, reject, mark_paid, reverse,
  is_processed, is_approved, is_paid, post_accrual, post_settlement,
}
use nexus_efos.Payroll.Run.Balanced.{processed_run}
use nexus_efos.Payroll.Setup.Active.{of_employee, payments, PaidOnce, IsOnce, entries_of-active}

-- A run that is written with its period and its entries as they were.
rewritten-PaidOnce :
    (id : ℕ) (row row' : PayrollRun) (t : Table PayrollRun)
    → get id t ≡ some row
    → ((p e : ℕ) → payments p e row' ≡ payments p e row)
    → PaidOnce t
    → PaidOnce (set id row' t)
rewritten-PaidOnce id row row' t found same once p e =
    omega (arith, total-set (payments p e) id row row' t found, same p e, once p e)

-- A period without a run has no payments.
unpaid :
    (p e : ℕ) (t : Table PayrollRun)
    → any (λ row. row.1.payroll_period_id == p) t ≡ false
    → total (payments p e) t ≡ 0
unpaid p e [] none_yet = sum_by-nil (λ (row : ℕ × PayrollRun). payments p e row.1)
unpaid p e ((k, r) ∷ t) none_yet =
    let w : ℕ × PayrollRun → ℕ = λ row. payments p e row.1 in
    let first : (r.payroll_period_id == p) ≡ false = ground (arith, none_yet) in
    let worth : payments p e r ≡ 0 = rw first refl in
    omega (arith, sum_by-cons w (k, r) t, worth, unpaid p e t (ground (arith, none_yet)))

pub process-IsOnce :
    (id period_id : ℕ) (db db' : PayrollDb) (row : PayrollRun)
    → IsOnce db
    → process id period_id db ≡ ok (db', row)
    → IsOnce db'
process-IsOnce id period_id db db' row (structures, tables, rates, paid) done =
    let (bands, statutory, is_row, fresh, runs, structures', tables', rates') =
      processed_run id period_id db db' row done in
    let added : (p e : ℕ) → total (payments p e) (db.runs ++ (id, row) ∷ []) ≤ 1 = λ p e.
      let more = total-append (payments p e) id row db.runs in
      elim (Bool-cases (period_id == p)) [
        | inl same ↦
            let here : period_id ≡ p = (==_iff period_id p).0 same in
            let empty = unpaid p e db.runs (rw (← here) fresh) in
            let counted : payments p e row ≡ total (of_employee e) db.structures =
              rw (is_row, same)
                (entries_of-active db.earning_codes bands statutory e db.structures) in
            omega (arith, more, empty, counted, structures e)
        | inr other ↦
            let nothing : payments p e row ≡ 0 = rw (is_row, other) refl in
            omega (arith, more, nothing, paid p e)
      ] in
    rw (runs, structures', tables', rates') (structures, tables, rates, added)

pub request-IsOnce :
    (id : ℕ) (db db' : PayrollDb) → IsOnce db → request_approval id db ≡ ok db' → IsOnce db'
unfolding request_approval
request-IsOnce id db db' (structures, tables, rates, paid) h =
    let (row, found, h1) = require-eq-ok (get id db.runs) not_found _ h in
    let (_, last) = guard-eq-ok (is_processed row.status) bad_request _ h1 in
    rw (← ok-injective last)
      (structures, tables, rates, rewritten-PaidOnce id row _ db.runs found (λ p e. refl) paid)

pub approve-IsOnce :
    (now id : ℕ) (db db' : PayrollDb) → IsOnce db → approve now id db ≡ ok db' → IsOnce db'
unfolding approve
approve-IsOnce now id db db' (structures, tables, rates, paid) h =
    let (row, found, h1) = require-eq-ok (get id db.runs) server_error _ h in
    let (posted, _, last) = >>=-eq-ok (post_accrual now row db) _ h1 in
    rw (← ok-injective last)
      (structures, tables, rates, rewritten-PaidOnce id row _ db.runs found (λ p e. refl) paid)

pub reject-IsOnce : (id : ℕ) (db db' : PayrollDb) → IsOnce db → reject id db ≡ ok db' → IsOnce db'
unfolding reject
reject-IsOnce id db db' (structures, tables, rates, paid) h =
    let (row, found, last) = require-eq-ok (get id db.runs) server_error _ h in
    rw (← ok-injective last)
      (structures, tables, rates, rewritten-PaidOnce id row _ db.runs found (λ p e. refl) paid)

pub mark_paid-IsOnce :
    (now id : ℕ) (db db' : PayrollDb) → IsOnce db → mark_paid now id db ≡ ok db' → IsOnce db'
unfolding mark_paid
mark_paid-IsOnce now id db db' (structures, tables, rates, paid) h =
    let (row, found, h1) = require-eq-ok (get id db.runs) not_found _ h in
    let (_, h2) = guard-eq-ok (is_approved row.status) bad_request _ h1 in
    let (posted, _, last) = >>=-eq-ok (post_settlement now row db) _ h2 in
    rw (← ok-injective last)
      (structures, tables, rates, rewritten-PaidOnce id row _ db.runs found (λ p e. refl) paid)

pub reverse-IsOnce : (id : ℕ) (db db' : PayrollDb) → IsOnce db → reverse id db ≡ ok db' → IsOnce db'
unfolding reverse
reverse-IsOnce id db db' (structures, tables, rates, paid) h =
    let (row, found, h1) = require-eq-ok (get id db.runs) not_found _ h in
    let (_, last) = guard-eq-ok (is_approved row.status || is_paid row.status) bad_request _ h1 in
    rw (← ok-injective last)
      (structures, tables, rates, rewritten-PaidOnce id row _ db.runs found (λ p e. refl) paid)
