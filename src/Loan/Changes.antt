-- ===== src/Loan/Changes.antt =====
-- Restructuring, rescheduling and writing off a loan: the requests of api/src/routes/loan.routes.ts and
-- what their approval does in api/src/routes/approvals.routes.ts. A due date is a number of days;
-- the date that is some months from today is a parameter, as the calendar is JavaScript's.
mod Tests
pub mod Numbers
use nexus_efos.Common.{
  ℕ, ◌+◌, ◌≡◌, Bool, true, false, not, ◌&&◌, ◌||◌, Option, none, some, List, [], ◌∷◌, ◌++◌, map,
  any, ltb, ◌==◌, if◌then◌else◌,
}
use nexus_efos.Common.Int.{ℤ, pos, ◌+ℤ◌}
use nexus_efos.Common.Table.{Table, get, set}
use nexus_efos.Common.Result.{
  Result, ok, guard, require, ◌>>=◌, ◌>>◌, bad_request, not_found, server_error,
}
use nexus_efos.Loan.Allocation.{InstallmentStatus}
use nexus_efos.Loan.Repayment.{LoanStatus}
use nexus_efos.Loan.Lifecycle.{Loan}
use nexus_efos.Loan.Schedule.{ScheduleRow}
use nexus_efos.Loan.Schedule.Generate.{InterestMethod, generate_schedule}

pub record InstallmentRow : Type 0 where
  pub loan_id : ℕ
  pub installment_number : ℕ
  pub due_date : ℤ
  pub principal_due : ℤ
  pub interest_due : ℤ
  pub status : InstallmentStatus
  pub is_deleted : Bool

pub record LoanRestructure : Type 0 where
  pub loan_id : ℕ
  pub original_principal : ℕ
  pub original_rate : ℕ
  pub original_term_months : ℕ
  pub new_principal : ℕ
  pub new_rate : ℕ
  pub new_term_months : ℕ
  pub is_applied : Bool

pub record LoanReschedule : Type 0 where
  pub loan_id : ℕ
  pub shift_days : ℤ
  pub is_applied : Bool

pub record LoanWriteOff : Type 0 where
  pub loan_id : ℕ
  pub amount : ℕ
  pub recovered_amount : ℕ
  pub is_applied : Bool

-- The requests that are sent to the approval workflow, each with its target.
pub data ChangeRequest : Type 0 where
  loan_restructure loan_reschedule loan_write_off : ℕ → ChangeRequest

pub record ChangeBook : Type 0 where
  pub loans : Table Loan
  pub installments : List InstallmentRow
  pub restructures : Table LoanRestructure
  pub reschedules : Table LoanReschedule
  pub write_offs : Table LoanWriteOff
  pub requests : List ChangeRequest

abbrev pub is_running : LoanStatus → Bool
is_running LoanStatus.disbursed = true
is_running LoanStatus.active = true
is_running _ = false

-- `status: { in: ["PENDING", "PARTIALLY_PAID"] }`
abbrev pub is_unpaid : InstallmentStatus → Bool
is_unpaid InstallmentStatus.pending = true
is_unpaid InstallmentStatus.partially_paid = true
is_unpaid _ = false

abbrev pub is_unpaid_of : ℕ → InstallmentRow → Bool
is_unpaid_of loan_id row = row.loan_id == loan_id && is_unpaid row.status

-- `/:id/restructure`
unfoldable pub request_restructure : ℕ → ℕ → ℕ → ℕ → ℕ → ChangeBook → Result ChangeBook
request_restructure id loan_id new_principal new_rate new_term book = do
  guard (ltb 0 new_principal && ltb 0 new_term) bad_request
  loan ← require (get loan_id book.loans) not_found
  guard (is_running loan.status) bad_request
  ok (record book {
    requests = ChangeRequest.loan_restructure id ∷ book.requests;
    restructures =
        set id
          (record {
            loan_id = loan_id;
            original_principal = loan.principal;
            original_rate = loan.interest_rate;
            original_term_months = loan.term_months;
            new_principal = new_principal;
            new_rate = new_rate;
            new_term_months = new_term;
            is_applied = false;
          })
          book.restructures;
  })

-- `updateMany` of the unpaid installments.
abbrev pub delete_unpaid : ℕ → InstallmentRow → InstallmentRow
delete_unpaid loan_id row =
    if is_unpaid_of loan_id row then record row { is_deleted = true } else row

abbrev pub created_row : (ℕ → ℤ) → ℕ → ScheduleRow → InstallmentRow
created_row in_months loan_id row = record {
  loan_id = loan_id;
  installment_number = row.installment_number;
  due_date = in_months row.months_later;
  principal_due = row.principal_due;
  interest_due = row.interest_due;
  status = InstallmentStatus.pending;
  is_deleted = false;
}

-- The unique constraint on the loan and the installment number.
abbrev pub is_same_number : InstallmentRow → InstallmentRow → Bool
is_same_number a b = a.loan_id == b.loan_id && a.installment_number == b.installment_number

-- `createMany`; `none` is the exception of a row that violates the constraint.
abbrev pub create_many : List InstallmentRow → List InstallmentRow → Option (List InstallmentRow)
create_many [] rows = some rows
create_many (new ∷ news) rows =
    let rest = create_many news (rows ++ (new ∷ [])) in
    if any (λ (row : InstallmentRow). is_same_number row new) rows then none else rest

-- The case LOAN_RESTRUCTURE.
unfoldable pub apply_restructure : (ℕ → ℤ) → ℕ → ChangeBook → Result ChangeBook
apply_restructure in_months id book = do
  r ← require (get id book.restructures) server_error
  let kept = map (delete_unpaid r.loan_id) book.installments
  let schedule = generate_schedule r.new_principal r.new_rate r.new_term_months InterestMethod.flat
  rows ← require (create_many (map (created_row in_months r.loan_id) schedule) kept) server_error
  loan ← require (get r.loan_id book.loans) server_error
  ok (record book {
    installments = rows;
    loans =
        set r.loan_id
          (record loan {
            principal = r.new_principal;
            interest_rate = r.new_rate;
            term_months = r.new_term_months;
          })
          book.loans;
    restructures = set id (record r { is_applied = true }) book.restructures;
  })

-- `/:id/reschedule`
abbrev pub is_zero : ℤ → Bool
is_zero (pos n) = n == 0
is_zero _ = false

unfoldable pub request_reschedule : ℕ → ℕ → ℤ → ChangeBook → Result ChangeBook
request_reschedule id loan_id shift_days book = do
  guard (not (is_zero shift_days)) bad_request
  loan ← require (get loan_id book.loans) not_found
  guard (is_running loan.status) bad_request
  ok (record book {
    requests = ChangeRequest.loan_reschedule id ∷ book.requests;
    reschedules =
        set id (record { loan_id = loan_id; shift_days = shift_days; is_applied = false })
          book.reschedules;
  })

abbrev pub shift : ℕ → ℤ → InstallmentRow → InstallmentRow
shift loan_id days row =
    if is_unpaid_of loan_id row then record row { due_date = row.due_date +ℤ days } else row

-- The case LOAN_RESCHEDULE.
unfoldable pub apply_reschedule : ℕ → ChangeBook → Result ChangeBook
apply_reschedule id book = do
  r ← require (get id book.reschedules) server_error
  ok (record book {
    installments = map (shift r.loan_id r.shift_days) book.installments;
    reschedules = set id (record r { is_applied = true }) book.reschedules;
  })

-- `/:id/write-off`
unfoldable pub request_write_off : ℕ → ℕ → ℕ → ChangeBook → Result ChangeBook
request_write_off id loan_id amount book = do
  guard (ltb 0 amount) bad_request
  loan ← require (get loan_id book.loans) not_found
  guard (is_running loan.status) bad_request
  ok (record book {
    requests = ChangeRequest.loan_write_off id ∷ book.requests;
    write_offs =
        set id
          (record { loan_id = loan_id; amount = amount; recovered_amount = 0; is_applied = false })
          book.write_offs;
  })

-- The case LOAN_WRITE_OFF.
unfoldable pub apply_write_off : ℕ → ChangeBook → Result ChangeBook
apply_write_off id book = do
  w ← require (get id book.write_offs) server_error
  loan ← require (get w.loan_id book.loans) server_error
  ok (record book {
    loans = set w.loan_id (record loan { status = LoanStatus.written_off }) book.loans;
    write_offs = set id (record w { is_applied = true }) book.write_offs;
  })

-- `/write-offs/:writeOffId/record-recovery`
unfoldable pub record_recovery : ℕ → ℕ → ChangeBook → Result ChangeBook
record_recovery id amount book = do
  guard (ltb 0 amount) bad_request
  w ← require (get id book.write_offs) not_found
  ok (record book {
    write_offs =
        set id (record w { recovered_amount = w.recovered_amount + amount }) book.write_offs;
  })
