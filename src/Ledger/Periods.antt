-- ===== src/Ledger/Periods.antt =====
-- Financial periods: creating, closing, locking and reopening, of
-- api/src/routes/generalLedger.routes.ts, and the approved reopening of
-- api/src/routes/approvals.routes.ts.
mod Tests
pub mod Unique
pub mod Locked
use nexus_efos.Common.{
  ℕ, Bool, true, false, not, ◌&&◌, Option, none, some, List, [], ◌∷◌, ◌++◌, any, leb, ◌==◌,
  if◌then◌else◌,
}
use nexus_efos.Common.Table.{Table, get, set}
use nexus_efos.Common.Result.{
  Result, ok, err, guard, require, ◌>>=◌, ◌>>◌, bad_request, not_found, server_error,
}
use nexus_efos.Ledger.Posting.{Period, PeriodStatus, is_open}

-- The periods, and the pending requests to reopen, each with the period it is for.
pub record Calendar : Type 0 where
  pub periods : Table Period
  pub reopenings : List ℕ

abbrev pub overlaps : ℕ → ℕ → Period → Bool
overlaps start_date end_date p = leb p.start_date end_date && leb start_date p.end_date

-- `POST /financial-periods`, for the row with the id `id`.
unfoldable pub create_period : ℕ → ℕ → ℕ → Calendar → Result Calendar
create_period id start_date end_date calendar = do
  guard (not (any (λ e. overlaps start_date end_date e.1) calendar.periods)) bad_request
  ok (record calendar {
    periods =
        calendar.periods
        ++ (
          id,
          record {
            start_date = start_date;
            end_date = end_date;
            status = PeriodStatus.open_period;
          },
        )
          ∷ [];
  })

-- `POST /financial-periods/:id/close`
unfoldable pub close_period : ℕ → Calendar → Result Calendar
close_period id calendar = do
  period ← require (get id calendar.periods) not_found
  guard (is_open period.status) bad_request
  ok (record calendar {
    periods = set id (record period { status = PeriodStatus.closed }) calendar.periods;
  })

abbrev pub is_closed : PeriodStatus → Bool
is_closed PeriodStatus.closed = true
is_closed _ = false

abbrev pub is_locked : PeriodStatus → Bool
is_locked PeriodStatus.locked = true
is_locked _ = false

-- `POST /financial-periods/:id/lock`
unfoldable pub lock_period : ℕ → Calendar → Result Calendar
lock_period id calendar = do
  period ← require (get id calendar.periods) not_found
  guard (is_closed period.status) bad_request
  ok (record calendar {
    periods = set id (record period { status = PeriodStatus.locked }) calendar.periods;
  })

-- `POST /financial-periods/:id/request-reopen`, with a reason.
unfoldable pub request_reopen : ℕ → Calendar → Result Calendar
request_reopen id calendar = do
  period ← require (get id calendar.periods) not_found
  guard (not (is_open period.status)) bad_request
  guard (not (is_locked period.status)) bad_request
  ok (record calendar { reopenings = id ∷ calendar.reopenings })

abbrev pub remove_first : ℕ → List ℕ → List ℕ
remove_first id [] = []
remove_first id (x ∷ l) = let rest = remove_first id l in if id == x then l else x ∷ rest

-- A pending request to reopen is approved: `case "FINANCIAL_PERIOD_REOPEN"` of `applyApproval`, which
-- does not look at the status that the period has by then.
unfoldable pub approve_reopen : ℕ → Calendar → Result Calendar
approve_reopen id calendar = do
  guard (any (λ x. id == x) calendar.reopenings) not_found
  period ← require (get id calendar.periods) server_error
  ok (record {
    periods = set id (record period { status = PeriodStatus.open_period }) calendar.periods;
    reopenings = remove_first id calendar.reopenings;
  })

pub data Op : Type 0 where
  create_op : ℕ → ℕ → ℕ → Op
  close_op lock_op request_op approve_op : ℕ → Op

abbrev pub perform : Op → Calendar → Result Calendar
perform (Op.create_op id start_date end_date) = create_period id start_date end_date
perform (Op.close_op id) = close_period id
perform (Op.lock_op id) = lock_period id
perform (Op.request_op id) = request_reopen id
perform (Op.approve_op id) = approve_reopen id

abbrev pub after : Result Calendar → Calendar → Calendar
after (err status) calendar = calendar
after (ok calendar') calendar = calendar'

-- Refused operations change nothing.
abbrev pub run : List Op → Calendar → Calendar
run [] calendar = calendar
run (op ∷ ops) calendar = run ops (after (perform op calendar) calendar)
