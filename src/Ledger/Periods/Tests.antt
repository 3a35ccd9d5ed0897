-- ===== src/Ledger/Periods/Tests.antt =====
-- Two months, of which the first is closed, locked and reopened.
use nexus_efos.Common.{ℕ, ◌≡◌, refl, some, List, [], ◌∷◌, inl, inr}
use nexus_efos.Common.Table.{get}
use nexus_efos.Ledger.Posting.{Period, PeriodStatus, find_postable_period}
use nexus_efos.Ledger.Periods.{
  Calendar, Op, run, create_period, close_period, lock_period, request_reopen, approve_reopen,
}
use nexus_efos.Ledger.Periods.Unique.{find_postable_period_unique}
use nexus_efos.Ledger.Periods.Locked.{locked_period_stays}

abbrev no_periods : Calendar
no_periods = record { periods = []; reopenings = [] }

abbrev month : ℕ → ℕ → PeriodStatus → Period
month first last status = record { start_date = first; end_date = last; status = status }

abbrev ops : List Op
ops =
    Op.create_op 1 1 31
    ∷ Op.create_op 2 20 40
    ∷ Op.create_op 3 32 59
    ∷ Op.close_op 1
    ∷ Op.lock_op 1
    ∷ []

abbrev locked_month : Calendar
locked_month = record {
  periods = (1, month 1 31 PeriodStatus.locked) ∷ (3, month 32 59 PeriodStatus.open_period) ∷ [];
  reopenings = [];
}

-- The second creation overlaps the first period.
run-ops : run ops no_periods ≡ locked_month
unfolding create_period close_period lock_period
run-ops = refl

find_postable_period_unique_example :
    find_postable_period (run ops no_periods).periods 40
    ≡ some (month 32 59 PeriodStatus.open_period)
find_postable_period_unique_example =
    find_postable_period_unique ops no_periods 40 3 (month 32 59 PeriodStatus.open_period) refl
      (unfold create_period close_period lock_period in inr (inl (refl, refl))) refl

locked_period_stays_example :
    get 1 (run (Op.request_op 1 ∷ Op.approve_op 1 ∷ []) locked_month).periods
    ≡ some (month 1 31 PeriodStatus.locked)
locked_period_stays_example =
    locked_period_stays (Op.request_op 1 ∷ Op.approve_op 1 ∷ []) locked_month 1
      (month 1 31 PeriodStatus.locked) refl refl refl

-- A reopening that was requested while the period was closed opens it after it was locked.
locked_reopens :
    get 1
      (run
        (Op.create_op 1 1 31
          ∷ Op.close_op 1
          ∷ Op.request_op 1
          ∷ Op.lock_op 1
          ∷ Op.approve_op 1
          ∷ [])
        no_periods).periods
    ≡ some (month 1 31 PeriodStatus.open_period)
unfolding create_period close_period lock_period request_reopen approve_reopen
locked_reopens = refl
