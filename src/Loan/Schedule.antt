-- ===== src/Loan/Schedule.antt =====
-- `generateRemainingSchedule` of api/src/lib/loanSchedule.ts: a known balance, spread evenly over the
-- installments that remain, where the last one takes what rounding leaves. The due date of a row is
-- given as the number of months after the first one. Amounts are signed: the last one may be
-- negative.
mod Tests
pub mod Exact
pub mod Generate
pub mod Flat
use nexus_efos.Common.{ℕ, zero, suc, ◌+◌, ◌-◌, ◌*◌, Option, none, some, List, [], ◌∷◌}
use nexus_efos.Common.Int.{ℤ, pos, ◌-ℤ◌}
use nexus_efos.Common.Rounding.{round2, round2_ℤ}

pub record ScheduleRow : Type 0 where
  pub installment_number : ℕ
  pub months_later : ℕ
  pub principal_due : ℤ
  pub interest_due : ℤ

-- The rows of the loop from `i` on, `k` of them.
abbrev pub even_rows : ℕ → ℕ → ℕ → ℕ → List ScheduleRow
even_rows principal_per interest_per i zero = []
even_rows principal_per interest_per i (suc k) =
    (record {
      installment_number = i;
      months_later = i - 1;
      principal_due = pos principal_per;
      interest_due = pos interest_per;
    })
    ∷ even_rows principal_per interest_per (suc i) k

-- `rows[rows.length - 1].principalDue = …`, likewise for the interest; `none` is the exception that
-- an empty array raises.
abbrev pub set_last : ℤ → ℤ → List ScheduleRow → Option (List ScheduleRow)
set_last principal interest [] = none
set_last principal interest (r ∷ []) =
    some (record r { principal_due = principal; interest_due = interest } ∷ [])
set_last principal interest (r ∷ s ∷ rows) = elim (set_last principal interest (s ∷ rows)) [
  | none ↦ none
  | some rows' ↦ some (r ∷ rows')
]

unfoldable pub generate_remaining_schedule : ℕ → ℕ → ℕ → Option (List ScheduleRow)
generate_remaining_schedule outstanding_principal outstanding_interest remaining_installments =
    let principal_per = round2 outstanding_principal remaining_installments in
    let interest_per = round2 outstanding_interest remaining_installments in
    let rows = even_rows principal_per interest_per 1 remaining_installments in
    let principal_so_far = round2 (principal_per * (remaining_installments - 1)) 1 in
    let interest_so_far = round2 (interest_per * (remaining_installments - 1)) 1 in
    set_last (round2_ℤ (pos outstanding_principal -ℤ pos principal_so_far) 1)
      (round2_ℤ (pos outstanding_interest -ℤ pos interest_so_far) 1) rows
