-- ===== src/Loan/Schedule/Generate.antt =====
-- `generateSchedule` of api/src/lib/loanSchedule.ts, on exact fractions: the principal is in cents and
-- the yearly rate in hundredths of a percent, so a month's rate is rate / 120000. The due date of a
-- row is given as the number of months after the start.
use nexus_efos.Common.{ℕ, zero, suc, ◌+◌, ◌-◌, ◌*◌, ◌^◌, List, [], ◌∷◌, ◌==◌, if◌then◌else◌}
use nexus_efos.Common.Int.{ℤ, pos, negsuc, ◌-ℤ◌}
use nexus_efos.Common.Rounding.{round2, round2_ℤ}
use nexus_efos.Loan.Schedule.{ScheduleRow}

pub data InterestMethod : Type 0 where
  flat reducing_balance : InterestMethod

abbrev pub months_of_percent : ℕ
months_of_percent = 100 * 100 * 12

abbrev pub scale : ℕ → ℤ → ℤ
scale k (pos n) = pos (k * n)
scale k (negsuc n) = pos 0 -ℤ pos (k * suc n)

abbrev pub schedule_row : ℕ → ℤ → ℤ → ScheduleRow
schedule_row i principal interest = record {
  installment_number = i;
  months_later = i;
  principal_due = principal;
  interest_due = interest;
}

-- The loop of the method REDUCING_BALANCE from installment `i` on, `k` of them left: the balance is
-- balance / d and the payment payment / d. The last one takes the whole balance.
abbrev pub reducing_rows : ℕ → ℕ → ℕ → ℤ → ℕ → ℕ → List ScheduleRow
reducing_rows rate i zero balance payment d = []
reducing_rows rate i (suc k) balance payment d =
    let d' = d * months_of_percent in
    let interest = scale rate balance in
    let whole = scale months_of_percent balance in
    let principal = if k == 0 then whole else (pos (months_of_percent * payment) -ℤ interest) in
    schedule_row i (round2_ℤ principal d') (round2_ℤ interest d')
    ∷ reducing_rows rate (suc i) k (whole -ℤ principal) (months_of_percent * payment) d'

-- The payment is P r x / (x - 1) for r the month's rate and x = (1 + r) ^ n, as one fraction.
abbrev pub reducing_schedule : ℕ → ℕ → ℕ → List ScheduleRow
reducing_schedule principal rate n =
    if rate == 0
    then reducing_rows rate 1 n (pos (principal * n)) principal n
    else (let growth = (months_of_percent + rate) ^ n in
        let d = months_of_percent * (growth - months_of_percent ^ n) in
        reducing_rows rate 1 n (pos (principal * d)) (principal * rate * growth) d)

abbrev pub flat_rows : ℤ → ℤ → ℕ → ℕ → List ScheduleRow
flat_rows principal interest i zero = []
flat_rows principal interest i (suc k) =
    schedule_row i principal interest ∷ flat_rows principal interest (suc i) k

abbrev pub flat_schedule : ℕ → ℕ → ℕ → List ScheduleRow
flat_schedule principal rate n =
    flat_rows (pos (round2 principal n))
      (pos (round2 (principal * rate * n) (months_of_percent * n))) 1 n

unfoldable pub generate_schedule : ℕ → ℕ → ℕ → InterestMethod → List ScheduleRow
generate_schedule principal rate n InterestMethod.reducing_balance =
    reducing_schedule principal rate n
generate_schedule principal rate n InterestMethod.flat = flat_schedule principal rate n
