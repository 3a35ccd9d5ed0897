-- ===== src/Loan/Schedule/Tests.antt =====
-- Schedules on concrete balances.
use nexus_efos.Common.{
  ◌≤◌, ◌<◌, ◌+◌, ◌*◌, arith, ◌≡◌, refl, Option, none, some, List, [], ◌∷◌, length, map, sum_by_ℤ,
}
use nexus_efos.Common.Int.{ℤ, pos, negsuc, pos_part, ◌-ℤ◌}
use nexus_efos.Common.Rounding.{round2, round2_ℤ}
use nexus_efos.Loan.Schedule.{ScheduleRow, generate_remaining_schedule}
use nexus_efos.Loan.Schedule.Generate.{InterestMethod, generate_schedule}
use nexus_efos.Loan.Schedule.Flat.{flat_schedule_near_principal}
use nexus_efos.Loan.Schedule.Exact.{schedule_exact}

abbrev principals : Option (List ScheduleRow) → List ℤ
principals none = []
principals (some rows) = map (λ r. r.principal_due) rows

-- 0.03 over five installments: a cent each, and the last one is negative.
negative_last :
    principals (generate_remaining_schedule 3 0 5) ≡ pos 1 ∷ pos 1 ∷ pos 1 ∷ pos 1 ∷ negsuc 0 ∷ []
unfolding generate_remaining_schedule round2 round2_ℤ ◌-ℤ◌
negative_last = refl

schedule_exact_example :
    (rows : List ScheduleRow) × (generate_remaining_schedule 100000 700 3 ≡ some rows)
    × (length rows ≡ 3)
    × (sum_by_ℤ (λ r. r.principal_due) rows ≡ pos 100000)
    × (sum_by_ℤ (λ r. r.interest_due) rows ≡ pos 700)
schedule_exact_example = schedule_exact 100000 700 2

-- 100.00 over three months is asked for as three times 33.33.
flat_principals :
    map (λ r. r.principal_due) (generate_schedule 10000 2400 3 InterestMethod.flat)
    ≡ pos 3333 ∷ pos 3333 ∷ pos 3333 ∷ []
unfolding generate_schedule round2
flat_principals = refl

-- At 2% a month, the last installment takes the whole balance.
reducing_principals :
    map (λ r. r.principal_due) (generate_schedule 10000 2400 3 InterestMethod.reducing_balance)
    ≡ pos 3268 ∷ pos 3333 ∷ pos 3400 ∷ []
unfolding generate_schedule round2 round2_ℤ ◌-ℤ◌
reducing_principals = refl

flat_schedule_near_principal_example :
    (let rows = generate_schedule 10000 2400 3 InterestMethod.flat in
      let asked = pos_part (sum_by_ℤ (λ r. r.principal_due) rows) in
      (length rows ≡ 3) × (2 * asked ≤ 2 * 10000 + 3) × (2 * 10000 < 2 * asked + 3))
flat_schedule_near_principal_example = flat_schedule_near_principal 10000 2400 3 (omega arith)
