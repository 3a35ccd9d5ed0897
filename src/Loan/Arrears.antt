-- ===== src/Loan/Arrears.antt =====
-- Arrears, api/src/lib/arrears.ts. Dates are moments in milliseconds. In whole cents
-- `paid < totalDue - 0.01` says that more than one cent is missing.
mod Tests
pub mod Monotone
use nexus_efos.Common.{
  ℕ, ◌+◌, ◌-◌, ◌*◌, ◌/◌, Bool, ◌&&◌, List, [], ◌∷◌, filter, ltb, leb, if◌then◌else◌, sum_by,
}
use nexus_efos.Common.Rounding.{round2}

pub data ArrearsClassification : Type 0 where
  current arrears_1_30 arrears_31_60 arrears_61_90 arrears_90_plus : ArrearsClassification

pub record ArrearsInstallment : Type 0 where
  pub due_date : ℕ
  pub total_due : ℕ
  pub principal_paid : ℕ
  pub interest_paid : ℕ

pub record ArrearsResult : Type 0 where
  pub days_in_arrears : ℕ
  pub arrears_amount : ℕ
  pub classification : ArrearsClassification

unfoldable pub classify : ℕ → ArrearsClassification
classify days =
    if leb days 0
    then ArrearsClassification.current
    else (if leb days 30
        then ArrearsClassification.arrears_1_30
        else (if leb days 60
            then ArrearsClassification.arrears_31_60
            else (if leb days 90
                then ArrearsClassification.arrears_61_90
                else ArrearsClassification.arrears_90_plus)))

abbrev pub is_overdue : ℕ → ArrearsInstallment → Bool
is_overdue as_of i =
    ltb i.due_date as_of && ltb (i.principal_paid + i.interest_paid + 1) i.total_due

-- `overdue.reduce((min, i) => (i.dueDate < min ? i.dueDate : min), …)`
abbrev pub oldest_due : ℕ → List ArrearsInstallment → ℕ
oldest_due first [] = first
oldest_due first (i ∷ overdue) =
    oldest_due (if ltb i.due_date first then i.due_date else first) overdue

abbrev pub missing : ArrearsInstallment → ℕ
missing i = i.total_due - i.principal_paid - i.interest_paid

abbrev pub day : ℕ
day = 1000 * 60 * 60 * 24

-- The result for the installments that are overdue.
unfoldable pub summarise : ℕ → List ArrearsInstallment → ArrearsResult
summarise as_of [] = record {
  days_in_arrears = 0;
  arrears_amount = 0;
  classification = ArrearsClassification.current;
}
summarise as_of (i ∷ overdue) =
    let days = (as_of - oldest_due i.due_date (i ∷ overdue)) / day in
    record {
      days_in_arrears = days;
      arrears_amount = round2 (sum_by missing (i ∷ overdue)) 1;
      classification = classify days;
    }

unfoldable pub calculate_arrears : List ArrearsInstallment → ℕ → ArrearsResult
calculate_arrears installments as_of = summarise as_of (filter (is_overdue as_of) installments)
