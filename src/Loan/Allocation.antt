-- ===== src/Loan/Allocation.antt =====
-- `allocateRepayment` of api/src/lib/loanSchedule.ts: the oldest installment first, interest before
-- principal. In whole cents `x > 0.005` says that x is positive, and subtraction that stops at zero
-- gives the same tests and the same minima as a negative outstanding amount would.
pub mod Sums
pub mod Order
pub mod Replay
use nexus_efos.Common.{
  ℕ, suc, ◌+◌, ◌-◌, ◌*◌, Bool, true, false, ◌&&◌, ◌||◌, Option, none, some, List, [], ◌∷◌, ltb, leb,
  ◌==◌, if◌then◌else◌, min,
}
use nexus_efos.Common.Rounding.{round2}

pub data InstallmentStatus : Type 0 where
  pending partially_paid paid overdue : InstallmentStatus

pub record Installment : Type 0 where
  pub id : ℕ
  pub interest_due : ℕ
  pub principal_due : ℕ
  pub interest_paid : ℕ
  pub principal_paid : ℕ
  pub status : InstallmentStatus

pub record AllocationUpdate : Type 0 where
  pub id : ℕ
  pub new_interest_paid : ℕ
  pub new_principal_paid : ℕ
  pub new_status : InstallmentStatus

abbrev pub interest_outstanding : Installment → ℕ
interest_outstanding i = i.interest_due - i.interest_paid

abbrev pub principal_outstanding : Installment → ℕ
principal_outstanding i = i.principal_due - i.principal_paid

-- More than half a cent, `x > 0.005`.
abbrev pub is_outstanding : ℕ → Bool
is_outstanding x = ltb 1 (2 * x)

-- What one installment takes of the remaining amount, first for interest, then for principal.
unfoldable pub interest_paid_now : Installment → ℕ → ℕ
interest_paid_now i remaining =
    if is_outstanding (interest_outstanding i) then min remaining (interest_outstanding i) else 0

unfoldable pub principal_paid_now : Installment → ℕ → ℕ
principal_paid_now i remaining =
    let left = remaining - interest_paid_now i remaining in
    if ltb 0 left && is_outstanding (principal_outstanding i)
    then min left (principal_outstanding i)
    else 0

-- Paid to within one cent, `newPaid >= due - 0.01`.
abbrev pub is_fully_paid : ℕ → ℕ → Installment → Bool
is_fully_paid interest principal i =
    leb i.interest_due (interest + 1) && leb i.principal_due (principal + 1)

abbrev pub settle : Installment → ℕ → ℕ → Installment
settle i interest principal = record i {
  interest_paid = interest;
  principal_paid = principal;
  status =
      if is_fully_paid interest principal i
      then InstallmentStatus.paid
      else InstallmentStatus.partially_paid;
}

-- One turn of the loop: the installment as it is left, and what is left of the amount.
unfoldable pub pay : Installment → ℕ → Installment × ℕ
pay i remaining =
    let interest = interest_paid_now i remaining in
    let principal = principal_paid_now i remaining in
    let left = remaining - interest - principal in
    if ltb 0 interest || ltb 0 principal
    then (
      settle i (round2 (i.interest_paid + interest) 1) (round2 (i.principal_paid + principal) 1),
      left,
    )
    else (i, left)

-- Whether the turn changes the installment, and so reports an update.
unfoldable pub is_changed : Installment → ℕ → Bool
is_changed i remaining =
    ltb 0 (interest_paid_now i remaining) || ltb 0 (principal_paid_now i remaining)

abbrev pub update_of : Installment → AllocationUpdate
update_of i = record {
  id = i.id;
  new_interest_paid = i.interest_paid;
  new_principal_paid = i.principal_paid;
  new_status = i.status;
}

pub record Allocated : Type 0 where
  pub installments : List Installment
  pub updates : List AllocationUpdate
  pub remaining : ℕ

unfoldable pub allocate_repayment : List Installment → ℕ → Allocated
allocate_repayment [] amount = record { installments = []; updates = []; remaining = amount }
allocate_repayment (i ∷ rest) amount =
    let i' = pay i amount in
    let later = allocate_repayment rest i'.1 in
    if amount == 0
    then record { installments = i ∷ rest; updates = []; remaining = 0 }
    else record {
      installments = i'.0 ∷ later.installments;
      updates = if is_changed i amount then update_of i'.0 ∷ later.updates else later.updates;
      remaining = later.remaining;
    }
