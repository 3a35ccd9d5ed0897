-- ===== src/Loan/Repayment/Closing.antt =====
-- When a repayment closes the loan.
use nexus_efos.Common.{
  ℕ, ◌≤◌, ◌<◌, ◌≡◌, ◌≢◌, ◌⊎◌, refl, sym, ap, ◌∙◌, Bool, true, false, List, [], ◌∷◌, arith,
  Bool-cases, inl, inr, All, all, length, sum_by, sum_by-cons,
}
use nexus_efos.Loan.Allocation.{Installment, pay, allocate_repayment}
use nexus_efos.Loan.Allocation.Sums.{outstanding, outstanding-pay, pay_lem, pay_fixed}
use nexus_efos.Loan.Allocation.Replay.{
  pays, verdict-settled, pay_status_paid, pay_idle, allocate_repayment-cons,
}
use nexus_efos.Loan.Repayment.{Loan, LoanStatus, is_paid, is_repaid, apply_loan_repayment_in_tx}
use nexus_efos.Loan.Repayment.Persisted.{HasUniqueIds, update_rows-allocate_repayment}

-- Something is left to pay, or the installment is marked PAID.
abbrev pub IsRegular : Installment → Type 0
IsRegular i = (0 < outstanding i) ⊎ (is_paid i.status ≡ true)

-- Paying at least what an installment still owes marks it PAID.
pay-paid :
    (i : Installment) (r : ℕ) → IsRegular i → outstanding i ≤ r → is_paid (pay i r).0.status ≡ true
pay-paid i r regular h = elim (Bool-cases (pays i r)) [
  | inl p ↦
      ap is_paid
        (pay_status_paid i r p ∙ verdict-settled (pay i r).0 (omega (arith, outstanding-pay i r)))
  | inr idle ↦ ap (λ (x : Installment). is_paid x.status) (pay_idle i r idle) ∙ left_paid idle
]
  where
    left_paid : pays i r ≡ false → is_paid i.status ≡ true
    left_paid idle = elim regular [ inl owing ↦ absurd (ground arith) | inr marked ↦ marked ]

pub allocate_repayment-settles :
    (rows : List Installment) (amount : ℕ)
    → All IsRegular rows
    → sum_by outstanding rows ≤ amount
    → all (λ i. is_paid i.status) (allocate_repayment rows amount).installments ≡ true
allocate_repayment-settles [] amount h enough = unfold allocate_repayment in refl
allocate_repayment-settles (i ∷ rows) amount (p, h) enough =
    let total = sum_by-cons outstanding i rows in
    rw (allocate_repayment-cons i rows amount) (
      rw (pay-paid i amount p (omega arith))
        (allocate_repayment-settles rows (pay i amount).1 h (omega (arith, pay_lem i amount))))

closing :
    (rows : List Installment) (amount : ℕ)
    → 0 < length rows
    → All IsRegular rows
    → sum_by outstanding rows ≤ amount
    → is_repaid (allocate_repayment rows amount).installments ≡ true
closing [] amount some_rows h enough = absurd (omega arith)
closing (i ∷ rows) amount some_rows h enough =
    let settled = allocate_repayment-settles (i ∷ rows) amount h enough in
    let settled' = rw (allocate_repayment-cons i rows amount) at settled in
    rw (allocate_repayment-cons i rows amount) (ground (arith, settled'))

-- If the ids are distinct and every installment either owes something or is marked PAID, a repayment
-- of at least what the loan owes closes the loan.
pub repayment_closes :
    (loan : Loan) (amount : ℕ)
    → HasUniqueIds loan.installments
    → 0 < length loan.installments
    → All IsRegular loan.installments
    → sum_by outstanding loan.installments ≤ amount
    → let (loan', loan_closed) = apply_loan_repayment_in_tx loan amount in
      (loan_closed ≡ true) × (loan'.status ≡ LoanStatus.closed)
unfolding apply_loan_repayment_in_tx
repayment_closes loan amount ids some_rows regular enough =
    rw (update_rows-allocate_repayment loan.installments amount ids, repaid) (refl, refl)
  where
    repaid : is_repaid (allocate_repayment loan.installments amount).installments ≡ true
    repaid = closing loan.installments amount some_rows regular enough

-- Nothing is left to pay, and yet the installment is not marked PAID.
abbrev pub IsStuck : Installment → Type 0
IsStuck i = (outstanding i ≡ 0) × (is_paid i.status ≡ false)

abbrev pub HasStuck : List Installment → Type 0
HasStuck [] = ⊥
HasStuck (i ∷ rows) = IsStuck i ⊎ HasStuck rows

ids-allocate :
    (k : ℕ) (rows : List Installment) (amount : ℕ)
    → All (λ (j : Installment). j.id ≢ k) rows
    → All (λ (j : Installment). j.id ≢ k) (allocate_repayment rows amount).installments
ids-allocate k [] amount h = unfold allocate_repayment in tt
ids-allocate k (i ∷ rows) amount (ne, h) =
    rw (allocate_repayment-cons i rows amount)
      ((λ same. ne (sym (pay_fixed i amount).0 ∙ same)), ids-allocate k rows (pay i amount).1 h)

HasUniqueIds-allocate :
    (rows : List Installment) (amount : ℕ)
    → HasUniqueIds rows
    → HasUniqueIds (allocate_repayment rows amount).installments
HasUniqueIds-allocate [] amount h = unfold allocate_repayment in tt
HasUniqueIds-allocate (i ∷ rows) amount (ne, h) = rw (allocate_repayment-cons i rows amount) (
  rw (pay_fixed i amount).0 (ids-allocate i.id rows (pay i amount).1 ne),
  HasUniqueIds-allocate rows (pay i amount).1 h,
)

HasStuck-allocate :
    (rows : List Installment) (amount : ℕ)
    → HasStuck rows
    → HasStuck (allocate_repayment rows amount).installments
HasStuck-allocate [] amount h = absurd h
HasStuck-allocate (i ∷ rows) amount h = rw (allocate_repayment-cons i rows amount) (elim h [
  | inl stuck ↦ inl (rw (pay_idle i amount (idle stuck.0)) stuck)
  | inr later ↦ inr (HasStuck-allocate rows (pay i amount).1 later)
])
  where
    idle : outstanding i ≡ 0 → pays i amount ≡ false
    idle none_left = ground arith

not_repaid : (rows : List Installment) → HasStuck rows → all (λ i. is_paid i.status) rows ≡ false
not_repaid [] h = absurd h
not_repaid (i ∷ rows) (inl stuck) = rw stuck.1 refl
not_repaid (i ∷ rows) (inr later) = ground (arith, not_repaid rows later)

abbrev pub is_closed : LoanStatus → Bool
is_closed LoanStatus.closed = true
is_closed _ = false

-- The repayments of a loan, one after the other.
abbrev pub repay_each : Loan → List ℕ → Loan
repay_each loan [] = loan
repay_each loan (a ∷ amounts) = repay_each (apply_loan_repayment_in_tx loan a).0 amounts

still_stuck :
    (loan : Loan) (amount : ℕ)
    → HasUniqueIds loan.installments
    → HasStuck loan.installments
    → let loan' = (apply_loan_repayment_in_tx loan amount).0 in
      HasUniqueIds loan'.installments × HasStuck loan'.installments
unfolding apply_loan_repayment_in_tx
still_stuck loan amount ids stuck =
    rw (update_rows-allocate_repayment loan.installments amount ids) (
      HasUniqueIds-allocate loan.installments amount ids,
      HasStuck-allocate loan.installments amount stuck,
    )

not_closed :
    (loan : Loan) (amount : ℕ)
    → HasUniqueIds loan.installments
    → HasStuck loan.installments
    → is_closed loan.status ≡ false
    → is_closed (apply_loan_repayment_in_tx loan amount).0.status ≡ false
unfolding apply_loan_repayment_in_tx
not_closed loan amount ids stuck h =
    let rows = (allocate_repayment loan.installments amount).installments in
    let unpaid : is_repaid rows ≡ false =
      ground (arith, not_repaid rows (HasStuck-allocate loan.installments amount stuck)) in
    rw (update_rows-allocate_repayment loan.installments amount ids, unpaid) (ground (arith, h))

-- While a loan that is not closed has an installment that owes nothing and is not marked PAID, no
-- sequence of repayments, of whatever amounts, closes it.
pub stuck_loan_stays_open :
    (amounts : List ℕ) (loan : Loan)
    → HasUniqueIds loan.installments
    → HasStuck loan.installments
    → is_closed loan.status ≡ false
    → is_closed (repay_each loan amounts).status ≡ false
stuck_loan_stays_open [] loan ids stuck h = h
stuck_loan_stays_open (a ∷ amounts) loan ids stuck h =
    let (ids', stuck') = still_stuck loan a ids stuck in
    stuck_loan_stays_open amounts (apply_loan_repayment_in_tx loan a).0 ids' stuck'
      (not_closed loan a ids stuck h)
