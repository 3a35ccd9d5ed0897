-- ===== src/Loan/Allocation/Order.antt =====
-- The order in which installments are paid.
use nexus_efos.Common.{
  ℕ, ◌≤◌, ◌<◌, ◌≡◌, ◌⊎◌, refl, List, [], ◌∷◌, arith, ◌==◌, Bool-cases, inl, inr, All,
}
use nexus_efos.Loan.Allocation.{Installment, pay, allocate_repayment}
use nexus_efos.Loan.Allocation.Sums.{
  pay_lem, pay_fixed, outstanding, outstanding-pay, allocate_repayment-zero,
}

-- No installment holds more than is due.
abbrev pub IsWithin : Installment → Type 0
IsWithin i = (i.interest_paid ≤ i.interest_due) × (i.principal_paid ≤ i.principal_due)

-- Compared with the installment before the repayment: interest comes first.
abbrev pub IsInterestFirst : Installment → Installment → Type 0
IsInterestFirst i i' = i.principal_paid < i'.principal_paid → i'.interest_due ≤ i'.interest_paid

-- An installment is settled before a later one is touched.
abbrev pub IsOldestFirst : List Installment → List Installment → Type 0
IsOldestFirst [] [] = Unit
IsOldestFirst (i ∷ l) (i' ∷ l') =
    ((outstanding i' ≡ 0) ⊎ (l' ≡ l)) × IsInterestFirst i i' × IsOldestFirst l l'
IsOldestFirst _ _ = ⊥

IsOldestFirst-self : (l : List Installment) → IsOldestFirst l l
IsOldestFirst-self [] = tt
IsOldestFirst-self (i ∷ l) = (inr refl, (λ h. absurd (omega arith)), IsOldestFirst-self l)

pay-IsInterestFirst : (i : Installment) (r : ℕ) → IsInterestFirst i (pay i r).0
pay-IsInterestFirst i r h = omega (arith, pay_lem i r, pay_fixed i r)

pub pay-IsWithin : (i : Installment) (r : ℕ) → IsWithin i → IsWithin (pay i r).0
pay-IsWithin i r h = omega (arith, pay_lem i r, pay_fixed i r)

settled_or_spent : (i : Installment) (r : ℕ) → (outstanding (pay i r).0 ≡ 0) ⊎ ((pay i r).1 ≡ 0)
settled_or_spent i r = omega (arith, pay_lem i r, outstanding-pay i r)

-- A repayment settles each installment before it touches a later one, and pays principal only where
-- no interest is left; and if no installment held more than is due, none does afterwards.
pub allocate_repayment_order :
    (l : List Installment) (amount : ℕ)
    → let l' = (allocate_repayment l amount).installments in
      IsOldestFirst l l' × (All IsWithin l → All IsWithin l')
unfolding allocate_repayment
allocate_repayment_order [] amount = (tt, λ h. tt)
allocate_repayment_order (i ∷ l) amount = elim (Bool-cases (amount == 0)) [
  | inl e ↦ rw e (IsOldestFirst-self (i ∷ l), λ h. h)
  | inr e ↦
      let (order, within) = allocate_repayment_order l (pay i amount).1 in
      rw e (
        (
          elim (settled_or_spent i amount) [
            | inl settled ↦ inl settled
            | inr spent ↦ inr (rw spent (allocate_repayment-zero l).0)
          ],
          pay-IsInterestFirst i amount,
          order,
        ),
        λ (p, h). (pay-IsWithin i amount p, within h),
      )
]
