-- ===== src/Loan/Allocation/Sums.antt =====
-- What a repayment adds to the amounts paid.
use nexus_efos.Common.{
  ℕ, ◌+◌, ◌-◌, ◌≡◌, refl, List, [], ◌∷◌, arith, ◌==◌, min, Bool-cases, inl, inr, sum_by, sum_by-nil,
  sum_by-cons, ==_iff,
}
use nexus_efos.Common.Rounding.{round2-one}
use nexus_efos.Loan.Allocation.{
  Installment, interest_outstanding, principal_outstanding, interest_paid_now, principal_paid_now,
  pay, allocate_repayment,
}

pub interest_paid_now-eq-min :
    (i : Installment) (r : ℕ) → interest_paid_now i r ≡ min r (interest_outstanding i)
unfolding interest_paid_now
interest_paid_now-eq-min i r = ground arith

pub principal_paid_now-eq-min :
    (i : Installment) (r : ℕ)
    → principal_paid_now i r ≡ min (r - interest_outstanding i) (principal_outstanding i)
unfolding principal_paid_now
principal_paid_now-eq-min i r = ground (arith, interest_paid_now-eq-min i r)

-- One turn of the loop in closed form.
pub pay_lem :
    (i : Installment) (r : ℕ)
    → let (i', left) = pay i r in
      (i'.interest_paid ≡ i.interest_paid + min r (interest_outstanding i))
      × (i'.principal_paid
          ≡ i.principal_paid + min (r - interest_outstanding i) (principal_outstanding i))
      × (left ≡ r - (interest_outstanding i + principal_outstanding i))
unfolding pay
pay_lem i r = ground (
  arith,
  interest_paid_now-eq-min i r,
  principal_paid_now-eq-min i r,
  round2-one (i.interest_paid + interest_paid_now i r),
  round2-one (i.principal_paid + principal_paid_now i r),
)

pub pay_fixed :
    (i : Installment) (r : ℕ)
    → let i' = (pay i r).0 in
      (i'.id ≡ i.id) × (i'.interest_due ≡ i.interest_due) × (i'.principal_due ≡ i.principal_due)
unfolding pay
pay_fixed i r = ground arith

abbrev pub paid_total : Installment → ℕ
paid_total i = i.interest_paid + i.principal_paid

abbrev pub outstanding : Installment → ℕ
outstanding i = interest_outstanding i + principal_outstanding i

pay_conserves : (i : Installment) (r : ℕ) → paid_total (pay i r).0 + (pay i r).1 ≡ paid_total i + r
pay_conserves i r = omega (arith, pay_lem i r)

-- What one turn leaves outstanding.
pub outstanding-pay : (i : Installment) (r : ℕ) → outstanding (pay i r).0 ≡ outstanding i - r
outstanding-pay i r = ground (arith, pay_lem i r, pay_fixed i r)

-- The amount is zero: nothing happens. Otherwise the oldest installment is paid, then the others.
pub allocate_repayment-zero :
    (l : List Installment)
    → let a = allocate_repayment l 0 in (a.installments ≡ l) × (a.updates ≡ []) × (a.remaining ≡ 0)
unfolding allocate_repayment
allocate_repayment-zero [] = (refl, refl, refl)
allocate_repayment-zero (i ∷ l) = (refl, refl, refl)

-- The repayment, the amounts paid and the amounts owed, over the whole loan: no money appears or
-- vanishes, and what is left over is what exceeds the amount owed.
pub allocate_repayment-conserves :
    (l : List Installment) (amount : ℕ)
    → let a = allocate_repayment l amount in
      (sum_by paid_total a.installments + a.remaining ≡ sum_by paid_total l + amount)
      × (a.remaining ≡ amount - sum_by outstanding l)
      × (sum_by outstanding a.installments ≡ sum_by outstanding l - amount)
unfolding allocate_repayment
allocate_repayment-conserves [] amount = simp sum_by-nil (omega arith)
allocate_repayment-conserves (i ∷ l) amount = elim (Bool-cases (amount == 0)) [
  | inl e ↦ let zero_amount : amount ≡ 0 = (==_iff _ _).0 e in rw (e, zero_amount) (omega arith)
  | inr e ↦ rw e (
      omega (
        arith,
        allocate_repayment-conserves l (pay i amount).1,
        pay_conserves i amount,
        pay_lem i amount,
        outstanding-pay i amount,
        sum_by-cons paid_total i l,
        sum_by-cons outstanding i l,
        sum_by-cons paid_total (pay i amount).0
            (allocate_repayment l (pay i amount).1).installments,
        sum_by-cons outstanding (pay i amount).0
            (allocate_repayment l (pay i amount).1).installments,
      ))
]
