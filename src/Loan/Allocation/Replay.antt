-- ===== src/Loan/Allocation/Replay.antt =====
-- Replaying repayments one after the other, as the full-history migration does.
use nexus_efos.Common.{
  ℕ, ◌+◌, ◌≡◌, refl, sym, ◌∙◌, Bool, true, false, List, [], ◌∷◌, arith, ◌==◌, if◌then◌else◌, ltb,
  ltb→lt, lt→ltb, ap, ap₂, min, Bool-cases, inl, inr, ==_iff,
}
use nexus_efos.Common.Rounding.{round2-one}
use nexus_efos.Loan.Allocation.{
  Installment, InstallmentStatus, interest_paid_now, principal_paid_now, is_fully_paid, pay,
  allocate_repayment,
}
use nexus_efos.Loan.Allocation.Sums.{
  interest_paid_now-eq-min, principal_paid_now-eq-min, pay_lem, pay_fixed, outstanding,
  outstanding-pay, allocate_repayment-zero,
}

pub verdict : Installment → InstallmentStatus
verdict i =
    if is_fully_paid i.interest_paid i.principal_paid i
    then InstallmentStatus.paid
    else InstallmentStatus.partially_paid

verdict-congr :
    (i j : Installment)
    → (i.interest_due ≡ j.interest_due) × (i.principal_due ≡ j.principal_due)
    → (i.interest_paid ≡ j.interest_paid) × (i.principal_paid ≡ j.principal_paid)
    → verdict i ≡ verdict j
unfolding verdict
verdict-congr i j (a, b) (c, d) = rw (a, b, c, d)

-- Nothing is left to pay, so the status is PAID.
pub verdict-settled : (i : Installment) → outstanding i ≡ 0 → verdict i ≡ InstallmentStatus.paid
unfolding verdict
verdict-settled i h = ground arith

-- Whether a turn pays anything.
abbrev pub pays : Installment → ℕ → Bool
pays i r = ltb 0 (min r (outstanding i))

-- The status after a turn depends on whether anything was paid, and then only on the new amounts.
pay_status :
    (i : Installment) (r : ℕ)
    → let i' = (pay i r).0 in i'.status ≡ (if pays i r then verdict i' else i.status)
unfolding pay verdict
pay_status i r = ground (
  arith,
  interest_paid_now-eq-min i r,
  principal_paid_now-eq-min i r,
  round2-one (i.interest_paid + interest_paid_now i r),
  round2-one (i.principal_paid + principal_paid_now i r),
)

pub pay_status_paid :
    (i : Installment) (r : ℕ) → pays i r ≡ true → (pay i r).0.status ≡ verdict (pay i r).0
pay_status_paid i r h = rw (pay_status i r, h)

pub pay_idle : (i : Installment) (r : ℕ) → pays i r ≡ false → (pay i r).0 ≡ i
unfolding pay
pay_idle i r h = ground (arith, interest_paid_now-eq-min i r, principal_paid_now-eq-min i r)

Installment-ext :
    (i j : Installment)
    → i.id ≡ j.id
    → i.interest_due ≡ j.interest_due
    → i.principal_due ≡ j.principal_due
    → i.interest_paid ≡ j.interest_paid
    → i.principal_paid ≡ j.principal_paid
    → i.status ≡ j.status
    → i ≡ j
Installment-ext i j a b c d e f = cc

module _ (i : Installment) (a b : ℕ) where
  abbrev once : Installment
  once = (pay i (a + b)).0

  abbrev twice : Installment
  twice = (pay (pay i a).0 b).0

  same_fixed :
      (twice.id ≡ once.id)
      × (twice.interest_due ≡ once.interest_due)
      × (twice.principal_due ≡ once.principal_due)
  same_fixed = omega (arith, pay_fixed i a, pay_fixed (pay i a).0 b, pay_fixed i (a + b))

  same_paid :
      (twice.interest_paid ≡ once.interest_paid) × (twice.principal_paid ≡ once.principal_paid)
  same_paid = omega (arith, pay_lem i a, pay_fixed i a, pay_lem (pay i a).0 b, pay_lem i (a + b))

  same_left : (pay i (a + b)).1 ≡ (pay i a).1 + (pay (pay i a).0 b).1
  same_left =
      omega (arith, pay_lem i a, outstanding-pay i a, pay_lem (pay i a).0 b, pay_lem i (a + b))

  agree : verdict twice ≡ verdict once
  agree = verdict-congr twice once (same_fixed.1, same_fixed.2) same_paid

  pays_later : pays (pay i a).0 b ≡ true → pays i (a + b) ≡ true
  pays_later h = lt→ltb _ _ (omega (arith, ltb→lt _ _ h, outstanding-pay i a))

  pays_first : pays i a ≡ true → pays i (a + b) ≡ true
  pays_first h = lt→ltb _ _ (omega (arith, ltb→lt _ _ h))

  pays_never : pays i a ≡ false → pays (pay i a).0 b ≡ false → pays i (a + b) ≡ false
  pays_never h k = ground (arith, outstanding-pay i a)

  same_status : twice.status ≡ once.status
  same_status = elim (Bool-cases (pays (pay i a).0 b)) [
    | inl later ↦
        pay_status_paid (pay i a).0 b later
        ∙ agree
        ∙ sym (pay_status_paid i (a + b) (pays_later later))
    | inr idle ↦
        ap (λ (x : Installment). x.status) (pay_idle (pay i a).0 b idle)
        ∙ elim (Bool-cases (pays i a)) [
          | inl first ↦
              pay_status_paid i a first
              ∙ ap verdict (sym (pay_idle (pay i a).0 b idle))
              ∙ agree
              ∙ sym (pay_status_paid i (a + b) (pays_first first))
          | inr spared ↦
              ap (λ (x : Installment). x.status)
                (pay_idle i a spared ∙ sym (pay_idle i (a + b) (pays_never spared idle)))
        ]
  ]

  pub pay-pay : (pay (pay i a).0 b).0 ≡ (pay i (a + b)).0
  pay-pay =
      Installment-ext twice once same_fixed.0 same_fixed.1 same_fixed.2 same_paid.0 same_paid.1
        same_status

pub allocate_repayment-cons :
    (i : Installment) (l : List Installment) (amount : ℕ)
    → (allocate_repayment (i ∷ l) amount).installments
      ≡ (pay i amount).0 ∷ (allocate_repayment l (pay i amount).1).installments
unfolding allocate_repayment
allocate_repayment-cons i l amount = elim (Bool-cases (amount == 0)) [
  | inl e ↦
      let no_amount : amount ≡ 0 = (==_iff _ _).0 e in
      let spent : (pay i 0).1 ≡ 0 = omega (arith, pay_lem i 0) in
      let idle : (pay i 0).0 ≡ i = pay_idle i 0 (ground arith) in
      rw (e, no_amount) (rw (spent, idle, (allocate_repayment-zero l).0) refl)
  | inr e ↦ rw e refl
]

-- Two repayments in a row leave the installments as one repayment of their sum does, statuses
-- included.
pub allocate_repayment-replay :
    (l : List Installment) (a b : ℕ)
    → (allocate_repayment (allocate_repayment l a).installments b).installments
      ≡ (allocate_repayment l (a + b)).installments
allocate_repayment-replay [] a b = unfold allocate_repayment in refl
allocate_repayment-replay (i ∷ l) a b =
    ap (λ m. (allocate_repayment m b).installments) (allocate_repayment-cons i l a)
    ∙ allocate_repayment-cons (pay i a).0 (allocate_repayment l (pay i a).1).installments b
    ∙ ap₂ (λ x m. x ∷ m) (pay-pay i a b)
        (allocate_repayment-replay l (pay i a).1 (pay (pay i a).0 b).1
          ∙ ap (λ r. (allocate_repayment l r).installments) (sym (same_left i a b)))
    ∙ sym (allocate_repayment-cons i l (a + b))
