-- ===== src/Loan/Securities/Limits.antt =====
-- The guarantees of a loan never exceed its principal.
use nexus_efos.Common.{
  ℕ, ◌+◌, ◌≤◌, ◌≡◌, refl, sym, ap, ◌∙◌, Bool, true, false, not, ◌&&◌, Option, none, some, List, [],
  ◌∷◌, ltb, ◌==◌, if◌then◌else◌, arith, Bool-cases, inl, inr, ==_iff,
}
use nexus_efos.Common.Table.{Table, get, set}
use nexus_efos.Common.Result.{
  Result, ok, settle, bad_request, not_found, server_error, settle-keeps, guard-eq-ok,
  require-eq-ok, ok-injective,
}
use nexus_efos.Loan.Lifecycle.{Loan}
use nexus_efos.Loan.Securities.{
  GuarantorStatus, Guarantor, Securities, is_absent, is_pending, is_granted, is_pledged,
  is_released, pledged_by, total_pledged, register_guarantor, approve_guarantor, release_guarantor,
  register_collateral, revalue, release_collateral, realise,
}

pub data Op : Type 0 where
  register_op : ℕ → ℕ → ℕ → Op
  approve_op release_op : ℕ → Op
  register_collateral_op : ℕ → ℕ → ℕ → Op
  revalue_op : ℕ → ℕ → Op
  release_collateral_op : ℕ → Op
  realise_op : ℕ → ℕ → Op

unfoldable pub perform : Op → Securities → Result Securities
perform (register_op id loan_id limit) = register_guarantor id loan_id limit
perform (approve_op id) = approve_guarantor id
perform (release_op id) = release_guarantor id
perform (register_collateral_op id loan_id value) = register_collateral id loan_id value
perform (revalue_op id value) = revalue id value
perform (release_collateral_op id) = release_collateral id
perform (realise_op id amount) = realise id amount

unfoldable pub run : List Op → Securities → Securities
run [] s = s
run (op ∷ ops) s = run ops (settle s (perform op s))

abbrev pub IsCovered : Securities → Type 0
IsCovered s =
    (loan_id : ℕ) (loan : Loan)
    → get loan_id s.loans ≡ some loan
    → total_pledged loan_id s.guarantors ≤ loan.principal

abbrev pledged_row : ℕ → Option Guarantor → ℕ
pledged_row loan_id none = 0
pledged_row loan_id (some g) = pledged_by loan_id g

total_pledged-set :
    (loan_id k : ℕ) (g : Guarantor) (t : Table Guarantor)
    → total_pledged loan_id (set k g t) + pledged_row loan_id (get k t)
      ≡ total_pledged loan_id t + pledged_by loan_id g
total_pledged-set loan_id k g [] = omega arith
total_pledged-set loan_id k g ((j, w) ∷ t) = elim (Bool-cases (k == j)) [
  | inl same ↦ rw same (omega arith)
  | inr other ↦ rw other (omega (arith, total_pledged-set loan_id k g t))
]

-- A write that raises no loan's total keeps the limits.
lower-IsCovered :
    (s : Securities) (k : ℕ) (g w : Guarantor)
    → get k s.guarantors ≡ some w
    → ((loan_id : ℕ) → pledged_by loan_id g ≤ pledged_by loan_id w)
    → IsCovered s
    → IsCovered (record s { guarantors = set k g s.guarantors })
lower-IsCovered s k g w known lower inv loan_id loan found = omega (
  arith,
  total_pledged-set loan_id k g s.guarantors,
  ap (pledged_row loan_id) known,
  lower loan_id,
  inv loan_id loan found,
)

register-IsCovered :
    (id loan_id limit : ℕ) (s s' : Securities)
    → IsCovered s
    → register_guarantor id loan_id limit s ≡ ok s'
    → IsCovered s'
unfolding register_guarantor
register-IsCovered id loan_id limit s s' inv h =
    let (_, h1) = guard-eq-ok (ltb 0 limit) bad_request _ h in
    let (loan, found, h2) = require-eq-ok (get loan_id s.loans) not_found _ h1 in
    let (within, h3) =
      guard-eq-ok (not (ltb loan.principal (total_pledged loan_id s.guarantors + limit)))
        bad_request _ h2 in
    let (fresh, last) = guard-eq-ok (is_absent (get id s.guarantors)) server_error _ h3 in
    rw (← ok-injective last) (covered loan found within)
  where
    new : Guarantor
    new = record { loan_id = loan_id; guarantee_limit = limit; status = GuarantorStatus.pending }

    fits : (a b : ℕ) → not (ltb a b) ≡ true → b ≤ a
    fits a b e = ground arith

    counts : (l : ℕ) → (loan_id == l) ≡ true → pledged_by l new ≡ limit
    counts l same = rw same refl

    counts_none : (l : ℕ) → (loan_id == l) ≡ false → pledged_by l new ≡ 0
    counts_none l other = rw other refl

    own :
        (l : ℕ) (p : ℕ)
        → ((l ≡ loan_id) → total_pledged loan_id s.guarantors + limit ≤ p)
        → total_pledged l s.guarantors ≤ p
        → total_pledged l (set id new s.guarantors) ≤ p
    own l p here there = elim (Bool-cases (loan_id == l)) [
      | inl same ↦
          let e : l ≡ loan_id = sym ((==_iff loan_id l).0 same) in
          omega (
            arith,
            total_pledged-set l id new s.guarantors,
            here e,
            ap (λ k. total_pledged k s.guarantors) e,
            counts l same,
          )
      | inr other ↦
          omega (arith, total_pledged-set l id new s.guarantors, there, counts_none l other)
    ]

    covered :
        (loan : Loan)
        → get loan_id s.loans ≡ some loan
        → not (ltb loan.principal (total_pledged loan_id s.guarantors + limit)) ≡ true
        → IsCovered (record s { guarantors = set id new s.guarantors })
    covered loan found within l loan' found' =
        own l loan'.principal (λ e. here loan' (sym found ∙ rw e at found')) (inv l loan' found')
      where
        injective : (other : Loan) → some loan ≡ some other → loan ≡ other
        injective other same = cc

        here :
            (other : Loan)
            → some loan ≡ some other
            → total_pledged loan_id s.guarantors + limit ≤ other.principal
        here other same = rw (← injective other same) (fits loan.principal _ within)

approve-IsCovered :
    (id : ℕ) (s s' : Securities) → IsCovered s → approve_guarantor id s ≡ ok s' → IsCovered s'
unfolding approve_guarantor
approve-IsCovered id s s' inv h =
    let (g, found, h1) = require-eq-ok (get id s.guarantors) not_found _ h in
    let (pending, last) = guard-eq-ok (is_pending g.status) bad_request _ h1 in
    rw (← ok-injective last) (
      lower-IsCovered s id (record g { status = GuarantorStatus.approved }) g found
        (λ l. same g g.status pending l) inv)
  where
    same :
        (g : Guarantor) (status : GuarantorStatus)
        → is_pending status ≡ true
        → (l : ℕ)
        → pledged_by l (record g { status = GuarantorStatus.approved })
          ≤ pledged_by l (record g { status = status })
    same g GuarantorStatus.pending p l = omega arith
    same g GuarantorStatus.approved p l = cc
    same g GuarantorStatus.released p l = cc

release-IsCovered :
    (id : ℕ) (s s' : Securities) → IsCovered s → release_guarantor id s ≡ ok s' → IsCovered s'
unfolding release_guarantor
release-IsCovered id s s' inv h =
    let (g, found, h1) = require-eq-ok (get id s.guarantors) not_found _ h in
    let (_, last) = guard-eq-ok (not (is_released g.status)) bad_request _ h1 in
    rw (← ok-injective last) (
      lower-IsCovered s id (record g { status = GuarantorStatus.released }) g found
        (λ l. none_left (g.loan_id == l) g.guarantee_limit _) inv)
  where
    none_left : (b : Bool) (x y : ℕ) → (if b && false then x else 0) ≤ y
    none_left true x y = omega arith
    none_left false x y = omega arith

-- The operations on collateral leave the loans and the guarantors alone.
abbrev IsSame : Securities → Securities → Type 0
IsSame s s' = (s'.loans ≡ s.loans) × (s'.guarantors ≡ s.guarantors)

same-IsCovered : (s s' : Securities) → IsSame s s' → IsCovered s → IsCovered s'
same-IsCovered s s' (loans, guarantors) inv l loan found =
    rw guarantors (inv l loan (rw loans at found))

register_collateral-IsSame :
    (id loan_id value : ℕ) (s s' : Securities)
    → register_collateral id loan_id value s ≡ ok s'
    → IsSame s s'
unfolding register_collateral
register_collateral-IsSame id loan_id value s s' h =
    let (_, h1) = guard-eq-ok (ltb 0 value) bad_request _ h in
    let (loan, _, h2) = require-eq-ok (get loan_id s.loans) not_found _ h1 in
    let (_, h3) = guard-eq-ok (is_granted loan.status) bad_request _ h2 in
    let (_, last) = guard-eq-ok (is_absent (get id s.collaterals)) server_error _ h3 in
    rw (← ok-injective last) (refl, refl)

revalue-IsSame : (id value : ℕ) (s s' : Securities) → revalue id value s ≡ ok s' → IsSame s s'
unfolding revalue
revalue-IsSame id value s s' h =
    let (_, h1) = guard-eq-ok (ltb 0 value) bad_request _ h in
    let (c, _, last) = require-eq-ok (get id s.collaterals) not_found _ h1 in
    rw (← ok-injective last) (refl, refl)

release_collateral-IsSame :
    (id : ℕ) (s s' : Securities) → release_collateral id s ≡ ok s' → IsSame s s'
unfolding release_collateral
release_collateral-IsSame id s s' h =
    let (c, _, h1) = require-eq-ok (get id s.collaterals) not_found _ h in
    let (_, last) = guard-eq-ok (is_pledged c.status) bad_request _ h1 in
    rw (← ok-injective last) (refl, refl)

realise-IsSame : (id amount : ℕ) (s s' : Securities) → realise id amount s ≡ ok s' → IsSame s s'
unfolding realise
realise-IsSame id amount s s' h =
    let (_, h1) = guard-eq-ok (ltb 0 amount) bad_request _ h in
    let (c, _, h2) = require-eq-ok (get id s.collaterals) not_found _ h1 in
    let (_, last) = guard-eq-ok (is_pledged c.status) bad_request _ h2 in
    rw (← ok-injective last) (refl, refl)

perform-IsCovered :
    (op : Op) (s s' : Securities) → IsCovered s → perform op s ≡ ok s' → IsCovered s'
unfolding perform
perform-IsCovered (register_op id loan_id limit) s s' inv h =
    register-IsCovered id loan_id limit s s' inv h
perform-IsCovered (approve_op id) s s' inv h = approve-IsCovered id s s' inv h
perform-IsCovered (release_op id) s s' inv h = release-IsCovered id s s' inv h
perform-IsCovered (register_collateral_op id loan_id value) s s' inv h =
    same-IsCovered s s' (register_collateral-IsSame id loan_id value s s' h) inv
perform-IsCovered (revalue_op id value) s s' inv h =
    same-IsCovered s s' (revalue-IsSame id value s s' h) inv
perform-IsCovered (release_collateral_op id) s s' inv h =
    same-IsCovered s s' (release_collateral-IsSame id s s' h) inv
perform-IsCovered (realise_op id amount) s s' inv h =
    same-IsCovered s s' (realise-IsSame id amount s s' h) inv

-- If it holds at first, as it does of loans without guarantors, then after any sequence of operations
-- on guarantors and collateral, refused ones included, the limits of the guarantors of a loan that are
-- not released sum up to no more than its principal.
pub guarantees_within_principal :
    (ops : List Op) (s : Securities) → IsCovered s → IsCovered (run ops s)
unfolding run
guarantees_within_principal [] s inv = inv
guarantees_within_principal (op ∷ ops) s inv =
    guarantees_within_principal ops (settle s (perform op s))
      (settle-keeps IsCovered s (perform op s) inv (λ s' h. perform-IsCovered op s s' inv h))
