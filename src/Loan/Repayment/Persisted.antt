-- ===== src/Loan/Repayment/Persisted.antt =====
-- The rows written one by one, against the installments in memory.
use nexus_efos.Common.{
  ℕ, ◌≡◌, ◌≢◌, refl, sym, ap, ap₂, ◌∙◌, false, List, [], ◌∷◌, arith, ◌==◌, Bool-cases, inl, inr,
  All, All-map, ==_iff,
}
use nexus_efos.Loan.Allocation.{
  Installment, AllocationUpdate, is_changed, pay, update_of, allocate_repayment,
}
use nexus_efos.Loan.Allocation.Sums.{pay_fixed}
use nexus_efos.Loan.Repayment.{update_row, update_rows}

-- Installment ids are primary keys.
abbrev pub HasUniqueIds : List Installment → Type 0
HasUniqueIds [] = Unit
HasUniqueIds (i ∷ rows) = All (λ (j : Installment). j.id ≢ i.id) rows × HasUniqueIds rows

unchanged : (i : Installment) (r : ℕ) → is_changed i r ≡ false → (pay i r).0 ≡ i
unfolding pay is_changed
unchanged i r h = rw h refl

updates-ids :
    (k : ℕ) (rows : List Installment) (amount : ℕ)
    → All (λ (j : Installment). j.id ≢ k) rows
    → All (λ (u : AllocationUpdate). u.id ≢ k) (allocate_repayment rows amount).updates
unfolding allocate_repayment
updates-ids k [] amount h = tt
updates-ids k (i ∷ rows) amount (ne, h) = elim (Bool-cases (amount == 0)) [
  | inl e ↦ rw e tt
  | inr e ↦
      let later = updates-ids k rows (pay i amount).1 h in
      elim (Bool-cases (is_changed i amount)) [
        | inl c ↦ rw (e, c) ((λ same. ne (sym (pay_fixed i amount).0 ∙ same)), later)
        | inr c ↦ rw (e, c) later
      ]
]

update_rows-cons :
    (updates : List AllocationUpdate) (i : Installment) (rows : List Installment)
    → All (λ (u : AllocationUpdate). u.id ≢ i.id) updates
    → update_rows updates (i ∷ rows) ≡ i ∷ update_rows updates rows
update_rows-cons [] i rows h = refl
update_rows-cons (u ∷ updates) i rows (ne, h) = elim (Bool-cases (u.id == i.id)) [
  | inl e ↦ absurd (ne ((==_iff _ _).0 e))
  | inr e ↦ rw e (update_rows-cons updates i (update_row u rows) h)
]

-- Writing an installment's own update gives the installment as the turn left it.
update_row-pay :
    (i : Installment) (r : ℕ) (rows : List Installment)
    → update_row (update_of (pay i r).0) (i ∷ rows) ≡ (pay i r).0 ∷ rows
update_row-pay i r rows = ground (arith, pay_fixed i r)

-- If the ids are distinct, the rows in the database end up as the installments in memory do.
pub update_rows-allocate_repayment :
    (rows : List Installment) (amount : ℕ)
    → HasUniqueIds rows
    → let a = allocate_repayment rows amount in update_rows a.updates rows ≡ a.installments
unfolding allocate_repayment
update_rows-allocate_repayment [] amount h = refl
update_rows-allocate_repayment (i ∷ rows) amount (ne, h) = elim (Bool-cases (amount == 0)) [
  | inl e ↦ rw e refl
  | inr e ↦
      let later = update_rows-allocate_repayment rows (pay i amount).1 h in
      let updates = (allocate_repayment rows (pay i amount).1).updates in
      let ids = updates-ids i.id rows (pay i amount).1 ne in
      let ids' =
        All-map (λ (u : AllocationUpdate). u.id ≢ i.id)
          (λ (u : AllocationUpdate). u.id ≢ (pay i amount).0.id) updates
          (λ u differs same. differs (same ∙ (pay_fixed i amount).0)) ids in
      elim (Bool-cases (is_changed i amount)) [
        | inl c ↦
            rw (e, c)
              (ap (update_rows updates) (update_row-pay i amount rows)
                ∙ update_rows-cons updates (pay i amount).0 rows ids'
                ∙ ap (λ m. (pay i amount).0 ∷ m) later)
        | inr c ↦
            rw (e, c)
              (update_rows-cons updates i rows ids
                ∙ ap₂ (λ x m. x ∷ m) (sym (unchanged i amount c)) later)
      ]
]
