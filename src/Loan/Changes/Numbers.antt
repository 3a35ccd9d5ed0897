-- ===== src/Loan/Changes/Numbers.antt =====
-- The installment numbers, which are unique for a loan, also among deleted rows.
use nexus_efos.Common.{
  ℕ, zero, suc, ◌<◌, ◌≡◌, refl, ap₂, ◌∙◌, Bool, true, ◌&&◌, ◌||◌, none, some, List, [], ◌∷◌, map,
  any, ◌==◌, arith, Bool-cases, inl, inr,
}
use nexus_efos.Common.Int.{ℤ}
use nexus_efos.Common.Table.{get}
use nexus_efos.Common.Result.{err, server_error}
use nexus_efos.Loan.Schedule.Generate.{InterestMethod, generate_schedule}
use nexus_efos.Loan.Changes.{
  InstallmentRow, LoanRestructure, ChangeBook, is_unpaid_of, delete_unpaid, created_row,
  create_many, apply_restructure,
}

-- The loan has a first installment, in whatever state.
abbrev pub has_first : ℕ → List InstallmentRow → Bool
has_first loan_id rows =
    any (λ (row : InstallmentRow). row.loan_id == loan_id && row.installment_number == 1) rows

delete_unpaid-numbers :
    (loan_id k : ℕ) (row : InstallmentRow)
    → ((delete_unpaid k row).loan_id == loan_id && (delete_unpaid k row).installment_number == 1)
      ≡ (row.loan_id == loan_id && row.installment_number == 1)
delete_unpaid-numbers loan_id k row = elim (Bool-cases (is_unpaid_of k row)) [
  | inl unpaid ↦ rw unpaid refl
  | inr settled ↦ rw settled refl
]

has_first-map :
    (loan_id k : ℕ) (rows : List InstallmentRow)
    → has_first loan_id (map (delete_unpaid k) rows) ≡ has_first loan_id rows
has_first-map loan_id k [] = refl
has_first-map loan_id k (row ∷ rows) =
    ap₂ (λ a b. a || b) (delete_unpaid-numbers loan_id k row) (has_first-map loan_id k rows)

-- A new schedule starts at number 1 too.
schedule_taken :
    (in_months : ℕ → ℤ) (loan_id principal rate n : ℕ) (rows : List InstallmentRow)
    → 0 < n
    → has_first loan_id rows ≡ true
    → create_many
        (map
          (created_row in_months loan_id)
          (generate_schedule principal rate n InterestMethod.flat))
        rows
      ≡ none
unfolding generate_schedule
schedule_taken in_months loan_id principal rate zero rows positive taken = absurd (omega arith)
schedule_taken in_months loan_id principal rate (suc n) rows positive taken = rw taken refl

-- If a loan has an installment with number 1, paid, unpaid or deleted, as every disbursed loan does,
-- then approving a restructuring of it, which has at least one month, always fails with 500, and so
-- changes nothing.
pub restructure_never_applies :
    (in_months : ℕ → ℤ) (id : ℕ) (r : LoanRestructure) (book : ChangeBook)
    → get id book.restructures ≡ some r
    → 0 < r.new_term_months
    → has_first r.loan_id book.installments ≡ true
    → apply_restructure in_months id book ≡ err server_error
unfolding apply_restructure
restructure_never_applies in_months id r book known positive taken =
    rw
      (
        known,
        schedule_taken in_months r.loan_id r.new_principal r.new_rate r.new_term_months
            (map (delete_unpaid r.loan_id) book.installments) positive
            (has_first-map r.loan_id r.loan_id book.installments ∙ taken),
      )
      refl
