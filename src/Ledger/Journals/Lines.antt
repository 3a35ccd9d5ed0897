-- ===== src/Ledger/Journals/Lines.antt =====
-- Lines of the journals that payroll and assets build: api/src/lib/payrollAccounting.ts and
-- api/src/lib/assetAccounting.ts leave out the lines of no amount.
use nexus_efos.Common.{
  ℕ, ◌+◌, ◌≡◌, refl, sym, ap, ◌∙◌, Bool, true, false, ◌||◌, List, [], ◌∷◌, arith, filter, all, ltb,
  ◌==◌, Bool-cases, inl, inr, sum_by, sum_by-cons,
}
use nexus_efos.Ledger.Journals.{LineInput, is_one_sided}

abbrev pub debit_line : ℕ → ℕ → LineInput
debit_line id amount = record { account_id = id; debit = amount; credit = 0 }

abbrev pub credit_line : ℕ → ℕ → LineInput
credit_line id amount = record { account_id = id; debit = 0; credit = amount }

abbrev pub is_nonzero : LineInput → Bool
is_nonzero l = ltb 0 l.debit || ltb 0 l.credit

-- Leaving out rows that count for nothing leaves a sum as it is.
pub sum_by-filter :
    (f : LineInput → ℕ) (p : LineInput → Bool) (l : List LineInput)
    → ((x : LineInput) → p x ≡ false → f x ≡ 0)
    → sum_by f (filter p l) ≡ sum_by f l
sum_by-filter f p [] h = refl
sum_by-filter f p (x ∷ l) h = elim (Bool-cases (p x)) [
  | inl e ↦ rw e (
      sum_by-cons f x (filter p l)
      ∙ ap (λ z. f x + z) (sum_by-filter f p l h)
      ∙ sym (sum_by-cons f x l))
  | inr e ↦
      let dropped : sum_by f l ≡ sum_by f (x ∷ l) = omega (arith, h x e, sum_by-cons f x l) in
      rw e (sum_by-filter f p l h ∙ dropped)
]

pub filtered_one_sided :
    (l : List LineInput)
    → all (λ x. x.debit == 0 || x.credit == 0) l ≡ true
    → all is_one_sided (filter is_nonzero l) ≡ true
filtered_one_sided [] h = refl
filtered_one_sided (x ∷ l) h = ground (arith, filtered_one_sided l)
