-- ===== src/Payroll/Totals.antt =====
-- Totals of natural numbers over the rows of a table.
use nexus_efos.Common.{
  ℕ, ◌+◌, ◌≤◌, ◌≡◌, some, [], ◌∷◌, ◌++◌, ◌==◌, arith, sum_by, sum_by-nil, sum_by-cons,
  sum_by-append, Bool-cases, inl, inr,
}
use nexus_efos.Common.Table.{Table, get, set, update_many}

module _ {V : Type 0} where
  abbrev pub total : (V → ℕ) → Table V → ℕ
  total f t = sum_by (λ row. f row.1) t

  -- A write adds no more than the new row counts.
  pub total-set_le :
      (f : V → ℕ) (k : ℕ) (b : V) (t : Table V) → total f (set k b t) ≤ total f t + f b
  total-set_le f k b [] =
      omega (arith, sum_by-cons (λ (r : ℕ × V). f r.1) (k, b) [], sum_by-nil (λ (r : ℕ × V). f r.1))
  total-set_le f k b ((j, v) ∷ t) =
      let w : ℕ × V → ℕ = λ r. f r.1 in
      elim (Bool-cases (k == j)) [
        | inl same ↦ rw same (omega (arith, sum_by-cons w (j, b) t, sum_by-cons w (j, v) t))
        | inr other ↦ rw other (
            omega (
              arith,
              sum_by-cons w (j, v) (set k b t),
              sum_by-cons w (j, v) t,
              total-set_le f k b t,
            ))
      ]

  -- Writing over the row that a key finds exchanges its part.
  pub total-set :
      (f : V → ℕ) (k : ℕ) (a b : V) (t : Table V)
      → get k t ≡ some a
      → total f (set k b t) + f a ≡ total f t + f b
  total-set f k a b [] found = cc
  total-set f k a b ((j, v) ∷ t) found =
      let w : ℕ × V → ℕ = λ r. f r.1 in
      elim (Bool-cases (k == j)) [
        | inl same ↦
            let here : some v ≡ some a = rw same at found in
            let worth : f v ≡ f a = cc here in
            rw same (omega (arith, worth, sum_by-cons w (j, b) t, sum_by-cons w (j, v) t))
        | inr other ↦
            let rest = total-set f k a b t (rw other at found) in
            rw other (omega (arith, rest, sum_by-cons w (j, v) (set k b t), sum_by-cons w (j, v) t))
      ]

  pub total-append :
      (f : V → ℕ) (k : ℕ) (b : V) (t : Table V) → total f (t ++ (k, b) ∷ []) ≡ total f t + f b
  total-append f k b t =
      let w : ℕ × V → ℕ = λ r. f r.1 in
      omega (arith, sum_by-append w t ((k, b) ∷ []), sum_by-cons w (k, b) [], sum_by-nil w)

  -- Where each row counts for no more after an update, so do all.
  pub total-update_many_le :
      (f g : V → ℕ) (h : V → V) (t : Table V)
      → ((v : V) → f (h v) ≤ g v)
      → total f (update_many h t) ≤ total g t
  total-update_many_le f g h [] le = omega (arith, sum_by-nil (λ (r : ℕ × V). f r.1))
  total-update_many_le f g h ((j, v) ∷ t) le = omega (
    arith,
    le v,
    sum_by-cons (λ (r : ℕ × V). f r.1) (j, h v) (update_many h t),
    sum_by-cons (λ (r : ℕ × V). g r.1) (j, v) t,
    total-update_many_le f g h t le,
  )

  pub total-zero : (t : Table V) → total (λ v. 0) t ≡ 0
  total-zero [] = sum_by-nil _
  total-zero (row ∷ t) = omega (arith, sum_by-cons (λ (r : ℕ × V). 0) row t, total-zero t)
