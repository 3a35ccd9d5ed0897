-- ===== src/Loan/Schedule/Flat.antt =====
-- What the installments of the method FLAT add up to.
use nexus_efos.Common.{
  ℕ, zero, suc, ◌+◌, ◌*◌, ◌≤◌, ◌<◌, ◌≡◌, refl, arith, length, sum_by_ℤ, sum_by_ℤ-nil, sum_by_ℤ-cons,
}
use nexus_efos.Common.Int.{pos, pos_part, int_laws}
use nexus_efos.Common.Rounding.{round2, round2-nearest}
use nexus_efos.Loan.Schedule.Generate.{InterestMethod, flat_rows, generate_schedule}

flat_rows_total :
    (p j i k : ℕ)
    → (sum_by_ℤ (λ r. r.principal_due) (flat_rows (pos p) (pos j) i k) ≡ pos (k * p))
      × (length (flat_rows (pos p) (pos j) i k) ≡ k)
flat_rows_total p j i zero = (rw sum_by_ℤ-nil (omega int_laws), refl)
flat_rows_total p j i (suc k) =
    let (total, size) = flat_rows_total p j (suc i) k in
    (rw (sum_by_ℤ-cons, total) (omega int_laws), omega arith)

-- The principal that the installments of a FLAT loan ask for is within half a cent per installment
-- of the principal of the loan, and there are as many installments as months.
pub flat_schedule_near_principal :
    (principal rate n : ℕ)
    → 0 < n
    → let rows = generate_schedule principal rate n InterestMethod.flat in
      let asked = pos_part (sum_by_ℤ (λ r. r.principal_due) rows) in
      (length rows ≡ n) × (2 * asked ≤ 2 * principal + n) × (2 * principal < 2 * asked + n)
unfolding generate_schedule
flat_schedule_near_principal principal rate n h =
    let (total, size) = flat_rows_total (round2 principal n) _ 1 n in
    let near = round2-nearest principal n h in (size, rw total near.0, rw total near.1)
