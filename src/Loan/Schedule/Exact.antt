-- ===== src/Loan/Schedule/Exact.antt =====
-- What the rows of the schedule add up to.
use nexus_efos.Common.{
  ℕ, zero, suc, ◌+◌, ◌-◌, ◌*◌, ◌≡◌, refl, ap, ap₂, ◌∙◌, some, List, [], ◌∷◌, ◌++◌, arith, length,
  sum_by_ℤ, sum_by_ℤ-nil, sum_by_ℤ-cons, sum_by_ℤ-append,
}
use nexus_efos.Common.Int.{ℤ, pos, ◌+ℤ◌, ◌-ℤ◌, int_laws}
use nexus_efos.Common.Rounding.{round2, round2_ℤ, round2-one, round2_ℤ-one}
use nexus_efos.Loan.Schedule.{ScheduleRow, even_rows, set_last, generate_remaining_schedule}

-- The last row takes the two amounts, and the others are left alone.
set_last-even_rows :
    (p q i k : ℕ) (principal interest : ℤ)
    → set_last principal interest (even_rows p q i (suc k))
      ≡ some (
          even_rows p q i k
          ++ (record {
            installment_number = i + k;
            months_later = i + k - 1;
            principal_due = principal;
            interest_due = interest;
          })
            ∷ [])
set_last-even_rows p q i zero principal interest = ground arith
set_last-even_rows p q i (suc k) principal interest =
    rw (set_last-even_rows p q (suc i) k principal interest) (ground arith)

step : (a b : ℕ) → pos a +ℤ pos (a * b) ≡ pos (a * suc b)
step a b = omega (int_laws, suc_times a b)
  where
    suc_times : (a b : ℕ) → a * suc b ≡ a + a * b
    suc_times a b = omega arith

even_principal : (p q i k : ℕ) → sum_by_ℤ (λ r. r.principal_due) (even_rows p q i k) ≡ pos (p * k)
even_principal p q i zero = sum_by_ℤ-nil _ ∙ ap pos (omega arith)
even_principal p q i (suc k) =
    sum_by_ℤ-cons _ _ _ ∙ ap (λ z. pos p +ℤ z) (even_principal p q (suc i) k) ∙ step p k

even_interest : (p q i k : ℕ) → sum_by_ℤ (λ r. r.interest_due) (even_rows p q i k) ≡ pos (q * k)
even_interest p q i zero = sum_by_ℤ-nil _ ∙ ap pos (omega arith)
even_interest p q i (suc k) =
    sum_by_ℤ-cons _ _ _ ∙ ap (λ z. pos q +ℤ z) (even_interest p q (suc i) k) ∙ step q k

length-even_rows : (p q i k : ℕ) (x : ScheduleRow) → length (even_rows p q i k ++ x ∷ []) ≡ suc k
length-even_rows p q i zero x = refl
length-even_rows p q i (suc k) x = ap suc (length-even_rows p q (suc i) k x)

remainder : (total part : ℕ) → pos part +ℤ (pos total -ℤ pos part +ℤ pos 0) ≡ pos total
remainder total part = omega int_laws

last_amount :
    (total part n : ℕ)
    → round2_ℤ (pos total -ℤ pos (round2 (part * (suc n - 1)) 1)) 1 ≡ pos total -ℤ pos (part * n)
last_amount total part n =
    round2_ℤ-one _ ∙ ap (λ z. pos total -ℤ pos z) (round2-one _ ∙ ap (λ m. part * m) (omega arith))

-- For any balance and at least one installment, the schedule has that many rows, and its principal
-- and its interest add up exactly to the principal and the interest outstanding.
pub schedule_exact :
    (principal interest n : ℕ)
    → (rows : List ScheduleRow) × (generate_remaining_schedule principal interest (suc n)
        ≡ some rows)
      × (length rows ≡ suc n)
      × (sum_by_ℤ (λ r. r.principal_due) rows ≡ pos principal)
      × (sum_by_ℤ (λ r. r.interest_due) rows ≡ pos interest)
unfolding generate_remaining_schedule
schedule_exact principal interest n =
    let p = round2 principal (suc n) in
    let q = round2 interest (suc n) in
    let last : ScheduleRow = record {
      installment_number = 1 + n;
      months_later = 1 + n - 1;
      principal_due = pos principal -ℤ pos (p * n);
      interest_due = pos interest -ℤ pos (q * n);
    } in
    (
      even_rows p q 1 n ++ last ∷ [],
      ap₂ (λ a b. set_last a b (even_rows p q 1 (suc n))) (last_amount principal p n)
            (last_amount interest q n)
          ∙ set_last-even_rows p q 1 n _ _,
      length-even_rows p q 1 n last,
      sum_by_ℤ-append _ (even_rows p q 1 n) (last ∷ [])
          ∙ rw (even_principal p q 1 n, sum_by_ℤ-cons, sum_by_ℤ-nil) (remainder principal (p * n)),
      sum_by_ℤ-append _ (even_rows p q 1 n) (last ∷ [])
          ∙ rw (even_interest p q 1 n, sum_by_ℤ-cons, sum_by_ℤ-nil) (remainder interest (q * n)),
    )
