-- ===== src/Loan/Arrears/Monotone.antt =====
-- Arrears at two moments.
use nexus_efos.Common.{
  ℕ, ◌+◌, ◌-◌, ◌/◌, ◌≤◌, ◌≡◌, true, List, [], ◌∷◌, arith, filter, ltb, if◌then◌else◌, Bool-cases,
  inl, inr, All, sum_by, sum_by-cons,
}
use nexus_efos.Common.Rounding.{round2-one}
use nexus_efos.Loan.Arrears.{
  ArrearsClassification, ArrearsInstallment, classify, is_overdue, oldest_due, missing, summarise,
  day, calculate_arrears,
}

-- How grave a classification is.
abbrev pub rank : ArrearsClassification → ℕ
rank ArrearsClassification.current = 0
rank ArrearsClassification.arrears_1_30 = 1
rank ArrearsClassification.arrears_31_60 = 2
rank ArrearsClassification.arrears_61_90 = 3
rank ArrearsClassification.arrears_90_plus = 4

rank-classify : (a b : ℕ) → a ≤ b → rank (classify a) ≤ rank (classify b)
unfolding classify
rank-classify a b h = ground arith

oldest_due-first : (d : ℕ) (l : List ArrearsInstallment) → oldest_due d l ≤ d
oldest_due-first d [] = omega arith
oldest_due-first d (i ∷ l) =
    ground (arith, oldest_due-first (if ltb i.due_date d then i.due_date else d) l)

-- No later than any of them.
oldest_due-All : (d : ℕ) (l : List ArrearsInstallment) → All (λ i. oldest_due d l ≤ i.due_date) l
oldest_due-All d [] = tt
oldest_due-All d (i ∷ l) =
    let next = if ltb i.due_date d then i.due_date else d in
    (ground (arith, oldest_due-first next l), oldest_due-All next l)

-- A bound of all of them is a bound of the oldest.
oldest_due-bound :
    (b d : ℕ) (l : List ArrearsInstallment)
    → b ≤ d
    → All (λ i. b ≤ i.due_date) l
    → b ≤ oldest_due d l
oldest_due-bound b d [] h k = h
oldest_due-bound b d (i ∷ l) h (p, k) =
    oldest_due-bound b (if ltb i.due_date d then i.due_date else d) l (ground (arith, h, p)) k

still_overdue :
    (a b : ℕ) (i : ArrearsInstallment) → a ≤ b → is_overdue a i ≡ true → is_overdue b i ≡ true
still_overdue a b i h e = ground (arith, h, e)

-- What holds of all that are overdue later holds of all that are overdue earlier.
All-earlier :
    (P : ArrearsInstallment → Type 0) (a b : ℕ) (l : List ArrearsInstallment)
    → a ≤ b
    → All P (filter (is_overdue b) l)
    → All P (filter (is_overdue a) l)
All-earlier P a b [] h k = tt
All-earlier P a b (i ∷ l) h k = elim (Bool-cases (is_overdue a i)) [
  | inl e ↦ let (p, k') = rw (still_overdue a b i h e) at k in rw e (p, All-earlier P a b l h k')
  | inr e ↦ elim (Bool-cases (is_overdue b i)) [
    | inl e' ↦ let (p, k') = rw e' at k in rw e (All-earlier P a b l h k')
    | inr e' ↦ let k' = rw e' at k in rw e (All-earlier P a b l h k')
  ]
]

missing_grows :
    (a b : ℕ) (l : List ArrearsInstallment)
    → a ≤ b
    → sum_by missing (filter (is_overdue a) l) ≤ sum_by missing (filter (is_overdue b) l)
missing_grows a b [] h = omega arith
missing_grows a b (i ∷ l) h =
    let rest = missing_grows a b l h in
    elim (Bool-cases (is_overdue a i)) [
      | inl e ↦ rw (e, still_overdue a b i h e) (omega (arith, sum_by-cons missing i, rest))
      | inr e ↦ elim (Bool-cases (is_overdue b i)) [
        | inl e' ↦ rw (e, e') (omega (arith, sum_by-cons missing i, rest))
        | inr e' ↦ rw (e, e') rest
      ]
    ]

days_grow : (a b x y : ℕ) → a ≤ b → y ≤ x → (a - x) / day ≤ (b - y) / day
days_grow a b x y h k = omega arith

summarise_grows :
    (a b : ℕ) (earlier later : List ArrearsInstallment)
    → a ≤ b
    → ((m : ℕ) → All (λ i. m ≤ i.due_date) later → All (λ i. m ≤ i.due_date) earlier)
    → sum_by missing earlier ≤ sum_by missing later
    → let r = summarise a earlier in
      let r' = summarise b later in
      (r.days_in_arrears ≤ r'.days_in_arrears)
      × (r.arrears_amount ≤ r'.arrears_amount)
      × (rank r.classification ≤ rank r'.classification)
unfolding summarise
summarise_grows a b [] later h all_earlier amount = (omega arith, omega arith, omega arith)
summarise_grows a b (x ∷ earlier) [] h all_earlier amount =
    let (p, _) = all_earlier (x.due_date + 1) tt in absurd (omega (arith, p))
summarise_grows a b (x ∷ earlier) (y ∷ later) h all_earlier amount =
    let bound =
      all_earlier (oldest_due y.due_date (y ∷ later)) (oldest_due-All y.due_date (y ∷ later)) in
    let older =
      oldest_due-bound (oldest_due y.due_date (y ∷ later)) x.due_date (x ∷ earlier) bound.0 bound in
    let days = days_grow a b _ _ h older in
    (days, rw (round2-one, round2-one) amount, rank-classify _ _ days)

-- If nothing is paid, then at a later moment the loan is at least as many days in arrears, with at
-- least the amount, and its classification is at least as grave.
pub arrears_grow :
    (installments : List ArrearsInstallment) (a b : ℕ)
    → a ≤ b
    → let r = calculate_arrears installments a in
      let r' = calculate_arrears installments b in
      (r.days_in_arrears ≤ r'.days_in_arrears)
      × (r.arrears_amount ≤ r'.arrears_amount)
      × (rank r.classification ≤ rank r'.classification)
unfolding calculate_arrears
arrears_grow installments a b h =
    summarise_grows a b _ _ h (λ m. All-earlier (λ i. m ≤ i.due_date) a b installments h)
      (missing_grows a b installments h)
