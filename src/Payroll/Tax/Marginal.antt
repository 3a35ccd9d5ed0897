-- ===== src/Payroll/Tax/Marginal.antt =====
-- How income tax grows with the income.
use nexus_efos.Common.{
  ℕ, zero, suc, refl, ◌+◌, ◌-◌, ◌*◌, ◌≤◌, ◌≡◌, List, [], ◌∷◌, Option, none, some, arith, Bool-cases,
  inl, inr, Option-cases, leb, leb→le, ap, ◌∙◌,
}
use native.Mathlib.Nat.{mul-le-mul_left, add-mul}
use nexus_efos.Common.Rounding.{round2}
use nexus_efos.Payroll.Tax.{TaxBand, upper_of, taxable_in_band, tax_from, calculate_paye}

-- Bands in order from `from` on, that do not overlap, at rates of at most 100%; only the last one
-- may be open.
abbrev pub IsSchedule : ℕ → List TaxBand → Type 0
IsSchedule from [] = Unit
IsSchedule from (band ∷ bands) =
    (from ≤ band.lower_bound) × (band.rate ≤ 10000) × elim band.upper_bound [
      | none ↦ bands ≡ []
      | some upper ↦ (band.lower_bound ≤ upper) × IsSchedule upper bands
    ]

tax_from_lem :
    (income tax : ℕ) (bands : List TaxBand)
    → tax_from income tax bands ≡ tax + tax_from income 0 bands
tax_from_lem income tax [] = omega arith
tax_from_lem income tax (b ∷ bands) = omega (
  arith,
  tax_from_lem income (tax + taxable_in_band income b * b.rate) bands,
  tax_from_lem income (0 + taxable_in_band income b * b.rate) bands,
)

upper_of_mono : (i j : ℕ) (u : Option ℕ) → i ≤ j → upper_of i u ≤ upper_of j u
upper_of_mono i j none h = h
upper_of_mono i j (some u) h = ground arith

taxable_in_band_lem :
    (i : ℕ) (b : TaxBand) → taxable_in_band i b ≡ upper_of i b.upper_bound - b.lower_bound
taxable_in_band_lem i b = elim (Bool-cases (leb i b.lower_bound)) [
  | inl below ↦ simp below (below_band i b.upper_bound b.lower_bound (leb→le i b.lower_bound below))
  | inr above ↦ simp above
]
  where
    below_band : (x : ℕ) (u : Option ℕ) (l : ℕ) → x ≤ l → 0 ≡ upper_of x u - l
    below_band x none l h = omega arith
    below_band x (some u) l h = omega arith

-- What a rate of at most 100% takes of more is more, by no more than the difference.
rate_lem :
    (s t r : ℕ) → s ≤ t → r ≤ 10000 → (s * r ≤ t * r) × (t * r + 10000 * s ≤ s * r + 10000 * t)
rate_lem s t r h small =
    let part = mul-le-mul_left (t - s) small in
    let apart : t * r ≡ s * r + (t - s) * r = ap (λ x. x * r) (omega arith) ∙ add-mul s (t - s) r in
    (omega arith, omega arith)

-- The tax on a higher income is higher, by no more than what the income has above `from`.
tax_from_bounds :
    (i j from : ℕ) (bands : List TaxBand)
    → IsSchedule from bands
    → i ≤ j
    → (tax_from i 0 bands ≤ tax_from j 0 bands)
      × (tax_from j 0 bands + 10000 * (i - from) ≤ tax_from i 0 bands + 10000 * (j - from))
tax_from_bounds i j from [] s h = (omega arith, omega arith)
tax_from_bounds i j from (b ∷ bands) (later, rate, rest) h =
    let ti = taxable_in_band i b in
    let tj = taxable_in_band j b in
    let ei = taxable_in_band_lem i b in
    let ej = taxable_in_band_lem j b in
    let more = upper_of_mono i j b.upper_bound h in
    let (taxed, marginal) = rate_lem ti tj b.rate (omega arith) rate in
    let si = tax_from_lem i (0 + ti * b.rate) bands in
    let sj = tax_from_lem j (0 + tj * b.rate) bands in
    elim (Option-cases b.upper_bound) [
      | inl e ↦
          let no_more : bands ≡ [] = rw e at rest in
          let zi = ap (tax_from i 0) no_more in
          let zj = ap (tax_from j 0) no_more in
          let fi = ap (upper_of i) e in let fj = ap (upper_of j) e in (omega arith, omega arith)
      | inr (u, e) ↦
          let (above, rest') : (b.lower_bound ≤ u) × IsSchedule u bands = rw e at rest in
          let (mono, lip) = tax_from_bounds i j u bands rest' h in
          let fi = ap (upper_of i) e in let fj = ap (upper_of j) e in (omega arith, omega arith)
    ]

nothing_taxed : (bands : List TaxBand) → tax_from 0 0 bands ≡ 0
nothing_taxed [] = refl
nothing_taxed (b ∷ bands) =
    let below : taxable_in_band 0 b ≡ 0 = ground arith in
    omega (
      arith,
      ap (λ t. t * b.rate) below,
      tax_from_lem 0 (0 + taxable_in_band 0 b * b.rate) bands,
      nothing_taxed bands,
    )

calculate_paye_lem :
    (income : ℕ) (bands : List TaxBand)
    → calculate_paye income bands ≡ round2 (tax_from income 0 bands) 10000
unfolding calculate_paye round2
calculate_paye_lem zero bands = rw (nothing_taxed bands) refl
calculate_paye_lem (suc n) bands = ground arith

-- If the bands are in order, do not overlap and have rates of at most 100%, then an employee with
-- the higher income pays no less tax, and keeps no less after tax.
pub paye_fair :
    (i j : ℕ) (bands : List TaxBand)
    → IsSchedule 0 bands
    → i ≤ j
    → (calculate_paye i bands ≤ calculate_paye j bands)
      × (i + calculate_paye j bands ≤ j + calculate_paye i bands)
unfolding round2
paye_fair i j bands s h =
    let (mono, lip) = tax_from_bounds i j 0 bands s h in
    let ei = calculate_paye_lem i bands in
    let ej = calculate_paye_lem j bands in (omega arith, omega arith)
