-- ===== src/Payroll/Tax.antt =====
-- Income tax and statutory contributions, api/src/lib/payrollCalc.ts. Amounts are in cents and rates
-- in hundredths of a percent.
pub mod Marginal
use nexus_efos.Common.{
  ℕ, ◌+◌, ◌-◌, ◌*◌, List, [], ◌∷◌, Option, none, some, min, ltb, leb, if◌then◌else◌,
}
use nexus_efos.Common.Rounding.{round2}

pub record TaxBand : Type 0 where
  pub lower_bound : ℕ
  pub upper_bound : Option ℕ
  pub rate : ℕ

-- `band.upperBound === null ? chargeableIncome : Math.min(chargeableIncome, band.upperBound)`
abbrev pub upper_of : ℕ → Option ℕ → ℕ
upper_of income none = income
upper_of income (some upper) = min income upper

abbrev pub taxable_in_band : ℕ → TaxBand → ℕ
taxable_in_band income band =
    if leb income band.lower_bound then 0 else upper_of income band.upper_bound - band.lower_bound

-- The loop over the bands, in hundredths of a percent of a cent.
abbrev pub tax_from : ℕ → ℕ → List TaxBand → ℕ
tax_from income tax [] = tax
tax_from income tax (band ∷ bands) =
    tax_from income (tax + taxable_in_band income band * band.rate) bands

unfoldable pub calculate_paye : ℕ → List TaxBand → ℕ
calculate_paye income bands = if leb income 0 then 0 else round2 (tax_from income 0 bands) 10000

-- `if (minimum !== null && base < minimum) base = minimum;` and the same for the ceiling.
abbrev pub at_least : Option ℕ → ℕ → ℕ
at_least none base = base
at_least (some minimum) base = if ltb base minimum then minimum else base

abbrev pub at_most : Option ℕ → ℕ → ℕ
at_most none base = base
at_most (some ceiling) base = if ltb ceiling base then ceiling else base

unfoldable pub calculate_statutory_contribution : ℕ → ℕ → Option ℕ → Option ℕ → ℕ
calculate_statutory_contribution basic_salary rate ceiling minimum =
    round2 (at_most ceiling (at_least minimum basic_salary) * rate) 10000
