-- ===== src/Payroll/Tests.antt =====
-- Two salaries.
use nexus_efos.Common.{refl, arith, ◌≤◌, ◌+◌, some, none, List, [], ◌∷◌}
use nexus_efos.Payroll.Tax.{TaxBand, calculate_paye}
use nexus_efos.Payroll.Tax.Marginal.{paye_fair}

abbrev bands : List TaxBand
bands =
    (record { lower_bound = 0; upper_bound = some 49000; rate = 0 })
    ∷ (record { lower_bound = 49000; upper_bound = some 60000; rate = 500 })
    ∷ (record { lower_bound = 60000; upper_bound = none; rate = 1750 })
    ∷ []

paye_fair_example :
    (calculate_paye 55000 bands ≤ calculate_paye 90000 bands)
    × (55000 + calculate_paye 90000 bands ≤ 90000 + calculate_paye 55000 bands)
paye_fair_example =
    paye_fair 55000 90000 bands
      (
        omega arith,
        omega arith,
        (omega arith, (omega arith, omega arith, (omega arith, (omega arith, omega arith, refl)))),
      )
      (omega arith)
