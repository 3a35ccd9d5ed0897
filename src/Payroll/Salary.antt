-- ===== src/Payroll/Salary.antt =====
-- Salaries and what a payroll run takes from them, of api/src/routes/payroll.routes.ts. Amounts are in
-- cents, and percentages in hundredths of a percent.
use nexus_efos.Common.{
  ℕ, ◌+◌, ◌-◌, ◌*◌, Bool, true, false, ◌&&◌, Option, none, some, List, [], ◌∷◌, map, filter, ◌==◌,
  if◌then◌else◌, sum_by,
}
use nexus_efos.Common.Rounding.{round2}
use nexus_efos.Common.Table.{Table, get}
use nexus_efos.Payroll.Tax.{TaxBand, calculate_paye, calculate_statutory_contribution}

pub record EarningCode : Type 0 where
  pub code : ℕ
  pub taxable : Bool

pub record EmployeeAllowance : Type 0 where
  pub earning_code_id : ℕ
  pub amount : ℕ
  pub is_percentage_of_basic : Bool

pub record EmployeeDeduction : Type 0 where
  pub amount : ℕ
  pub is_percentage_of_basic : Bool
  pub active : Bool

pub data SalaryStructureStatus : Type 0 where
  draft pending_approval active superseded : SalaryStructureStatus

pub record EmployeeSalaryStructure : Type 0 where
  pub employee_id : ℕ
  pub basic_salary : ℕ
  pub status : SalaryStructureStatus
  pub allowances : List EmployeeAllowance
  pub deductions : List EmployeeDeduction

-- The names that the handler looks for, and the others.
pub data RateName : Type 0 where
  ssnit_employee ssnit_employer_tier1 tier2_employer : RateName
  other_rate : ℕ → RateName

pub record StatutoryContributionRate : Type 0 where
  pub name : RateName
  pub rate : ℕ
  pub ceiling : Option ℕ
  pub minimum : Option ℕ
  pub active : Bool

pub record TaxTable : Type 0 where
  pub bands : List TaxBand
  pub active : Bool

pub record PayrollEntry : Type 0 where
  pub employee_id : ℕ
  pub basic_salary : ℕ
  pub gross_pay : ℕ
  pub taxable_income : ℕ
  pub paye : ℕ
  pub ssnit_employee : ℕ
  pub ssnit_employer_tier1 : ℕ
  pub tier2_employer : ℕ
  pub other_deductions : ℕ
  pub net_pay : ℕ

-- `isPercentageOfBasic ? round2(basicSalary * (amount / 100)) : amount`
abbrev pub amount_of : ℕ → Bool → ℕ → ℕ
amount_of basic_salary is_percentage amount =
    if is_percentage then round2 (basic_salary * amount) 10000 else amount

abbrev pub allowance_of : ℕ → EmployeeAllowance → ℕ
allowance_of basic_salary a = amount_of basic_salary a.is_percentage_of_basic a.amount

abbrev pub deduction_of : ℕ → EmployeeDeduction → ℕ
deduction_of basic_salary d = amount_of basic_salary d.is_percentage_of_basic d.amount

-- `code?.taxable`
abbrev pub is_taxable : Table EarningCode → EmployeeAllowance → Bool
is_taxable earning_codes a = elim (get a.earning_code_id earning_codes) [
  | none ↦ false
  | some code ↦ code.taxable
]

abbrev pub contribution : ℕ → StatutoryContributionRate → ℕ
contribution basic_salary r =
    calculate_statutory_contribution basic_salary r.rate r.ceiling r.minimum

-- The three rates that a run needs.
pub record Rates : Type 0 where
  pub employee : StatutoryContributionRate
  pub employer : StatutoryContributionRate
  pub tier2 : StatutoryContributionRate

-- The body of the loop over the structures. Subtraction stops at 0, as `Math.max(0, …)` does.
unfoldable pub payroll_entry :
    Table EarningCode → List TaxBand → Rates → EmployeeSalaryStructure → PayrollEntry
payroll_entry earning_codes bands rates s =
    let basic = s.basic_salary in
    let total_allowances = sum_by (allowance_of basic) s.allowances in
    let taxable_allowances =
      sum_by (allowance_of basic) (filter (is_taxable earning_codes) s.allowances) in
    let other_deductions = sum_by (deduction_of basic) (filter (λ d. d.active) s.deductions) in
    let gross_pay = round2 (basic + total_allowances) 1 in
    let taxable_income = round2 (basic + taxable_allowances) 1 in
    let paye = calculate_paye taxable_income bands in
    let ssnit_employee = contribution basic rates.employee in
    record {
      employee_id = s.employee_id;
      basic_salary = basic;
      gross_pay = gross_pay;
      taxable_income = taxable_income;
      paye = paye;
      ssnit_employee = ssnit_employee;
      ssnit_employer_tier1 = contribution basic rates.employer;
      tier2_employer = contribution basic rates.tier2;
      other_deductions = round2 other_deductions 1;
      net_pay = round2 (gross_pay - paye - ssnit_employee - other_deductions) 1;
    }

abbrev pub is_active_structure : EmployeeSalaryStructure → Bool
is_active_structure s = elim s.status [
  | SalaryStructureStatus.active ↦ true
  | SalaryStructureStatus.draft ↦ false
  | SalaryStructureStatus.pending_approval ↦ false
  | SalaryStructureStatus.superseded ↦ false
]

abbrev pub is_named : RateName → RateName → Bool
is_named RateName.ssnit_employee RateName.ssnit_employee = true
is_named RateName.ssnit_employer_tier1 RateName.ssnit_employer_tier1 = true
is_named RateName.tier2_employer RateName.tier2_employer = true
is_named (RateName.other_rate m) (RateName.other_rate n) = m == n
is_named _ _ = false

abbrev pub find {ℓ} : {A : Type ℓ} → (A → Bool) → List A → Option A
find p [] = none
find p (x ∷ l) = let rest = find p l in if p x then some x else rest

abbrev pub is_active_rate : RateName → StatutoryContributionRate → Bool
is_active_rate name r = r.active && is_named r.name name

abbrev pub active_rate :
    RateName → Table StatutoryContributionRate → Option StatutoryContributionRate
active_rate name rates = find (is_active_rate name) (map (λ row. row.1) rates)
