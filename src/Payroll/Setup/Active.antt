-- ===== src/Payroll/Setup/Active.antt =====
-- Nobody is paid twice for a period, and no rate or tax table has a rival.
use nexus_efos.Common.{
  ℕ, ◌≤◌, ◌≡◌, refl, sym, ap, ◌∙◌, Bool, true, ◌&&◌, List, [], ◌∷◌, map, filter, ◌==◌,
  if◌then◌else◌, arith, sum_by, sum_by-nil, sum_by-cons, Bool-cases, inl, inr, ==_iff,
}
use nexus_efos.Common.Table.{Table, set, update_many}
use nexus_efos.Payroll.Totals.{total, total-set_le, total-update_many_le, total-zero}
use nexus_efos.Payroll.Tax.{TaxBand}
use nexus_efos.Payroll.Salary.{
  EarningCode, SalaryStructureStatus, EmployeeSalaryStructure, RateName, StatutoryContributionRate,
  TaxTable, PayrollEntry, Rates, payroll_entry, is_active_structure, is_active_rate, is_named,
}
use nexus_efos.Payroll.Run.{PayrollRun, PayrollDb}
use nexus_efos.Payroll.Setup.{deactivate_table, deactivate_rate, supersede}

abbrev pub one : Bool → ℕ
one b = if b then 1 else 0

abbrev pub of_employee : ℕ → EmployeeSalaryStructure → ℕ
of_employee e s = one (is_active_structure s && s.employee_id == e)

abbrev pub active_table : TaxTable → ℕ
active_table t = one t.active

abbrev pub active_named : RateName → StatutoryContributionRate → ℕ
active_named name r = one (is_active_rate name r)

abbrev pub entries_of : ℕ → List PayrollEntry → ℕ
entries_of e entries = sum_by (λ x. one (x.employee_id == e)) entries

-- How often an employee is paid for a period.
abbrev pub payments : ℕ → ℕ → PayrollRun → ℕ
payments period_id e run =
    if run.payroll_period_id == period_id then entries_of e run.entries else 0

-- An employee has one active structure at most; one tax table is active at most; and so is one rate of
-- a name; and an employee is paid once at most for a period.
abbrev pub StructureOnce : Table EmployeeSalaryStructure → Type 0
StructureOnce t = (e : ℕ) → total (of_employee e) t ≤ 1

abbrev pub TableOnce : Table TaxTable → Type 0
TableOnce t = total active_table t ≤ 1

abbrev pub RateOnce : Table StatutoryContributionRate → Type 0
RateOnce t = (name : RateName) → total (active_named name) t ≤ 1

abbrev pub PaidOnce : Table PayrollRun → Type 0
PaidOnce t = (period_id e : ℕ) → total (payments period_id e) t ≤ 1

abbrev pub IsOnce : PayrollDb → Type 0
IsOnce db =
    StructureOnce db.structures × TableOnce db.tax_tables × RateOnce db.rates × PaidOnce db.runs

-- Approving a structure.
pub superseded-StructureOnce :
    (id : ℕ) (s : EmployeeSalaryStructure) (t : Table EmployeeSalaryStructure) (e : ℕ)
    → total (of_employee e) t ≤ 1
    → total (of_employee e) (
        set id
          (record s { status = SalaryStructureStatus.active })
          (update_many (supersede s.employee_id) t))
      ≤ 1
superseded-StructureOnce id s t e once =
    let t' = update_many (supersede s.employee_id) t in
    let s' : EmployeeSalaryStructure = record s { status = SalaryStructureStatus.active } in
    let written = total-set_le (of_employee e) id s' t' in
    elim (Bool-cases (s.employee_id == e)) [
      | inl same ↦
          let gone =
            total-update_many_le (of_employee e) (λ v. 0) (supersede s.employee_id) t
              (λ v. ground (arith, same)) in
          let one_more : of_employee e s' ≤ 1 = ground (arith, same) in
          omega (arith, written, gone, total-zero t, one_more)
      | inr other ↦
          let less =
            total-update_many_le (of_employee e) (of_employee e) (supersede s.employee_id) t
              (λ v. ground (arith, other)) in
          let nothing : of_employee e s' ≡ 0 = ground (arith, other) in
          omega (arith, written, less, nothing)
    ]

pub activated-TableOnce :
    (id : ℕ) (x : TaxTable) (t : Table TaxTable)
    → total active_table (set id (record x { active = true }) (update_many deactivate_table t)) ≤ 1
activated-TableOnce id x t =
    let t' = update_many deactivate_table t in
    let x' : TaxTable = record x { active = true } in
    omega (
      arith,
      total-set_le active_table id x' t',
      total-update_many_le active_table (λ v. 0) deactivate_table t (λ v. omega arith),
      total-zero t,
    )

RateName-eq : (m n : RateName) → is_named m n ≡ true → m ≡ n
RateName-eq RateName.ssnit_employee RateName.ssnit_employee h = refl
RateName-eq RateName.ssnit_employer_tier1 RateName.ssnit_employer_tier1 h = refl
RateName-eq RateName.tier2_employer RateName.tier2_employer h = refl
RateName-eq (RateName.other_rate m) (RateName.other_rate n) h =
    ap RateName.other_rate ((==_iff m n).0 h)
RateName-eq RateName.ssnit_employee RateName.ssnit_employer_tier1 h = cc
RateName-eq RateName.ssnit_employee RateName.tier2_employer h = cc
RateName-eq RateName.ssnit_employee (RateName.other_rate n) h = cc
RateName-eq RateName.ssnit_employer_tier1 RateName.ssnit_employee h = cc
RateName-eq RateName.ssnit_employer_tier1 RateName.tier2_employer h = cc
RateName-eq RateName.ssnit_employer_tier1 (RateName.other_rate n) h = cc
RateName-eq RateName.tier2_employer RateName.ssnit_employee h = cc
RateName-eq RateName.tier2_employer RateName.ssnit_employer_tier1 h = cc
RateName-eq RateName.tier2_employer (RateName.other_rate n) h = cc
RateName-eq (RateName.other_rate m) RateName.ssnit_employee h = cc
RateName-eq (RateName.other_rate m) RateName.ssnit_employer_tier1 h = cc
RateName-eq (RateName.other_rate m) RateName.tier2_employer h = cc

-- Activating a rate.
pub activated-RateOnce :
    (id : ℕ) (r : StatutoryContributionRate) (t : Table StatutoryContributionRate) (name : RateName)
    → total (active_named name) t ≤ 1
    → total
        (active_named name)
        (set id (record r { active = true }) (update_many (deactivate_rate r.name) t))
      ≤ 1
activated-RateOnce id r t name once =
    let t' = update_many (deactivate_rate r.name) t in
    let r' : StatutoryContributionRate = record r { active = true } in
    let written = total-set_le (active_named name) id r' t' in
    elim (Bool-cases (is_named r.name name)) [
      | inl same ↦
          let equal = RateName-eq r.name name same in
          let gone =
            total-update_many_le (active_named name) (λ v. 0) (deactivate_rate r.name) t
              (λ v. rw equal (deactivated name v)) in
          let one_more : active_named name r' ≤ 1 = ground (arith, same) in
          omega (arith, written, gone, total-zero t, one_more)
      | inr other ↦
          let less =
            total-update_many_le (active_named name) (active_named name) (deactivate_rate r.name) t
              (λ v. kept r.name name v) in
          let nothing : active_named name r' ≡ 0 = ground (arith, other) in
          omega (arith, written, less, nothing)
    ]
  where
    deactivated :
        (n : RateName) (v : StatutoryContributionRate) → active_named n (deactivate_rate n v) ≤ 0
    deactivated n v = ground arith

    kept :
        (m n : RateName) (v : StatutoryContributionRate)
        → active_named n (deactivate_rate m v) ≤ active_named n v
    kept m n v = ground arith

payroll_entry-employee_id :
    (codes : Table EarningCode) (bands : List TaxBand) (rates : Rates) (s : EmployeeSalaryStructure)
    → (payroll_entry codes bands rates s).employee_id ≡ s.employee_id
unfolding payroll_entry
payroll_entry-employee_id codes bands rates s = refl

-- The entries of a run are one for each active structure.
pub entries_of-active :
    (codes : Table EarningCode) (bands : List TaxBand) (rates : Rates) (e : ℕ)
    (t : Table EmployeeSalaryStructure)
    → entries_of e
        (map (payroll_entry codes bands rates) (filter is_active_structure (map (λ row. row.1) t)))
      ≡ total (of_employee e) t
entries_of-active codes bands rates e [] =
    sum_by-nil (λ (x : PayrollEntry). one (x.employee_id == e))
    ∙ sym (sum_by-nil (λ (row : ℕ × EmployeeSalaryStructure). of_employee e row.1))
entries_of-active codes bands rates e ((k, s) ∷ t) =
    let rest = entries_of-active codes bands rates e t in
    let counted =
      sum_by-cons (λ (row : ℕ × EmployeeSalaryStructure). of_employee e row.1) (k, s) t in
    let entry = payroll_entry codes bands rates s in
    let entries =
      map (payroll_entry codes bands rates) (filter is_active_structure (map (λ row. row.1) t)) in
    elim (Bool-cases (is_active_structure s)) [
      | inl current ↦
          let worth : one (entry.employee_id == e) ≡ of_employee e s =
            rw (current, payroll_entry-employee_id codes bands rates s) in
          rw current (
            omega (
              arith,
              rest,
              counted,
              worth,
              sum_by-cons (λ (x : PayrollEntry). one (x.employee_id == e)) entry entries,
            ))
      | inr idle ↦
          let nothing : of_employee e s ≡ 0 = ground (arith, idle) in
          rw idle (omega (arith, rest, counted, nothing))
    ]
