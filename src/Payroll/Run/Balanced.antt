-- ===== src/Payroll/Run/Balanced.antt =====
-- The accrual journal of a processed run.
use nexus_efos.Common.{
  ℕ, ◌+◌, ◌-◌, ◌≡◌, ◌≤◌, ◌<◌, sym, ap, ◌∙◌, subst, Bool, true, false, not, any, ◌==◌, List, [], ◌∷◌,
  ◌++◌, map, filter, all, leb, arith, sum_by, sum_by-nil, sum_by-cons,
}
use nexus_efos.Common.Rounding.{round2-one}
use nexus_efos.Common.Table.{Table, get}
use nexus_efos.Common.Result.{ok, bad_request, not_found, guard-eq-ok, require-eq-ok, ok-injective}
use nexus_efos.Ledger.Journals.{is_balanced_input, is_one_sided}
use nexus_efos.Payroll.{PayrollGlPurpose, build_payroll_accrual_lines}
use nexus_efos.Payroll.Balance.{payroll_accrual_checks}
use nexus_efos.Payroll.Tax.{TaxBand}
use nexus_efos.Payroll.Salary.{
  EarningCode, EmployeeSalaryStructure, PayrollEntry, Rates, RateName, payroll_entry, deduction_of,
  find, active_rate,
}
use nexus_efos.Payroll.Run.{
  active_structures, PayrollRun, PayrollDb, run_of, accrual_inputs, process,
}

-- What is taken from the employee is no more than the gross pay.
abbrev pub is_covered : PayrollEntry → Bool
is_covered e = leb (e.paye + e.ssnit_employee + e.other_deductions) e.gross_pay

abbrev paid_out : PayrollEntry → ℕ
paid_out e = e.net_pay + e.paye + e.ssnit_employee + e.other_deductions

-- What is paid out is no less than the gross pay, and the same exactly if that covers what is taken.
payroll_entry-paid_out :
    (codes : Table EarningCode) (bands : List TaxBand) (rates : Rates) (s : EmployeeSalaryStructure)
    → let e = payroll_entry codes bands rates s in
      (e.gross_pay ≤ paid_out e) × ((e.gross_pay == paid_out e) ≡ is_covered e)
unfolding payroll_entry
payroll_entry-paid_out codes bands rates s =
    let e = payroll_entry codes bands rates s in
    let other = sum_by (deduction_of s.basic_salary) (filter (λ d. d.active) s.deductions) in
    let net = round2-one (e.gross_pay - e.paye - e.ssnit_employee - other) in
    (ground (arith, round2-one other, net), ground (arith, round2-one other, net))

abbrev total_paid_out : List PayrollEntry → ℕ
total_paid_out entries =
    sum_by (λ e. e.net_pay) entries
    + sum_by (λ e. e.paye) entries
    + sum_by (λ e. e.ssnit_employee) entries
    + sum_by (λ e. e.other_deductions) entries

total_paid_out-cons :
    (e : PayrollEntry) (es : List PayrollEntry)
    → total_paid_out (e ∷ es) ≡ paid_out e + total_paid_out es
total_paid_out-cons e es = omega (
  arith,
  sum_by-cons (λ x. x.net_pay) e es,
  sum_by-cons (λ x. x.paye) e es,
  sum_by-cons (λ x. x.ssnit_employee) e es,
  sum_by-cons (λ x. x.other_deductions) e es,
)

entries-paid_out :
    (codes : Table EarningCode) (bands : List TaxBand) (rates : Rates)
    (l : List EmployeeSalaryStructure)
    → let entries = map (payroll_entry codes bands rates) l in
      let gross = sum_by (λ e. e.gross_pay) entries in
      (gross ≤ total_paid_out entries)
      × ((gross == total_paid_out entries) ≡ all is_covered entries)
entries-paid_out codes bands rates [] =
    let none_paid : total_paid_out [] ≡ 0 = omega (
      arith,
      sum_by-nil (λ (e : PayrollEntry). e.net_pay),
      sum_by-nil (λ (e : PayrollEntry). e.paye),
      sum_by-nil (λ (e : PayrollEntry). e.ssnit_employee),
      sum_by-nil (λ (e : PayrollEntry). e.other_deductions),
    ) in
    let none_earned = sum_by-nil (λ (e : PayrollEntry). e.gross_pay) in
    (omega (arith, none_earned), ground (arith, none_paid, none_earned))
entries-paid_out codes bands rates (s ∷ l) =
    let e = payroll_entry codes bands rates s in
    let es = map (payroll_entry codes bands rates) l in
    let earned = sum_by-cons (λ (x : PayrollEntry). x.gross_pay) e es in
    let paid = total_paid_out-cons e es in
    let (low, same) = payroll_entry-paid_out codes bands rates s in
    let (lows, sames) = entries-paid_out codes bands rates l in
    (
      omega (arith, earned, paid, low, lows),
      rw (earned, paid, sym same, sym sames) (ground (arith, low, lows)),
    )

-- Where a run comes from, and what else a processing leaves as it is.
pub processed_run :
    (id period_id : ℕ) (db db' : PayrollDb) (run : PayrollRun)
    → process id period_id db ≡ ok (db', run)
    → (bands : List TaxBand) × (rates : Rates) × (run
        ≡ run_of period_id
            (map (payroll_entry db.earning_codes bands rates) (active_structures db)))
      × (any (λ row. row.1.payroll_period_id == period_id) db.runs ≡ false)
      × (db'.runs ≡ db.runs ++ (id, run) ∷ [])
      × (db'.structures ≡ db.structures)
      × (db'.tax_tables ≡ db.tax_tables)
      × (db'.rates ≡ db.rates)
unfolding process
processed_run id period_id db db' run done =
    let earlier = any (λ row. row.1.payroll_period_id == period_id) db.runs in
    let (period, found, k1) = require-eq-ok (get period_id db.periods) not_found _ done in
    let (fresh, k2) = guard-eq-ok (not earlier) bad_request _ k1 in
    let tables = map (λ row. row.1) db.tax_tables in
    let (table, found_table, k3) = require-eq-ok (find (λ t. t.active) tables) bad_request _ k2 in
    let (employee, found_employee, k4) =
      require-eq-ok (active_rate RateName.ssnit_employee db.rates) bad_request _ k3 in
    let (employer, found_employer, k5) =
      require-eq-ok (active_rate RateName.ssnit_employer_tier1 db.rates) bad_request _ k4 in
    let (tier2, found_tier2, k6) =
      require-eq-ok (active_rate RateName.tier2_employer db.rates) bad_request _ k5 in
    let last = sym (ok-injective k6) in
    let same_run = ap (λ r. r.1) last in
    (
      table.bands,
      record { employee = employee; employer = employer; tier2 = tier2 },
      same_run,
      ground (arith, fresh),
      ap (λ r. r.0.runs) last ∙ ap (λ r. db.runs ++ (id, r) ∷ []) (sym same_run),
      ap (λ r. r.0.structures) last,
      ap (λ r. r.0.tax_tables) last,
      ap (λ r. r.0.rates) last,
    )

-- If a run was processed and its gross pay is not zero, then the accrual journal built for it,
-- whatever the accounts, is balanced exactly if no employee of the run has more taken away than
-- earned; and each of its lines is either a debit or a credit.
pub processed_run_balances :
    (id period_id : ℕ) (db db' : PayrollDb) (run : PayrollRun) (account_ids : PayrollGlPurpose → ℕ)
    → process id period_id db ≡ ok (db', run)
    → 0 < run.total_gross
    → let lines = build_payroll_accrual_lines (accrual_inputs run) account_ids in
      (is_balanced_input lines ≡ all is_covered run.entries) × (all is_one_sided lines ≡ true)
unfolding accrual_inputs
processed_run_balances id period_id db db' run account_ids done some_gross =
    let (bands, rates, is_run, _, _, _, _, _) = processed_run id period_id db db' run done in
    let active = active_structures db in
    let entries = map (payroll_entry db.earning_codes bands rates) active in
    let (balanced, one_sided) =
      payroll_accrual_checks (accrual_inputs run) account_ids (omega (arith, some_gross)) in
    let as_run = run_of period_id entries in
    let rounded : (as_run.total_gross
          == as_run.total_net
            + sum_by (λ e. e.paye) entries
            + sum_by (λ e. e.ssnit_employee) entries
            + sum_by (λ e. e.other_deductions) entries)
        ≡ all is_covered entries =
      rw
        (
          round2-one (sum_by (λ e. e.gross_pay) entries),
          round2-one (sum_by (λ e. e.net_pay) entries),
        )
        (entries-paid_out db.earning_codes bands rates active).1 in
    (
      balanced
          ∙ subst
              (λ (r : PayrollRun).
                (r.total_gross
                  == r.total_net
                    + sum_by (λ e. e.paye) r.entries
                    + sum_by (λ e. e.ssnit_employee) r.entries
                    + sum_by (λ e. e.other_deductions) r.entries)
                ≡ all is_covered r.entries)
              (sym is_run) rounded,
      one_sided,
    )
