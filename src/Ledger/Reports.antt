-- ===== src/Ledger/Reports.antt =====
-- The financial statements of api/src/routes/generalLedger.routes.ts, over the posted lines that the
-- query returns. The rows stand in the order of their first line: the sort by account code permutes
-- them and is left out.
pub mod Columns
pub mod Equation
use nexus_efos.Common.{
  ℕ, Bool, true, false, ◌||◌, List, map, filter, ltb, if◌then◌else◌, sum_by, sum_by_ℤ,
}
use nexus_efos.Common.Int.{ℤ, pos, ◌+ℤ◌, ◌-ℤ◌, pos_part, neg_part, abs}
use nexus_efos.Common.Table.{Table, get_or}
use nexus_efos.Ledger.{
  Category, JournalLine, is_debit_normal, aggregate_balances_as_of, accounts_involved,
}

pub record TrialRow : Type 0 where
  pub account_id : ℕ
  pub category : Category
  pub debit : ℕ
  pub credit : ℕ

-- A balance on its category's side shows in its own column, an abnormal one in the other.
unfoldable pub trial_row : Table ℤ → ℕ × Category → TrialRow
trial_row balances (id, category) =
    let bal = get_or id (pos 0) balances in
    if is_debit_normal category
    then record {
      account_id = id;
      category = category;
      debit = pos_part bal;
      credit = neg_part bal;
    }
    else record {
      account_id = id;
      category = category;
      debit = neg_part bal;
      credit = pos_part bal;
    }

pub record TrialBalance : Type 0 where
  pub rows : List TrialRow
  pub total_debit : ℕ
  pub total_credit : ℕ
  pub balanced : Bool

unfoldable pub trial_balance : List JournalLine → TrialBalance
unfolding trial_row
trial_balance lines =
    let balances = aggregate_balances_as_of lines in
    let rows = map (trial_row balances) (accounts_involved lines) in
    let debit = sum_by (λ r. r.debit) rows in
    let credit = sum_by (λ r. r.credit) rows in
    record {
      rows = rows;
      total_debit = debit;
      total_credit = credit;
      balanced = ltb (abs (pos debit -ℤ pos credit)) 1;
    }

abbrev pub same_category : Category → Category → Bool
same_category Category.asset Category.asset = true
same_category Category.liability Category.liability = true
same_category Category.equity Category.equity = true
same_category Category.income Category.income = true
same_category Category.expense Category.expense = true
same_category _ _ = false

-- `byCategory`: the accounts of one category, with their balances.
unfoldable pub by_category : List JournalLine → Category → List (ℕ × ℤ)
by_category lines cat =
    map (λ a. (a.0, get_or a.0 (pos 0) (aggregate_balances_as_of lines)))
      (filter (λ a. same_category a.1 cat) (accounts_involved lines))

abbrev pub is_income_or_expense : JournalLine → Bool
is_income_or_expense l =
    same_category l.category Category.income || same_category l.category Category.expense

-- The sum of all values of the map that `aggregateBalancesAsOf` returns.
abbrev pub sum_of_values : List JournalLine → ℤ
sum_of_values lines = sum_by_ℤ (λ e. e.1) (aggregate_balances_as_of lines)

pub record BalanceSheet : Type 0 where
  pub total_assets : ℤ
  pub total_liabilities : ℤ
  pub total_equity : ℤ
  pub net_income_since_inception : ℤ
  pub balanced : Bool

unfoldable pub balance_sheet : List JournalLine → BalanceSheet
balance_sheet lines =
    let assets = sum_by_ℤ (λ a. a.1) (by_category lines Category.asset) in
    let liabilities = sum_by_ℤ (λ a. a.1) (by_category lines Category.liability) in
    let equity_excl_income = sum_by_ℤ (λ a. a.1) (by_category lines Category.equity) in
    let net_income = sum_of_values (filter is_income_or_expense lines) in
    let equity = equity_excl_income +ℤ net_income in
    record {
      total_assets = assets;
      total_liabilities = liabilities;
      total_equity = equity;
      net_income_since_inception = net_income;
      balanced = ltb (abs (assets -ℤ (liabilities +ℤ equity))) 1;
    }

pub record IncomeStatement : Type 0 where
  pub total_income : ℤ
  pub total_expenses : ℤ
  pub net_income : ℤ

unfoldable pub income_statement : List JournalLine → IncomeStatement
income_statement lines =
    let ie_lines = filter is_income_or_expense lines in
    let income = sum_by_ℤ (λ a. a.1) (by_category ie_lines Category.income) in
    let expenses = sum_by_ℤ (λ a. a.1) (by_category ie_lines Category.expense) in
    record { total_income = income; total_expenses = expenses; net_income = income -ℤ expenses }
