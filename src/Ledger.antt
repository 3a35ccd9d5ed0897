-- ===== src/Ledger.antt =====
-- The double-entry engine, api/src/lib/generalLedger.ts. Amounts are whole cents, which is what the
-- columns `debit` and `credit` hold; an account's balance may be negative.
mod Tests
pub mod Totals
pub mod Reports
pub mod Posting
pub mod Journals
pub mod Periods
pub mod CashFlow
use nexus_efos.Common.{
  ℕ, ◌≡◌, Bool, true, false, ◌&&◌, List, [], ◌∷◌, ◌++◌, ltb, leb, ◌==◌, if◌then◌else◌, sum_by,
}
use nexus_efos.Common.Int.{ℤ, pos, ◌+ℤ◌, ◌-ℤ◌}
use nexus_efos.Common.Rounding.{round2, round2_ℤ}
use nexus_efos.Common.Table.{Table, get_or, set}

pub data Category : Type 0 where
  asset liability equity income expense : Category

-- A journal line, joined with its account's category.
pub record JournalLine : Type 0 where
  pub account_id : ℕ
  pub category : Category
  pub debit : ℕ
  pub credit : ℕ

unfoldable pub is_balanced : List JournalLine → Bool
is_balanced lines =
    let total_debit = round2 (sum_by (λ l. l.debit) lines) 1 in
    let total_credit = round2 (sum_by (λ l. l.credit) lines) 1 in
    total_debit == total_credit && ltb 0 total_debit

abbrev pub is_debit_normal : Category → Bool
is_debit_normal Category.asset = true
is_debit_normal Category.expense = true
is_debit_normal _ = false

unfoldable pub balance_effect : Category → ℕ → ℕ → ℤ
balance_effect category debit credit =
    if is_debit_normal category
    then round2_ℤ (pos debit -ℤ pos credit) 1
    else round2_ℤ (pos credit -ℤ pos debit) 1

-- One turn of the loop of `aggregateBalancesAsOf`.
abbrev pub aggregate_line : Table ℤ → JournalLine → Table ℤ
aggregate_line result l =
    let effect = balance_effect l.category l.debit l.credit in
    set l.account_id (round2_ℤ (get_or l.account_id (pos 0) result +ℤ effect) 1) result

abbrev pub aggregate_from : Table ℤ → List JournalLine → Table ℤ
aggregate_from result [] = result
aggregate_from result (l ∷ lines) = aggregate_from (aggregate_line result l) lines

unfoldable pub aggregate_balances_as_of : List JournalLine → Table ℤ
aggregate_balances_as_of lines = aggregate_from [] lines

-- `new Map(lines.map(l => [l.accountId, l.account]))`, of which the reports use the category.
abbrev pub involve : Table Category → List JournalLine → Table Category
involve t [] = t
involve t (l ∷ lines) = involve (set l.account_id l.category t) lines

unfoldable pub accounts_involved : List JournalLine → Table Category
accounts_involved lines = involve [] lines

pub data JournalStatus : Type 0 where
  draft pending_approval posted rejected : JournalStatus

abbrev pub is_posted : JournalStatus → Bool
is_posted JournalStatus.posted = true
is_posted _ = false

-- A journal with its lines. A posting date is a moment, as a number.
pub record Journal : Type 0 where
  pub status : JournalStatus
  pub posting_date : ℕ
  pub lines : List JournalLine

-- `getPostedLinesUpTo`
abbrev pub posted_lines_up_to : ℕ → List Journal → List JournalLine
posted_lines_up_to as_of [] = []
posted_lines_up_to as_of (j ∷ journals) =
    let rest = posted_lines_up_to as_of journals in
    if is_posted j.status && leb j.posting_date as_of then j.lines ++ rest else rest

-- `getPostedLinesForPeriod`
abbrev pub posted_lines_for_period : ℕ → ℕ → List Journal → List JournalLine
posted_lines_for_period from to [] = []
posted_lines_for_period from to (j ∷ journals) =
    let rest = posted_lines_for_period from to journals in
    if is_posted j.status && (leb from j.posting_date && leb j.posting_date to)
    then j.lines ++ rest
    else rest
