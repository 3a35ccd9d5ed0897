-- ===== src/Ledger/Posting.antt =====
-- Posting: the loop that increments `GLAccount.balance` line by line, which every handler that moves
-- money runs in its transaction (api/src/routes/savings.routes.ts, loan.routes.ts,
-- cashVault.routes.ts, approvals.routes.ts).
pub mod Effects
pub mod Conservation
use nexus_efos.Common.{
  ℕ, Bool, true, false, Option, none, some, List, [], ◌∷◌, ◌++◌, all, ◌&&◌, leb, if◌then◌else◌,
}
use nexus_efos.Common.Int.{ℤ, pos, ◌+ℤ◌}
use nexus_efos.Common.Table.{Table, get, set}
use nexus_efos.Ledger.{Category, JournalLine, balance_effect, Journal, JournalStatus}

pub record GlAccount : Type 0 where
  pub category : Category
  pub is_active : Bool
  pub balance : ℤ

-- `gLAccount.update({ data: { balance: { increment } } })`; `none` is the exception that Prisma
-- raises for a missing row, which rolls the transaction back.
unfoldable pub increment : ℕ → ℤ → Table GlAccount → Option (Table GlAccount)
increment id delta accounts = elim (get id accounts) [
  | none ↦ none
  | some a ↦ some (set id (record a { balance = a.balance +ℤ delta }) accounts)
]

unfoldable pub post_lines : List JournalLine → Table GlAccount → Option (Table GlAccount)
post_lines [] accounts = some accounts
post_lines (l ∷ lines) accounts =
    elim (increment l.account_id (balance_effect l.category l.debit l.credit) accounts) [
      | none ↦ none
      | some accounts' ↦ post_lines lines accounts'
    ]

pub data PeriodStatus : Type 0 where
  open_period closed locked : PeriodStatus

abbrev pub is_open : PeriodStatus → Bool
is_open PeriodStatus.open_period = true
is_open _ = false

-- A financial period covers the days from `start_date` to `end_date`, both included.
pub record Period : Type 0 where
  pub start_date : ℕ
  pub end_date : ℕ
  pub status : PeriodStatus

abbrev pub covers : Period → ℕ → Bool
covers p date = leb p.start_date date && leb date p.end_date

-- `findPostablePeriod`
abbrev pub find_postable_period : Table Period → ℕ → Option Period
find_postable_period [] date = none
find_postable_period ((k, p) ∷ periods) date =
    let rest = find_postable_period periods date in if covers p date then some p else rest

-- `glPeriod && glPeriod.status === "OPEN"`
unfoldable pub is_postable : Table Period → ℕ → Bool
is_postable periods date = elim (find_postable_period periods date) [
  | none ↦ false
  | some p ↦ is_open p.status
]

-- What the ledger keeps for one institution.
pub record Books : Type 0 where
  pub accounts : Table GlAccount
  pub periods : Table Period
  pub journals : List Journal

-- The ledger half of a money movement: an AUTOMATIC journal is created as POSTED, and its lines
-- are applied to the account balances.
unfoldable pub post_automatic : ℕ → List JournalLine → Books → Option Books
post_automatic posting_date lines books =
    let journal : Journal = record {
      status = JournalStatus.posted;
      posting_date = posting_date;
      lines = lines;
    } in
    elim (post_lines lines books.accounts) [
      | none ↦ none
      | some accounts ↦
          some (record books { accounts = accounts; journals = books.journals ++ journal ∷ [] })
    ]
