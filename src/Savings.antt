-- ===== src/Savings.antt =====
-- Savings accounts, api/src/routes/savings.routes.ts: deposits and withdrawals with their journals,
-- restrictions, fees, closing and reactivating. A handler is split where its transaction starts:
-- its checks read one state, and the transaction writes to the state that it finds.
mod Tests
pub mod Fees
pub mod Overdraft
pub mod Subledger
use nexus_efos.Common.{
  ℕ, suc, ◌*◌, Bool, true, false, not, ◌&&◌, ◌||◌, Option, none, some, List, [], ◌∷◌, ◌++◌, any,
  ltb, ◌==◌, if◌then◌else◌,
}
use nexus_efos.Common.Int.{ℤ, pos, negsuc, ◌+ℤ◌, ◌-ℤ◌, leb_ℤ, abs}
use nexus_efos.Common.Rounding.{round2_ℤ}
use nexus_efos.Common.Table.{Table, get, set}
use nexus_efos.Common.Result.{
  Result, ok, err, guard, require, ◌>>=◌, ◌>>◌, bad_request, not_found, server_error,
}
use nexus_efos.Ledger.{JournalLine, is_balanced}
use nexus_efos.Ledger.Posting.{Books, GlAccount, is_postable, post_automatic}

pub data AccountStatus : Type 0 where
  active dormant closed : AccountStatus

pub record SavingsAccount : Type 0 where
  pub balance : ℤ
  pub ledger_balance : ℤ
  pub status : AccountStatus

pub data RestrictionType : Type 0 where
  debit_restriction credit_restriction full_freeze court_order compliance fraud_investigation
        dormancy customer_requested product_restriction institution_defined :
      RestrictionType

pub data RestrictionStatus : Type 0 where
  pending_approval active removed expired : RestrictionStatus

pub record SavingsRestriction : Type 0 where
  pub account_id : ℕ
  pub type : RestrictionType
  pub status : RestrictionStatus

pub data TransactionType : Type 0 where
  deposited withdrawn interest migration_opening_balance fee fee_reversal : TransactionType

pub record SavingsTransaction : Type 0 where
  pub account_id : ℕ
  pub type : TransactionType
  pub amount : ℤ
  pub balance_after : ℤ

-- `amount` is in cents for a fixed fee, and in hundredths of a percent for a percentage.
pub record FeeType : Type 0 where
  pub is_fixed : Bool
  pub amount : ℕ
  pub is_active : Bool

pub data ChargeStatus : Type 0 where
  applied waived reversed : ChargeStatus

pub record FeeCharge : Type 0 where
  pub account_id : ℕ
  pub amount : ℤ
  pub status : ChargeStatus

-- The rows of one institution. The two mapped accounts are those of the purposes "Cash/Bank
-- (Savings)" and "Customer Deposits Liability".
pub record Bank : Type 0 where
  pub accounts : Table SavingsAccount
  pub restrictions : List SavingsRestriction
  pub fee_types : Table FeeType
  pub charges : Table FeeCharge
  pub transactions : List SavingsTransaction
  pub cash_account : Option ℕ
  pub deposits_account : Option ℕ
  pub books : Books

pub data Direction : Type 0 where
  debit credit : Direction

abbrev pub is_active_restriction : RestrictionStatus → Bool
is_active_restriction RestrictionStatus.active = true
is_active_restriction _ = false

abbrev pub blocks : Direction → RestrictionType → Bool
blocks direction RestrictionType.full_freeze = true
blocks Direction.debit RestrictionType.debit_restriction = true
blocks Direction.credit RestrictionType.credit_restriction = true
blocks _ _ = false

-- `checkRestriction`: whether it finds an error.
unfoldable pub check_restriction : ℕ → Direction → List SavingsRestriction → Bool
check_restriction id direction restrictions =
    any
      (λ (r : SavingsRestriction).
        r.account_id == id && (is_active_restriction r.status && blocks direction r.type))
      restrictions

abbrev pub journal_line : ℕ → GlAccount → ℕ → ℕ → JournalLine
journal_line id account dr cr = record {
  account_id = id;
  category = account.category;
  debit = dr;
  credit = cr;
}

-- What both handlers check before their transaction, and the two mapped accounts.
unfoldable pub check_movement :
    Direction → ℕ → ℕ → ℕ → Bank → Result ((ℕ × GlAccount) × (ℕ × GlAccount))
check_movement direction id amount today bank = do
  guard (ltb 0 amount) bad_request
  account ← require (get id bank.accounts) not_found
  guard (not (check_restriction id direction bank.restrictions)) bad_request
  cash ← require bank.cash_account bad_request
  deposits ← require bank.deposits_account bad_request
  guard (is_postable bank.books.periods today) bad_request
  cash_account ← require (get cash bank.books.accounts) server_error
  deposits_account ← require (get deposits bank.books.accounts) server_error
  ok ((cash, cash_account), (deposits, deposits_account))

unfoldable pub check_deposit : ℕ → ℕ → ℕ → Bank → Result (List JournalLine)
unfolding check_movement
check_deposit id amount today bank = do
  mapped ← check_movement Direction.credit id amount today bank
  let lines =
      journal_line mapped.0.0 mapped.0.1 amount 0 ∷ journal_line mapped.1.0 mapped.1.1 0 amount ∷ []
  guard (is_balanced lines) bad_request
  ok lines

unfoldable pub check_withdraw : ℕ → ℕ → ℕ → Bank → Result (List JournalLine)
unfolding check_movement
check_withdraw id amount today bank = do
  mapped ← check_movement Direction.debit id amount today bank
  let lines =
      journal_line mapped.1.0 mapped.1.1 amount 0 ∷ journal_line mapped.0.0 mapped.0.1 0 amount ∷ []
  guard (is_balanced lines) bad_request
  ok lines

-- `balance: { increment }, ledgerBalance: { increment }`
abbrev pub shift : ℤ → SavingsAccount → SavingsAccount
shift delta a = record a {
  balance = a.balance +ℤ delta;
  ledger_balance = a.ledger_balance +ℤ delta;
}

abbrev pub record_movement : TransactionType → ℕ → ℤ → SavingsAccount → Books → Bank → Bank
record_movement type id amount updated books bank = record bank {
  accounts = set id updated bank.accounts;
  transactions =
      bank.transactions
      ++ (record { account_id = id; type = type; amount = amount; balance_after = updated.balance })
        ∷ [];
  books = books;
}

-- The transaction of a deposit.
unfoldable pub commit_deposit : ℕ → ℕ → List JournalLine → ℕ → Bank → Result Bank
commit_deposit id amount lines today bank = do
  account ← require (get id bank.accounts) server_error
  books ← require (post_automatic today lines bank.books) server_error
  ok (
      record_movement TransactionType.deposited id (pos amount) (shift (pos amount) account) books
        bank)

-- The transaction of a withdrawal: the guard `balance: { gte: amount }` stands in the same statement
-- as the decrement.
unfoldable pub commit_withdraw : ℕ → ℕ → List JournalLine → ℕ → Bank → Result Bank
commit_withdraw id amount lines today bank = do
  account ← require (get id bank.accounts) bad_request
  guard (leb_ℤ (pos amount) account.balance) bad_request
  books ← require (post_automatic today lines bank.books) server_error
  ok (
      record_movement TransactionType.withdrawn id (pos amount)
        (shift (pos 0 -ℤ pos amount) account) books bank)

-- `/:id/deposit` and `/:id/withdraw`, run without interruption.
unfoldable pub deposit : ℕ → ℕ → ℕ → Bank → Result Bank
deposit id amount today bank = do
  lines ← check_deposit id amount today bank
  commit_deposit id amount lines today bank

unfoldable pub withdraw : ℕ → ℕ → ℕ → Bank → Result Bank
withdraw id amount today bank = do
  lines ← check_withdraw id amount today bank
  commit_withdraw id amount lines today bank

-- `/:id/close`
unfoldable pub close : ℕ → Bank → Result Bank
close id bank = do
  account ← require (get id bank.accounts) not_found
  guard (abs account.balance == 0) bad_request
  ok (record bank {
    accounts = set id (record account { status = AccountStatus.closed }) bank.accounts;
  })

-- `/:id/reactivate`
unfoldable pub reactivate : ℕ → Bank → Result Bank
reactivate id bank = do
  account ← require (get id bank.accounts) not_found
  ok (record bank {
    accounts = set id (record account { status = AccountStatus.active }) bank.accounts;
  })
