-- ===== src/Savings/Subledger.antt =====
-- The savings accounts against the account of the ledger that carries them, "Customer Deposits
-- Liability".
pub mod Movements
pub mod Charges
pub mod Run
use nexus_efos.Common.{
  ℕ, ◌≡◌, Bool, true, false, Option, none, some, List, [], ◌∷◌, ◌==◌, ◌||◌, if◌then◌else◌, All,
  sum_by_ℤ,
}
use nexus_efos.Common.Int.{ℤ, pos, ◌+ℤ◌, ◌-ℤ◌}
use nexus_efos.Common.Table.{Table}
use nexus_efos.Common.Result.{Result, ok, err}
use nexus_efos.Ledger.{Category}
use nexus_efos.Ledger.Posting.{GlAccount}
use nexus_efos.Ledger.Posting.Effects.{balance_of}
use nexus_efos.Ledger.Posting.Conservation.{category_of}
use nexus_efos.Savings.{SavingsAccount, FeeCharge, Bank, deposit, withdraw, close, reactivate}
use nexus_efos.Savings.Fees.{charge_fee, waive_fee, is_applied}

pub data Op : Type 0 where
  deposit_op withdraw_op : ℕ → ℕ → Op
  close_op reactivate_op : ℕ → Op
  charge_op : ℕ → ℕ → ℕ → Op
  waive_op : ℕ → Op

abbrev pub perform : ℕ → Op → Bank → Result Bank
perform today (Op.deposit_op id amount) bank = deposit id amount today bank
perform today (Op.withdraw_op id amount) bank = withdraw id amount today bank
perform today (Op.close_op id) bank = close id bank
perform today (Op.reactivate_op id) bank = reactivate id bank
perform today (Op.charge_op charge_id id fee_type_id) bank =
    charge_fee charge_id id fee_type_id bank
perform today (Op.waive_op charge_id) bank = waive_fee charge_id bank

-- A refused operation leaves the bank as it is.
abbrev pub after : Result Bank → Bank → Bank
after (err status) bank = bank
after (ok bank') bank = bank'

-- Each operation stands with its day.
abbrev pub run : List (ℕ × Op) → Bank → Bank
run [] bank = bank
run ((today, op) ∷ ops) bank = run ops (after (perform today op bank) bank)

abbrev pub savings_total : Table SavingsAccount → ℤ
savings_total = sum_by_ℤ (λ e. e.1.balance)

-- The fees that are charged and not waived.
abbrev pub unwaived : FeeCharge → ℤ
unwaived c = if is_applied c.status then c.amount else pos 0

abbrev pub fees_total : Table FeeCharge → ℤ
fees_total = sum_by_ℤ (λ e. unwaived e.1)

-- The ledger's liability, less what the accounts hold and the fees taken from them.
abbrev pub gap : ℕ → Bank → ℤ
gap deposits bank =
    balance_of deposits bank.books.accounts
    -ℤ (savings_total bank.accounts +ℤ fees_total bank.charges)

-- The two purposes are mapped to an asset and to a liability.
abbrev pub IsMapped : ℕ → ℕ → Bank → Type 0
IsMapped cash deposits bank =
    (bank.cash_account ≡ some cash)
    × (bank.deposits_account ≡ some deposits)
    × (category_of cash bank.books.accounts ≡ some Category.asset)
    × (category_of deposits bank.books.accounts ≡ some Category.liability)

abbrev pub has_row : ℕ → Table SavingsAccount → Bool
has_row id [] = false
has_row id ((j, a) ∷ t) = id == j || has_row id t

-- A charge belongs to an account.
abbrev pub AreLinked : Bank → Type 0
AreLinked bank = All (λ e. has_row e.1.account_id bank.accounts ≡ true) bank.charges

pub record Keeps (cash deposits : ℕ) (bank bank' : Bank) : Type 0 where
  pub mapped : IsMapped cash deposits bank'
  pub linked : AreLinked bank'
  pub same_gap : gap deposits bank' ≡ gap deposits bank
