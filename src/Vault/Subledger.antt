-- ===== src/Vault/Subledger.antt =====
-- The cash of the vaults and tellers against the account of the ledger that carries it, "Vault
-- Cash", under any sequence of the operations.
pub mod Movements
pub mod Transfers
pub mod Postings
pub mod Rows
pub mod Run
use nexus_efos.Common.{
  ℕ, ◌≡◌, ◌≢◌, refl, ap, ap₂, sym, ◌∙◌, Bool, Option, none, some, List, [], ◌∷◌, All, sum_by_ℤ,
  Option-cases, inl, inr,
}
use nexus_efos.Common.Int.{ℤ, pos, ◌+ℤ◌, ◌-ℤ◌, ◌≤ℤ◌}
use nexus_efos.Common.Table.{Table}
use nexus_efos.Common.Result.{Result, settle}
use nexus_efos.Ledger.{Category}
use nexus_efos.Ledger.Posting.Effects.{balance_of}
use nexus_efos.Ledger.Posting.Conservation.{category_of}
use nexus_efos.Vault.{
  Vault, Teller, CashStore, CashHolderType, create_vault, open_the_vault, close_the_vault,
  register_teller, set_cash_limit, suspend, reinstate,
}
use nexus_efos.Vault.Entries.{EntryType, cash_entry}
use nexus_efos.Vault.Transfers.{request_transfer, apply_transfer, reject_transfer}
use nexus_efos.Vault.Balancing.{record_balancing, approve_variance}

pub data Op : Type 0 where
  create_op open_op close_op suspend_op reinstate_op : ℕ → Op
  register_op : ℕ → ℕ → ℕ → Op
  limit_op : ℕ → ℕ → Op
  entry_op : EntryType → ℕ → ℕ → Op
  request_op : ℕ → CashHolderType × ℕ → CashHolderType × ℕ → ℕ → Op
  approve_transfer_op reject_transfer_op : ℕ → Op
  balancing_op : ℕ → CashHolderType → ℕ → ℕ → Bool → Op
  approve_variance_op : ℕ → Op

abbrev pub perform : ℕ → Op → CashStore → Result CashStore
perform today (Op.create_op id) = create_vault id
perform today (Op.open_op id) = open_the_vault id
perform today (Op.close_op id) = close_the_vault id today
perform today (Op.suspend_op id) = suspend id
perform today (Op.reinstate_op id) = reinstate id
perform today (Op.register_op id employee limit) = register_teller id employee limit
perform today (Op.limit_op id limit) = set_cash_limit id limit
perform today (Op.entry_op type id amount) = cash_entry type id amount today
perform today (Op.request_op id from to amount) = request_transfer id from to amount
perform today (Op.approve_transfer_op id) = apply_transfer id
perform today (Op.reject_transfer_op id) = reject_transfer id
perform today (Op.balancing_op id type holder counted notes) =
    record_balancing id type holder today counted notes
perform today (Op.approve_variance_op id) = approve_variance id

-- Each operation stands with its day.
abbrev pub run : List (ℕ × Op) → CashStore → CashStore
run [] store = store
run ((today, op) ∷ ops) store = run ops (settle store (perform today op store))

abbrev pub cash_total : CashStore → ℤ
cash_total store =
    sum_by_ℤ (λ e. e.1.balance) store.vaults +ℤ sum_by_ℤ (λ e. e.1.current_holding) store.tellers

-- The ledger's account, less the cash that is held.
abbrev pub gap : ℕ → CashStore → ℤ
gap cash store = balance_of cash store.books.accounts -ℤ cash_total store

-- The two purposes are mapped to different accounts, "Vault Cash" to an asset.
abbrev pub IsMapped : ℕ → ℕ → CashStore → Type 0
IsMapped cash bank store =
    (store.vault_cash_account ≡ some cash)
    × (store.bank_account ≡ some bank)
    × (category_of cash store.books.accounts ≡ some Category.asset)
    × (cash ≢ bank)

abbrev pub IsNonnegative : CashStore → Type 0
IsNonnegative store =
    All (λ e. pos 0 ≤ℤ e.1.balance) store.vaults
    × All (λ e. pos 0 ≤ℤ e.1.current_holding) store.tellers

pub record Keeps (cash bank : ℕ) (store store' : CashStore) : Type 0 where
  pub mapped : IsMapped cash bank store'
  pub nonnegative : IsNonnegative store'
  pub same_gap : gap cash store' ≡ gap cash store

-- What stays of the ledger where nothing is posted.
pub record SameLedger (store store' : CashStore) : Type 0 where
  pub same_books : store'.books ≡ store.books
  pub same_cash : store'.vault_cash_account ≡ store.vault_cash_account
  pub same_bank : store'.bank_account ≡ store.bank_account

pub unposted-Keeps :
    (cash bank : ℕ) (store store' : CashStore)
    → IsMapped cash bank store
    → SameLedger store store'
    → cash_total store' ≡ cash_total store
    → IsNonnegative store'
    → Keeps cash bank store store'
unposted-Keeps cash bank store store' (c, b, asset, differ) same total nonnegative = record {
  mapped = (
    same.same_cash ∙ c,
    same.same_bank ∙ b,
    ap (λ x. category_of cash x.accounts) same.same_books ∙ asset,
    differ,
  );
  nonnegative = nonnegative;
  same_gap = ap₂ (λ x y. balance_of cash x.accounts -ℤ y) same.same_books total;
}
