-- ===== src/Vault/Entries.antt =====
-- Cash between the bank and a vault: `/vaults/:id/ledger` of api/src/routes/cashVault.routes.ts,
-- split where its transaction starts.
use nexus_efos.Common.{ℕ, List, [], ◌∷◌, ◌++◌, ltb}
use nexus_efos.Common.Int.{pos, ◌+ℤ◌, ◌-ℤ◌, leb_ℤ}
use nexus_efos.Common.Table.{get, set}
use nexus_efos.Common.Result.{
  Error, Result, ok, guard, require, ◌>>=◌, ◌>>◌, bad_request, not_found, server_error,
}
use nexus_efos.Ledger.{JournalLine, is_balanced}
use nexus_efos.Ledger.Posting.{GlAccount, is_postable, post_automatic}
use nexus_efos.Vault.{
  Vault, CashStore, CashHolderType, CashLedgerEntryType, CashLedgerEntry, is_open,
}

pub data EntryType : Type 0 where
  receipt withdrawal : EntryType

abbrev pub journal_line : ℕ → GlAccount → ℕ → ℕ → JournalLine
journal_line id account dr cr = record {
  account_id = id;
  category = account.category;
  debit = dr;
  credit = cr;
}

abbrev pub entry_lines : EntryType → ℕ → ℕ × GlAccount → ℕ × GlAccount → List JournalLine
entry_lines EntryType.receipt amount vault bank =
    journal_line vault.0 vault.1 amount 0 ∷ journal_line bank.0 bank.1 0 amount ∷ []
entry_lines EntryType.withdrawal amount vault bank =
    journal_line bank.0 bank.1 amount 0 ∷ journal_line vault.0 vault.1 0 amount ∷ []

-- The checks before the transaction, and the lines of the journal.
unfoldable pub check_entry : EntryType → ℕ → ℕ → ℕ → CashStore → Result (List JournalLine)
check_entry type id amount today store = do
  guard (ltb 0 amount) bad_request
  vault ← require (get id store.vaults) not_found
  guard (is_open vault.status) bad_request
  vault_cash ← require store.vault_cash_account bad_request
  bank ← require store.bank_account bad_request
  guard (is_postable store.books.periods today) bad_request
  vault_cash_account ← require (get vault_cash store.books.accounts) server_error
  bank_account ← require (get bank store.books.accounts) server_error
  let lines = entry_lines type amount (vault_cash, vault_cash_account) (bank, bank_account)
  guard (is_balanced lines) bad_request
  ok lines

-- `balance: { gte: amount }` for a withdrawal, in the same statement as the decrement.
abbrev pub moved : EntryType → ℕ → Vault → Result Vault
moved EntryType.receipt amount vault = ok (record vault { balance = vault.balance +ℤ pos amount })
moved EntryType.withdrawal amount vault =
    guard (leb_ℤ (pos amount) vault.balance) bad_request
    >> ok (record vault { balance = vault.balance -ℤ pos amount })

abbrev pub entry_type : EntryType → CashLedgerEntryType
entry_type EntryType.receipt = CashLedgerEntryType.receipt
entry_type EntryType.withdrawal = CashLedgerEntryType.withdrawal

-- The guarded decrement finds no row, or the increment raises an exception.
abbrev pub missing_status : EntryType → Error
missing_status EntryType.receipt = server_error
missing_status EntryType.withdrawal = bad_request

-- The transaction.
unfoldable pub commit_entry :
    EntryType → ℕ → ℕ → ℕ → List JournalLine → CashStore → Result CashStore
commit_entry type id amount today lines store = do
  vault ← require (get id store.vaults) (missing_status type)
  updated ← moved type amount vault
  books ← require (post_automatic today lines store.books) server_error
  let entry : CashLedgerEntry = record {
    holder_type = CashHolderType.vault_holder;
    holder_id = id;
    type = entry_type type;
    amount = amount;
    balance_after = updated.balance;
  }
  ok (record store {
    vaults = set id updated store.vaults;
    entries = store.entries ++ entry ∷ [];
    books = books;
  })

unfoldable pub cash_entry : EntryType → ℕ → ℕ → ℕ → CashStore → Result CashStore
cash_entry type id amount today store = do
  lines ← check_entry type id amount today store
  commit_entry type id amount today lines store
