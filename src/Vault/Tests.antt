-- ===== src/Vault/Tests.antt =====
-- A vault and a teller over one day.
use nexus_efos.Common.{ℕ, ◌≡◌, refl, true, false, some, List, [], ◌∷◌, arith}
use nexus_efos.Common.Int.{pos}
use nexus_efos.Ledger.{Category}
use nexus_efos.Ledger.Posting.{PeriodStatus}
use nexus_efos.Vault.{CashStore, CashHolderType}
use nexus_efos.Vault.Entries.{EntryType}
use nexus_efos.Vault.Subledger.{Op, run, gap, IsNonnegative}
use nexus_efos.Vault.Subledger.Run.{cash_follows_ledger}

abbrev store : CashStore
store = record {
  vaults = [];
  tellers = [];
  entries = [];
  transfers = [];
  balancings = [];
  employees = 4 ∷ [];
  vault_cash_account = some 1;
  bank_account = some 2;
  books = record {
    accounts =
        (1, record { category = Category.asset; is_active = true; balance = pos 0 })
        ∷ (2, record { category = Category.asset; is_active = true; balance = pos 900000 })
        ∷ [];
    periods = (1, record { start_date = 0; end_date = 30; status = PeriodStatus.open_period }) ∷ [];
    journals = [];
  };
}

abbrev ops : List (ℕ × Op)
ops =
    (1, Op.create_op 1)
    ∷ (1, Op.open_op 1)
    ∷ (1, Op.register_op 1 4 50000)
    ∷ (1, Op.entry_op EntryType.receipt 1 300000)
    ∷ (1, Op.request_op 1 (CashHolderType.vault_holder, 1) (CashHolderType.teller_holder, 1) 20000)
    ∷ (1, Op.approve_transfer_op 1)
    ∷ (1, Op.entry_op EntryType.withdrawal 1 290000)
    ∷ (1, Op.balancing_op 1 CashHolderType.vault_holder 1 280000 false)
    ∷ (1, Op.close_op 1)
    ∷ []

cash_follows_ledger_example : (gap 1 (run ops store) ≡ gap 1 store) × IsNonnegative (run ops store)
cash_follows_ledger_example =
    cash_follows_ledger 1 2 ops store (refl, refl, refl, λ (p : 1 ≡ 2). ground arith) (tt, tt)
