-- ===== src/Vault.antt =====
-- Cash vaults and tellers, api/src/routes/cashVault.routes.ts: their rows, opening and closing, and
-- the register of tellers. A row's id is new where it is created: the primary key is checked.
mod Tests
pub mod Entries
pub mod Transfers
pub mod Balancing
pub mod Subledger
use nexus_efos.Common.{
  ℕ, Bool, true, false, not, ◌&&◌, Option, none, some, List, [], ◌∷◌, any, ltb, ◌==◌,
}
use nexus_efos.Common.Int.{ℤ, pos}
use nexus_efos.Common.Table.{Table, get, set}
use nexus_efos.Common.Result.{
  Result, ok, guard, require, ◌>>=◌, ◌>>◌, bad_request, not_found, server_error,
}
use nexus_efos.Ledger.Posting.{Books}

pub data VaultStatus : Type 0 where
  open_vault closed_vault : VaultStatus

pub record Vault : Type 0 where
  pub balance : ℤ
  pub status : VaultStatus

pub data TellerStatus : Type 0 where
  active suspended : TellerStatus

pub record Teller : Type 0 where
  pub employee_id : ℕ
  pub cash_limit : ℕ
  pub current_holding : ℤ
  pub status : TellerStatus

pub data CashHolderType : Type 0 where
  vault_holder teller_holder : CashHolderType

abbrev pub same_holder_type : CashHolderType → CashHolderType → Bool
same_holder_type CashHolderType.vault_holder CashHolderType.vault_holder = true
same_holder_type CashHolderType.teller_holder CashHolderType.teller_holder = true
same_holder_type _ _ = false

pub data CashLedgerEntryType : Type 0 where
  receipt withdrawal transfer_in transfer_out : CashLedgerEntryType

pub record CashLedgerEntry : Type 0 where
  pub holder_type : CashHolderType
  pub holder_id : ℕ
  pub type : CashLedgerEntryType
  pub amount : ℕ
  pub balance_after : ℤ

pub data CashTransferStatus : Type 0 where
  pending_approval completed rejected : CashTransferStatus

pub record CashTransfer : Type 0 where
  pub from_type : CashHolderType
  pub from_id : ℕ
  pub to_type : CashHolderType
  pub to_id : ℕ
  pub amount : ℕ
  pub status : CashTransferStatus

pub data CashBalancingStatus : Type 0 where
  reconciled variance_pending_approval : CashBalancingStatus

pub record CashBalancing : Type 0 where
  pub holder_type : CashHolderType
  pub holder_id : ℕ
  pub balancing_date : ℕ
  pub expected_amount : ℤ
  pub counted_amount : ℕ
  pub variance : ℤ
  pub status : CashBalancingStatus

-- The rows of one institution. The mapped accounts are those of the purposes "Vault Cash" and "Bank
-- Account (External)".
pub record CashStore : Type 0 where
  pub vaults : Table Vault
  pub tellers : Table Teller
  pub entries : List CashLedgerEntry
  pub transfers : Table CashTransfer
  pub balancings : Table CashBalancing
  pub employees : List ℕ
  pub vault_cash_account : Option ℕ
  pub bank_account : Option ℕ
  pub books : Books

abbrev pub is_open : VaultStatus → Bool
is_open VaultStatus.open_vault = true
is_open VaultStatus.closed_vault = false

abbrev pub is_none {ℓ} : {A : Type ℓ} → Option A → Bool
is_none none = true
is_none (some a) = false

-- `/vaults`
unfoldable pub create_vault : ℕ → CashStore → Result CashStore
create_vault id store = do
  guard (is_none (get id store.vaults)) server_error
  ok (record store {
    vaults = set id (record { balance = pos 0; status = VaultStatus.closed_vault }) store.vaults;
  })

-- `/vaults/:id/open`
unfoldable pub open_the_vault : ℕ → CashStore → Result CashStore
open_the_vault id store = do
  vault ← require (get id store.vaults) not_found
  guard (not (is_open vault.status)) bad_request
  ok (record store {
    vaults = set id (record vault { status = VaultStatus.open_vault }) store.vaults;
  })

abbrev is_reconciled : CashBalancingStatus → Bool
is_reconciled CashBalancingStatus.reconciled = true
is_reconciled CashBalancingStatus.variance_pending_approval = false

-- `{ holderType: "VAULT", holderId: vault.id, balancingDate: todayStart, status: "RECONCILED" }`
abbrev pub is_balanced_on : ℕ → ℕ → Table CashBalancing → Bool
is_balanced_on id today balancings =
    any
      (λ (b : ℕ × CashBalancing).
        same_holder_type b.1.holder_type CashHolderType.vault_holder
        && (b.1.holder_id == id && (b.1.balancing_date == today && is_reconciled b.1.status)))
      balancings

-- `/vaults/:id/close`
unfoldable pub close_the_vault : ℕ → ℕ → CashStore → Result CashStore
close_the_vault id today store = do
  vault ← require (get id store.vaults) not_found
  guard (is_open vault.status) bad_request
  guard (is_balanced_on id today store.balancings) bad_request
  ok (record store {
    vaults = set id (record vault { status = VaultStatus.closed_vault }) store.vaults;
  })

-- `/tellers`
unfoldable pub register_teller : ℕ → ℕ → ℕ → CashStore → Result CashStore
register_teller id employee_id cash_limit store = do
  guard (ltb 0 cash_limit) bad_request
  guard (any (λ e. e == employee_id) store.employees) not_found
  guard (not (any (λ (t : ℕ × Teller). t.1.employee_id == employee_id) store.tellers)) bad_request
  guard (is_none (get id store.tellers)) server_error
  ok (record store {
    tellers =
        set id
          (record {
            employee_id = employee_id;
            cash_limit = cash_limit;
            current_holding = pos 0;
            status = TellerStatus.active;
          })
          store.tellers;
  })

-- `/tellers/:id/limit`, `/tellers/:id/suspend` and `/tellers/:id/reinstate`
unfoldable pub set_cash_limit : ℕ → ℕ → CashStore → Result CashStore
set_cash_limit id cash_limit store = do
  guard (ltb 0 cash_limit) bad_request
  teller ← require (get id store.tellers) not_found
  ok (record store { tellers = set id (record teller { cash_limit = cash_limit }) store.tellers })

unfoldable pub set_teller_status : TellerStatus → ℕ → CashStore → Result CashStore
set_teller_status status id store = do
  teller ← require (get id store.tellers) not_found
  ok (record store { tellers = set id (record teller { status = status }) store.tellers })

unfoldable pub suspend : ℕ → CashStore → Result CashStore
unfolding set_teller_status
suspend = set_teller_status TellerStatus.suspended

unfoldable pub reinstate : ℕ → CashStore → Result CashStore
unfolding set_teller_status
reinstate = set_teller_status TellerStatus.active
