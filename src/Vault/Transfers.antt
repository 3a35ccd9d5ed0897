-- ===== src/Vault/Transfers.antt =====
-- Cash between vaults and tellers: `/transfers` of api/src/routes/cashVault.routes.ts, and the cases
-- CASH_TRANSFER of api/src/routes/approvals.routes.ts.
use nexus_efos.Common.{ℕ, not, ◌&&◌, Option, none, some, [], ◌∷◌, ◌++◌, ltb, ◌==◌, if◌then◌else◌}
use nexus_efos.Common.Int.{ℤ, pos, ◌+ℤ◌, ◌-ℤ◌, ltb_ℤ}
use nexus_efos.Common.Table.{get, set}
use nexus_efos.Common.Result.{
  Result, ok, guard, require, ◌>>=◌, ◌>>◌, bad_request, not_found, server_error,
}
use nexus_efos.Vault.{
  CashStore, CashHolderType, same_holder_type, CashTransfer, CashTransferStatus,
  CashLedgerEntryType, is_none,
}

-- `getHolderBalance`
unfoldable pub get_holder_balance : CashHolderType → ℕ → CashStore → Option ℤ
get_holder_balance CashHolderType.vault_holder id store = elim (get id store.vaults) [
  | none ↦ none
  | some vault ↦ some vault.balance
]
get_holder_balance CashHolderType.teller_holder id store = elim (get id store.tellers) [
  | none ↦ none
  | some teller ↦ some teller.current_holding
]

-- `/transfers`
unfoldable pub request_transfer :
    ℕ → CashHolderType × ℕ → CashHolderType × ℕ → ℕ → CashStore → Result CashStore
request_transfer transfer_id (from_type, from_id) (to_type, to_id) amount store = do
  guard (ltb 0 amount) bad_request
  guard (not (same_holder_type from_type to_type && from_id == to_id)) bad_request
  source_balance ← require (get_holder_balance from_type from_id store) not_found
  guard (not (ltb_ℤ source_balance (pos amount))) bad_request
  destination ← require (get_holder_balance to_type to_id store) not_found
  guard (is_none (get transfer_id store.transfers)) server_error
  ok (record store {
    transfers =
        set transfer_id
          (record {
            from_type = from_type;
            from_id = from_id;
            to_type = to_type;
            to_id = to_id;
            amount = amount;
            status = CashTransferStatus.pending_approval;
          })
          store.transfers;
  })

-- `applyDelta`; `none` is the exception of a missing row.
unfoldable pub apply_delta : CashHolderType → ℕ → ℤ → CashStore → Option CashStore
apply_delta CashHolderType.vault_holder id delta store = elim (get id store.vaults) [
  | none ↦ none
  | some vault ↦ some (record store {
    vaults = set id (record vault { balance = vault.balance +ℤ delta }) store.vaults;
  })
]
apply_delta CashHolderType.teller_holder id delta store = elim (get id store.tellers) [
  | none ↦ none
  | some teller ↦ some (record store {
    tellers =
        set id (record teller { current_holding = teller.current_holding +ℤ delta }) store.tellers;
  })
]

abbrev pub with_status : ℕ → CashTransfer → CashTransferStatus → CashStore → CashStore
with_status transfer_id transfer status store = record store {
  transfers = set transfer_id (record transfer { status = status }) store.transfers;
}

-- The two entries of a completed transfer.
abbrev pub add_entry : CashHolderType → ℕ → CashLedgerEntryType → ℕ → ℤ → CashStore → CashStore
add_entry holder_type holder_id type amount balance_after store = record store {
  entries =
      store.entries
      ++ (record {
        holder_type = holder_type;
        holder_id = holder_id;
        type = type;
        amount = amount;
        balance_after = balance_after;
      })
        ∷ [];
}

-- The part of the case after the balance was found to be enough.
unfoldable pub complete_transfer : ℕ → CashTransfer → CashStore → Result CashStore
complete_transfer transfer_id transfer store = do
  taken ←
      require (apply_delta transfer.from_type transfer.from_id (pos 0 -ℤ pos transfer.amount) store)
        server_error
  source ← require (get_holder_balance transfer.from_type transfer.from_id taken) server_error
  given ←
      require (apply_delta transfer.to_type transfer.to_id (pos transfer.amount) taken) server_error
  destination ← require (get_holder_balance transfer.to_type transfer.to_id given) server_error
  ok (
      with_status transfer_id transfer CashTransferStatus.completed (
        add_entry transfer.to_type transfer.to_id CashLedgerEntryType.transfer_in transfer.amount
          destination
          (add_entry transfer.from_type transfer.from_id CashLedgerEntryType.transfer_out
            transfer.amount source given)))

-- The case of `applyApproval`: a source that no longer has the amount turns the request down.
unfoldable pub apply_transfer : ℕ → CashStore → Result CashStore
apply_transfer transfer_id store = do
  transfer ← require (get transfer_id store.transfers) server_error
  balance ← require (get_holder_balance transfer.from_type transfer.from_id store) server_error
  (if ltb_ℤ balance (pos transfer.amount)
      then ok (with_status transfer_id transfer CashTransferStatus.rejected store)
      else complete_transfer transfer_id transfer store)

-- The case of `/reject`.
unfoldable pub reject_transfer : ℕ → CashStore → Result CashStore
reject_transfer transfer_id store = do
  transfer ← require (get transfer_id store.transfers) server_error
  ok (with_status transfer_id transfer CashTransferStatus.rejected store)
