-- ===== src/Vault/Subledger/Transfers.antt =====
-- Transfers between holders against the ledger.
use nexus_efos.Common.{
  ℕ, ◌≡◌, refl, ◌∙◌, false, not, ◌&&◌, some, ltb, ◌==◌, arith, Bool-cases, inl, inr,
}
use nexus_efos.Common.Int.{ℤ, pos, ◌+ℤ◌, ◌-ℤ◌, ◌≤ℤ◌, ltb_ℤ, int_laws, parts_of_eq}
use nexus_efos.Common.Table.{get}
use nexus_efos.Common.Result.{ok, guard-eq-ok, require-eq-ok, ok-injective, server_error}
use nexus_efos.Vault.{
  CashStore, CashHolderType, CashTransfer, CashTransferStatus, same_holder_type, is_none,
}
use nexus_efos.Vault.Transfers.{
  get_holder_balance, apply_delta, request_transfer, complete_transfer, apply_transfer,
  reject_transfer, with_status,
}
use nexus_efos.Vault.Subledger.{
  cash_total, IsMapped, IsNonnegative, SameLedger, Keeps, unposted-Keeps,
}
use nexus_efos.Vault.Subledger.Movements.{apply_delta-IsShift, apply_gain-IsShift}

SameLedger-trans : (s s' s'' : CashStore) → SameLedger s s' → SameLedger s' s'' → SameLedger s s''
SameLedger-trans s s' s'' h k = record {
  same_books = k.same_books ∙ h.same_books;
  same_cash = k.same_cash ∙ h.same_cash;
  same_bank = k.same_bank ∙ h.same_bank;
}

back_and_forth : (a b c d : ℤ) → b ≡ a +ℤ (pos 0 -ℤ d) → c ≡ b +ℤ d → c ≡ a
back_and_forth a b c d h k = omega (int_laws, parts_of_eq _ _ h, parts_of_eq _ _ k)

not_below : (b : ℤ) (n : ℕ) → ltb_ℤ b (pos n) ≡ false → pos 0 ≤ℤ b +ℤ (pos 0 -ℤ pos n)
not_below b n h = let covered : pos n ≤ℤ b = ground arith in omega int_laws

-- The source had the amount: the destination gets what the source gives.
complete_transfer-Keeps :
    (transfer_id cash bank : ℕ) (transfer : CashTransfer) (b : ℤ) (store store' : CashStore)
    → get_holder_balance transfer.from_type transfer.from_id store ≡ some b
    → ltb_ℤ b (pos transfer.amount) ≡ false
    → complete_transfer transfer_id transfer store ≡ ok store'
    → IsMapped cash bank store
    → IsNonnegative store
    → Keeps cash bank store store'
unfolding complete_transfer
complete_transfer-Keeps transfer_id cash bank transfer b store store' found enough h mapped n =
    let (taken, away, h1) =
      require-eq-ok
        (apply_delta transfer.from_type transfer.from_id (pos 0 -ℤ pos transfer.amount) store)
        server_error _ h in
    let first =
      apply_delta-IsShift transfer.from_type transfer.from_id _ b store taken found
        (not_below b transfer.amount enough) n away in
    let (source, left, h2) =
      require-eq-ok (get_holder_balance transfer.from_type transfer.from_id taken) server_error _
        h1 in
    let (given, there, h3) =
      require-eq-ok (apply_delta transfer.to_type transfer.to_id (pos transfer.amount) taken)
        server_error _ h2 in
    let (destination, right, last) =
      require-eq-ok (get_holder_balance transfer.to_type transfer.to_id given) server_error _ h3 in
    let second =
      apply_gain-IsShift transfer.to_type transfer.to_id transfer.amount taken given
        first.nonnegative there in
    let same = SameLedger-trans store taken given first.ledger second.ledger in
    rw (← ok-injective last) (
      unposted-Keeps cash bank store _ mapped
        (record {
          same_books = same.same_books;
          same_cash = same.same_cash;
          same_bank = same.same_bank;
        })
        (back_and_forth (cash_total store) (cash_total taken) (cash_total given)
          (pos transfer.amount) first.total second.total)
        second.nonnegative)

-- A status alone moves nothing.
status-Keeps :
    (transfer_id cash bank : ℕ) (transfer : CashTransfer) (status : CashTransferStatus)
    (store : CashStore)
    → IsMapped cash bank store
    → IsNonnegative store
    → Keeps cash bank store (with_status transfer_id transfer status store)
status-Keeps transfer_id cash bank transfer status store mapped n =
    unposted-Keeps cash bank store _ mapped
      (record { same_books = refl; same_cash = refl; same_bank = refl }) refl n

pub apply_transfer-Keeps :
    (transfer_id cash bank : ℕ) (store store' : CashStore)
    → apply_transfer transfer_id store ≡ ok store'
    → IsMapped cash bank store
    → IsNonnegative store
    → Keeps cash bank store store'
unfolding apply_transfer
apply_transfer-Keeps transfer_id cash bank store store' h mapped n =
    let (transfer, known, h1) = require-eq-ok (get transfer_id store.transfers) server_error _ h in
    let (b, found, h2) =
      require-eq-ok (get_holder_balance transfer.from_type transfer.from_id store) server_error _
        h1 in
    elim (Bool-cases (ltb_ℤ b (pos transfer.amount))) [
      | inl short ↦
          let last = rw short at h2 in
          rw (← ok-injective last)
            (status-Keeps transfer_id cash bank transfer CashTransferStatus.rejected store mapped n)
      | inr enough ↦
          complete_transfer-Keeps transfer_id cash bank transfer b store store' found enough
            (rw enough at h2) mapped n
    ]

pub reject_transfer-Keeps :
    (transfer_id cash bank : ℕ) (store store' : CashStore)
    → reject_transfer transfer_id store ≡ ok store'
    → IsMapped cash bank store
    → IsNonnegative store
    → Keeps cash bank store store'
unfolding reject_transfer
reject_transfer-Keeps transfer_id cash bank store store' h mapped n =
    let (transfer, known, last) =
      require-eq-ok (get transfer_id store.transfers) server_error _ h in
    rw (← ok-injective last)
      (status-Keeps transfer_id cash bank transfer CashTransferStatus.rejected store mapped n)

pub request_transfer-Keeps :
    (transfer_id cash bank : ℕ) (from to : CashHolderType × ℕ) (amount : ℕ)
    (store store' : CashStore)
    → request_transfer transfer_id from to amount store ≡ ok store'
    → IsMapped cash bank store
    → IsNonnegative store
    → Keeps cash bank store store'
unfolding request_transfer
request_transfer-Keeps transfer_id cash bank (from_type, from_id) (to_type, to_id) amount store
      store' h mapped n =
    let (_, h1) = guard-eq-ok (ltb 0 amount) _ _ h in
    let (_, h2) =
      guard-eq-ok (not (same_holder_type from_type to_type && from_id == to_id)) _ _ h1 in
    let (b, _, h3) = require-eq-ok (get_holder_balance from_type from_id store) _ _ h2 in
    let (_, h4) = guard-eq-ok (not (ltb_ℤ b (pos amount))) _ _ h3 in
    let (_, _, h5) = require-eq-ok (get_holder_balance to_type to_id store) _ _ h4 in
    let (_, last) = guard-eq-ok (is_none (get transfer_id store.transfers)) _ _ h5 in
    rw (← ok-injective last) (
      unposted-Keeps cash bank store _ mapped
        (record { same_books = refl; same_cash = refl; same_bank = refl }) refl n)
