-- ===== src/Vault/Subledger/Run.antt =====
-- Any sequence of operations.
use nexus_efos.Common.{ℕ, ◌≡◌, refl, ◌∙◌, List, [], ◌∷◌}
use nexus_efos.Common.Result.{ok, settle, settle-keeps}
use nexus_efos.Vault.{CashStore, TellerStatus, suspend, reinstate}
use nexus_efos.Vault.Subledger.{Op, perform, run, gap, IsMapped, IsNonnegative, Keeps}
use nexus_efos.Vault.Subledger.Transfers.{
  request_transfer-Keeps, apply_transfer-Keeps, reject_transfer-Keeps,
}
use nexus_efos.Vault.Subledger.Postings.{cash_entry-Keeps}
use nexus_efos.Vault.Subledger.Rows.{
  create_vault-Keeps, register_teller-Keeps, open_the_vault-Keeps, close_the_vault-Keeps,
  set_cash_limit-Keeps, set_teller_status-Keeps, record_balancing-Keeps, approve_variance-Keeps,
}

perform-Keeps :
    (today cash bank : ℕ) (op : Op) (store store' : CashStore)
    → IsMapped cash bank store
    → IsNonnegative store
    → perform today op store ≡ ok store'
    → Keeps cash bank store store'
unfolding suspend reinstate
perform-Keeps today cash bank (Op.create_op id) s s' m n h =
    create_vault-Keeps cash bank s m n id s' h
perform-Keeps today cash bank (Op.open_op id) s s' m n h =
    open_the_vault-Keeps cash bank s m n id s' h
perform-Keeps today cash bank (Op.close_op id) s s' m n h =
    close_the_vault-Keeps cash bank s m n id today s' h
perform-Keeps today cash bank (Op.suspend_op id) s s' m n h =
    set_teller_status-Keeps cash bank s m n TellerStatus.suspended id s' h
perform-Keeps today cash bank (Op.reinstate_op id) s s' m n h =
    set_teller_status-Keeps cash bank s m n TellerStatus.active id s' h
perform-Keeps today cash bank (Op.register_op id e l) s s' m n h =
    register_teller-Keeps cash bank s m n id e l s' h
perform-Keeps today cash bank (Op.limit_op id l) s s' m n h =
    set_cash_limit-Keeps cash bank s m n id l s' h
perform-Keeps today cash bank (Op.entry_op type id a) s s' m n h =
    cash_entry-Keeps type id a today cash bank s s' h m n
perform-Keeps today cash bank (Op.request_op id f t a) s s' m n h =
    request_transfer-Keeps id cash bank f t a s s' h m n
perform-Keeps today cash bank (Op.approve_transfer_op id) s s' m n h =
    apply_transfer-Keeps id cash bank s s' h m n
perform-Keeps today cash bank (Op.reject_transfer_op id) s s' m n h =
    reject_transfer-Keeps id cash bank s s' h m n
perform-Keeps today cash bank (Op.balancing_op id t holder c notes) s s' m n h =
    record_balancing-Keeps cash bank s m n id t holder today c notes s' h
perform-Keeps today cash bank (Op.approve_variance_op id) s s' m n h =
    approve_variance-Keeps cash bank s m n id s' h

-- With "Vault Cash" mapped to an asset and "Bank Account (External)" to another account, and no
-- balance negative, any sequence of the operations on vaults, tellers, entries, transfers and
-- balancings, refused ones included, leaves no vault or teller with a negative balance and keeps
-- the difference between the ledger's account and the cash that is held.
pub cash_follows_ledger :
    (cash bank : ℕ) (ops : List (ℕ × Op)) (store : CashStore)
    → IsMapped cash bank store
    → IsNonnegative store
    → (gap cash (run ops store) ≡ gap cash store) × IsNonnegative (run ops store)
cash_follows_ledger cash bank [] store m n = (refl, n)
cash_follows_ledger cash bank ((today, op) ∷ ops) store m n =
    let k =
      settle-keeps (Keeps cash bank store) store (perform today op store)
        (record { mapped = m; nonnegative = n; same_gap = refl })
        (λ s' h. perform-Keeps today cash bank op store s' m n h) in
    let (rest, last) =
      cash_follows_ledger cash bank ops (settle store (perform today op store)) k.mapped
        k.nonnegative in
    (rest ∙ k.same_gap, last)
