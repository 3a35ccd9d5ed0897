-- ===== src/Vault/Balancing.antt =====
-- Balancing a vault or a teller: `/balancings` of api/src/routes/cashVault.routes.ts and the case
-- CASH_BALANCING_VARIANCE of api/src/routes/approvals.routes.ts.
use nexus_efos.Common.{ℕ, Bool, not, ◌&&◌, ◌||◌, any, ltb, ◌==◌, if◌then◌else◌}
use nexus_efos.Common.Int.{pos, ◌-ℤ◌, abs}
use nexus_efos.Common.Rounding.{round2_ℤ}
use nexus_efos.Common.Table.{get, set}
use nexus_efos.Common.Result.{
  Result, ok, guard, require, ◌>>=◌, ◌>>◌, bad_request, not_found, server_error,
}
use nexus_efos.Vault.{
  CashStore, CashHolderType, same_holder_type, CashBalancing, CashBalancingStatus, is_none,
}
use nexus_efos.Vault.Transfers.{get_holder_balance}

abbrev pub is_balancing_of : CashHolderType → ℕ → ℕ → ℕ × CashBalancing → Bool
is_balancing_of holder_type holder_id date b =
    same_holder_type b.1.holder_type holder_type
    && (b.1.holder_id == holder_id && b.1.balancing_date == date)

-- `/balancings`; the flag says whether investigation notes were given.
unfoldable pub record_balancing :
    ℕ → CashHolderType → ℕ → ℕ → ℕ → Bool → CashStore → Result CashStore
record_balancing id holder_type holder_id date counted_amount has_notes store = do
  expected_amount ← require (get_holder_balance holder_type holder_id store) not_found
  guard (not (any (is_balancing_of holder_type holder_id date) store.balancings)) bad_request
  let variance = round2_ℤ (pos counted_amount -ℤ expected_amount) 1
  guard (ltb (abs variance) 1 || has_notes) bad_request
  guard (is_none (get id store.balancings)) server_error
  ok (record store {
    balancings =
        set id
          (record {
            holder_type = holder_type;
            holder_id = holder_id;
            balancing_date = date;
            expected_amount = expected_amount;
            counted_amount = counted_amount;
            variance = variance;
            status =
                if ltb (abs variance) 1
                then CashBalancingStatus.reconciled
                else CashBalancingStatus.variance_pending_approval;
          })
          store.balancings;
  })

-- The case of `applyApproval`.
unfoldable pub approve_variance : ℕ → CashStore → Result CashStore
approve_variance id store = do
  balancing ← require (get id store.balancings) server_error
  ok (record store {
    balancings =
        set id (record balancing { status = CashBalancingStatus.reconciled }) store.balancings;
  })
