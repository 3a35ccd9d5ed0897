-- ===== src/Loan/Securities.antt =====
-- Guarantors and collateral of a loan, of api/src/routes/loan.routes.ts.
mod Tests
pub mod Limits
use nexus_efos.Common.{
  ℕ, ◌+◌, Bool, true, false, not, ◌&&◌, Option, none, some, List, [], ◌∷◌, ltb, ◌==◌, if◌then◌else◌,
}
use nexus_efos.Common.Table.{Table, get, set}
use nexus_efos.Common.Result.{
  Result, ok, settle, guard, require, ◌>>=◌, ◌>>◌, bad_request, not_found, server_error,
}
use nexus_efos.Loan.Repayment.{LoanStatus}
use nexus_efos.Loan.Lifecycle.{Loan}

pub data GuarantorStatus : Type 0 where
  pending approved released : GuarantorStatus

pub record Guarantor : Type 0 where
  pub loan_id : ℕ
  pub guarantee_limit : ℕ
  pub status : GuarantorStatus

pub data CollateralStatus : Type 0 where
  pledged released realised : CollateralStatus

pub record Collateral : Type 0 where
  pub loan_id : ℕ
  pub estimated_value : ℕ
  pub status : CollateralStatus
  pub realised_amount : Option ℕ

pub record Securities : Type 0 where
  pub loans : Table Loan
  pub guarantors : Table Guarantor
  pub collaterals : Table Collateral

abbrev pub is_released : GuarantorStatus → Bool
is_released GuarantorStatus.released = true
is_released _ = false

abbrev pub is_pending : GuarantorStatus → Bool
is_pending GuarantorStatus.pending = true
is_pending _ = false

abbrev pub is_absent {ℓ} : {A : Type ℓ} → Option A → Bool
is_absent none = true
is_absent (some a) = false

-- What a guarantor counts for the limit.
abbrev pub pledged_by : ℕ → Guarantor → ℕ
pledged_by loan_id g =
    if g.loan_id == loan_id && not (is_released g.status) then g.guarantee_limit else 0

abbrev pub total_pledged : ℕ → Table Guarantor → ℕ
total_pledged loan_id [] = 0
total_pledged loan_id ((id, g) ∷ guarantors) =
    pledged_by loan_id g + total_pledged loan_id guarantors

-- `/:id/guarantors`
unfoldable pub register_guarantor : ℕ → ℕ → ℕ → Securities → Result Securities
register_guarantor id loan_id limit s = do
  guard (ltb 0 limit) bad_request
  loan ← require (get loan_id s.loans) not_found
  guard (not (ltb loan.principal (total_pledged loan_id s.guarantors + limit))) bad_request
  guard (is_absent (get id s.guarantors)) server_error
  ok (record s {
    guarantors =
        set id
          (record { loan_id = loan_id; guarantee_limit = limit; status = GuarantorStatus.pending })
          s.guarantors;
  })

-- `/guarantors/:guarantorId/approve`
unfoldable pub approve_guarantor : ℕ → Securities → Result Securities
approve_guarantor id s = do
  g ← require (get id s.guarantors) not_found
  guard (is_pending g.status) bad_request
  ok (record s {
    guarantors = set id (record g { status = GuarantorStatus.approved }) s.guarantors;
  })

-- `/guarantors/:guarantorId/release`
unfoldable pub release_guarantor : ℕ → Securities → Result Securities
release_guarantor id s = do
  g ← require (get id s.guarantors) not_found
  guard (not (is_released g.status)) bad_request
  ok (record s {
    guarantors = set id (record g { status = GuarantorStatus.released }) s.guarantors;
  })

abbrev pub is_granted : LoanStatus → Bool
is_granted LoanStatus.approved = true
is_granted LoanStatus.disbursed = true
is_granted LoanStatus.active = true
is_granted _ = false

abbrev pub is_pledged : CollateralStatus → Bool
is_pledged CollateralStatus.pledged = true
is_pledged _ = false

-- `/:id/collateral`
unfoldable pub register_collateral : ℕ → ℕ → ℕ → Securities → Result Securities
register_collateral id loan_id value s = do
  guard (ltb 0 value) bad_request
  loan ← require (get loan_id s.loans) not_found
  guard (is_granted loan.status) bad_request
  guard (is_absent (get id s.collaterals)) server_error
  ok (record s {
    collaterals =
        set id
          (record {
            loan_id = loan_id;
            estimated_value = value;
            status = CollateralStatus.pledged;
            realised_amount = none;
          })
          s.collaterals;
  })

-- `/collateral/:collateralId/revalue`
unfoldable pub revalue : ℕ → ℕ → Securities → Result Securities
revalue id value s = do
  guard (ltb 0 value) bad_request
  c ← require (get id s.collaterals) not_found
  ok (record s { collaterals = set id (record c { estimated_value = value }) s.collaterals })

-- `/collateral/:collateralId/release`
unfoldable pub release_collateral : ℕ → Securities → Result Securities
release_collateral id s = do
  c ← require (get id s.collaterals) not_found
  guard (is_pledged c.status) bad_request
  ok (record s {
    collaterals = set id (record c { status = CollateralStatus.released }) s.collaterals;
  })

-- `/collateral/:collateralId/realise`; the amount 0 counts as missing.
unfoldable pub realise : ℕ → ℕ → Securities → Result Securities
realise id amount s = do
  guard (ltb 0 amount) bad_request
  c ← require (get id s.collaterals) not_found
  guard (is_pledged c.status) bad_request
  ok (record s {
    collaterals =
        set id (record c { status = CollateralStatus.realised; realised_amount = some amount })
          s.collaterals;
  })
