-- ===== src/Approval.antt =====
-- The approval workflow, api/src/routes/approvals.routes.ts: one handler pair behind every action
-- that needs a second person. The business effect of each request type is a parameter here; the
-- modules that use the workflow supply it.
mod Tests
pub mod Race
use nexus_efos.Common.{ℕ, Bool, true, false, not, Option, none, some, ◌==◌}
use nexus_efos.Common.Table.{Table, get, set}
use nexus_efos.Common.Result.{
  Result, ok, err, guard, require, ◌>>=◌, ◌>>◌, bad_request, forbidden, not_found, server_error,
}

pub data ApprovalStatus : Type 0 where
  pending approved rejected : ApprovalStatus

abbrev pub is_pending : ApprovalStatus → Bool
is_pending ApprovalStatus.pending = true
is_pending _ = false

pub record ApprovalRequest (T : Type 0) : Type 0 where
  pub type : T
  pub target_id : ℕ
  pub requested_by : ℕ
  pub status : ApprovalStatus
  pub resolved_by : Option ℕ

pub record Store (T : Type 0) (S : Type 0) : Type 0 where
  pub requests : Table (ApprovalRequest T)
  pub rows : S

pub data Decision : Type 0 where
  approve reject : Decision

abbrev pub outcome : Decision → ApprovalStatus
outcome Decision.approve = ApprovalStatus.approved
outcome Decision.reject = ApprovalStatus.rejected

-- What the handler reads and checks before its transaction.
unfoldable pub precheck : {T S : Type 0} → ℕ → ℕ → Store T S → Result (ApprovalRequest T)
precheck id user store = do
  existing ← require (get id store.requests) not_found
  guard (is_pending existing.status) bad_request
  guard (not (existing.requested_by == user)) forbidden
  ok existing

-- `updateMany({ where: { id, status: "PENDING" }, data: … })`: the claim, `none` for a count of 0.
unfoldable pub claim :
    {T : Type 0} → Decision → ℕ → ℕ → Table (ApprovalRequest T) → Option (Table (ApprovalRequest T))
claim decision id user requests = elim (get id requests) [
  | none ↦ none
  | some r ↦ elim (is_pending r.status) [
    | true ↦
        some (set id (record r { status = outcome decision; resolved_by = some user }) requests)
    | false ↦ none
  ]
]

-- `applyApproval` and the branches of `/reject`: `none` is an exception, which rolls back.
module _ {T S : Type 0} (apply : Decision → ℕ → ApprovalRequest T → ℕ → S → Option S) where
  -- The transaction, for the request as it was read before.
  unfoldable pub commit : Decision → ℕ → ℕ → ApprovalRequest T → Store T S → Result (Store T S)
  unfolding claim
  commit decision id user existing store = do
    requests ← require (claim decision id user store.requests) bad_request
    rows ← require (apply decision id existing user store.rows) server_error
    ok (record { requests = requests; rows = rows })

  -- `/approve` and `/reject`, run without interruption.
  unfoldable pub resolve : Decision → ℕ → ℕ → Store T S → Result (Store T S)
  unfolding commit precheck
  resolve decision id user store = do
    existing ← precheck id user store
    commit decision id user existing store
