-- ===== src/Approval/Tests.antt =====
-- Two officers decide on one request at the same time.
use nexus_efos.Common.{ℕ, ◌≡◌, ◌≢◌, refl, true, none, some, List, [], ◌∷◌, count}
use nexus_efos.Common.Result.{err, bad_request, forbidden}
use nexus_efos.Approval.{ApprovalRequest, ApprovalStatus, Store, Decision, precheck, claim, commit}
use nexus_efos.Approval.Race.{Call, Works, Reach, begin, finish, fail, here, next}
use nexus_efos.Approval.Race.Once.{resolved_once}

abbrev request : ApprovalRequest ℕ
request = record {
  type = 0;
  target_id = 5;
  requested_by = 1;
  status = ApprovalStatus.pending;
  resolved_by = none;
}

abbrev waiting : Store ℕ (List ℕ)
waiting = record { requests = (3, request) ∷ []; rows = [] }

abbrev resolved : Store ℕ (List ℕ)
resolved = record {
  requests = (3, record request { status = ApprovalStatus.approved; resolved_by = some 2 }) ∷ [];
  rows = 3 ∷ [];
}

abbrev works : Works ℕ
works _ _ _ _ _ = true

abbrev call : Decision → ℕ → Call ℕ
call decision user = record { decision = decision; id = 3; user = user; existing = request }

abbrev approval : Call ℕ
approval = call Decision.approve 2

abbrev rejection : Call ℕ
rejection = call Decision.reject 4

-- Both pass their checks, one approves, and the other one comes too late.
reached :
    Reach works (record { store = waiting; calls = [] }) (record { store = resolved; calls = [] })
unfolding precheck commit claim
reached =
    next
      (next
        (next (next here (begin Decision.approve 3 2 request refl))
          (begin Decision.reject 3 4 request refl))
        (finish approval (rejection ∷ []) [] resolved refl refl))
      (fail rejection [] [] bad_request refl refl)

-- The requester may not decide.
own_request : precheck 3 1 waiting ≡ err forbidden
unfolding precheck
own_request = refl

resolved_once_example : (count 3 resolved.rows ≡ 1) × ((u : ℕ) → some 2 ≡ some u → 1 ≢ u)
resolved_once_example =
    resolved_once works (record { store = waiting; calls = [] })
      (record { store = resolved; calls = [] })
      (record { all_pending = ((refl, refl), tt); no_calls = refl; no_effects = refl }) reached 3
      (record request { status = ApprovalStatus.approved; resolved_by = some 2 }) refl
