-- ===== src/Approval/Race/Claims.antt =====
-- What a handler's checks and its committed transaction say of the requests and of the log.
use nexus_efos.Common.{
  ℕ, ◌≡◌, ◌≢◌, refl, sym, ap, ◌∙◌, true, false, not, Option, none, some, List, [], ◌∷◌, arith, ◌==◌,
  if◌then◌else◌, Bool-cases, Option-cases, inl, inr, count, ==_iff,
}
use mathlib.Core.Option.{some-injective}
use nexus_efos.Common.Table.{Table, get, set, get-set}
use nexus_efos.Common.Result.{ok, guard-eq-ok, require-eq-ok}
use nexus_efos.Approval.{ApprovalRequest, Store, Decision, is_pending, outcome, precheck, commit}
use nexus_efos.Approval.Race.{Call, Works, logged}

-- How often the effect of a request should have taken place.
abbrev pub effects_due : {T : Type 0} → Option (ApprovalRequest T) → ℕ
effects_due none = 0
effects_due (some r) = if is_pending r.status then 0 else 1

abbrev pub ResolverDiffers : {T : Type 0} → Option (ApprovalRequest T) → Type 0
ResolverDiffers none = Unit
ResolverDiffers (some r) = (u : ℕ) → r.resolved_by ≡ some u → r.requested_by ≢ u

abbrev pub requester : {T : Type 0} → ℕ → Table (ApprovalRequest T) → Option ℕ
requester id requests = elim (get id requests) [ none ↦ none | some r ↦ some r.requested_by ]

abbrev pub IsAuthorised : {T : Type 0} → Table (ApprovalRequest T) → Call T → Type 0
IsAuthorised requests c =
    (requester c.id requests ≡ some c.existing.requested_by) × (c.existing.requested_by ≢ c.user)

pub precheck_inv :
    {T : Type 0} (id user : ℕ) (store : Store T (List ℕ)) (existing : ApprovalRequest T)
    → precheck id user store ≡ ok existing
    → (get id store.requests ≡ some existing) × (existing.requested_by ≢ user)
unfolding precheck
precheck_inv id user store existing h =
    let (r, found, rest) = require-eq-ok (get id store.requests) _ _ h in
    let (_, rest') = guard-eq-ok (is_pending r.status) _ _ rest in
    let (differs, last) = guard-eq-ok (not (r.requested_by == user)) _ _ rest' in
    let same : r ≡ existing = cc in (found ∙ ap some same, rw (← same) (ground arith))

-- A transaction that committed claimed a pending request and recorded its effect.
pub commit_inv :
    {T : Type 0} (works : Works T) (d : Decision) (id user : ℕ) (existing : ApprovalRequest T)
    (store store' : Store T (List ℕ))
    → commit (logged works) d id user existing store ≡ ok store'
    → (r : ApprovalRequest T) × (get id store.requests ≡ some r)
      × (is_pending r.status ≡ true)
      × (store'.requests
          ≡ set id (record r { status = outcome d; resolved_by = some user }) store.requests)
      × (store'.rows ≡ id ∷ store.rows)
unfolding commit
commit_inv works d id user existing store store' h = elim (Option-cases (get id store.requests)) [
  | inl e ↦ ground arith
  | inr (r, e) ↦ (r, e, ground arith, ground arith, ground arith)
]

resolved_not_pending : (d : Decision) → is_pending (outcome d) ≡ false
resolved_not_pending Decision.approve = refl
resolved_not_pending Decision.reject = refl

requester-set :
    {T : Type 0} (j id : ℕ) (r r' : ApprovalRequest T) (requests : Table (ApprovalRequest T))
    → get id requests ≡ some r
    → r'.requested_by ≡ r.requested_by
    → requester j (set id r' requests) ≡ requester j requests
requester-set j id r r' [] e h = cc
requester-set j id r r' ((k, q) ∷ requests) e h = ground (arith, requester-set j id r r' requests)

-- What a commit does to the invariant, request by request.
module _ {T : Type 0} (d : Decision) (id user : ℕ) (r : ApprovalRequest T)
    (requests : Table (ApprovalRequest T)) (log : List ℕ) (found : get id requests ≡ some r)
    (open_claim : is_pending r.status ≡ true) where
  abbrev resolved : ApprovalRequest T
  resolved = record r { status = outcome d; resolved_by = some user }

  pub counted-claim :
      ((j : ℕ) → count j log ≡ effects_due (get j requests))
      → (j : ℕ) → count j (id ∷ log) ≡ effects_due (get j (set id resolved requests))
  counted-claim h j = elim (Bool-cases (j == id)) [
    | inl same ↦
        let due : count j log ≡ 0 = h j ∙ rw ((==_iff _ _).0 same, found) (rw open_claim refl) in
        rw (get-set, same) (rw (resolved_not_pending d, due) refl)
    | inr other ↦ rw (get-set, other) (omega (arith, h j))
  ]

  pub separated-claim :
      r.requested_by ≢ user
      → ((j : ℕ) → ResolverDiffers (get j requests))
      → (j : ℕ) → ResolverDiffers (get j (set id resolved requests))
  separated-claim differs h j = elim (Bool-cases (j == id)) [
    | inl same ↦ rw (get-set, same) (λ u e. rw (← some-injective _ _ e) differs)
    | inr other ↦ rw (get-set, other) (h j)
  ]

pub IsAuthorised-claim :
    {T : Type 0} (d : Decision) (id user : ℕ) (r : ApprovalRequest T)
    (requests : Table (ApprovalRequest T))
    → get id requests ≡ some r
    → (c : Call T) → IsAuthorised requests c
    → IsAuthorised (set id (record r { status = outcome d; resolved_by = some user }) requests) c
IsAuthorised-claim d id user r requests found c (same, differs) = (
  requester-set c.id id r (record r { status = outcome d; resolved_by = some user }) requests found
        refl
      ∙ same,
  differs,
)

pub requester_lem :
    {T : Type 0} (id : ℕ) (requests : Table (ApprovalRequest T)) (r : ApprovalRequest T)
    → get id requests ≡ some r
    → requester id requests ≡ some r.requested_by
requester_lem id requests r e = ground arith

-- The request that a call claims was made by the requester that the call had read.
pub claim-differs :
    {T : Type 0} (requests : Table (ApprovalRequest T)) (c : Call T) (r : ApprovalRequest T)
    → get c.id requests ≡ some r
    → IsAuthorised requests c
    → r.requested_by ≢ c.user
claim-differs requests c r found (same, differs) e =
    differs (some-injective _ _ (sym same ∙ requester_lem c.id requests r found) ∙ e)
