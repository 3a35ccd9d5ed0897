-- ===== src/Approval/Race/Once.antt =====
-- The invariant of racing handlers.
use nexus_efos.Common.{
  ℕ, ◌≡◌, ◌≢◌, refl, sym, ap, ◌∙◌, subst, true, none, some, List, [], ◌∷◌, ◌++◌, arith, ◌==◌,
  if◌then◌else◌, Bool-cases, inl, inr, All, All-append, All-append_inv, All-map, count,
}
use nexus_efos.Common.Table.{Table, get}
use nexus_efos.Common.Result.{ok}
use nexus_efos.Approval.{ApprovalRequest, Store, is_pending, commit}
use nexus_efos.Approval.Race.{
  Call, System, Works, logged, Step, Reach, IsStart, begin, finish, fail, here, next,
}
use nexus_efos.Approval.Race.Claims.{
  effects_due, ResolverDiffers, IsAuthorised, precheck_inv, commit_inv, counted-claim,
  separated-claim, IsAuthorised-claim, requester_lem, claim-differs,
}

record Inv {T : Type 0} (s : System T) : Type 0 where
  counted : (id : ℕ) → count id s.store.rows ≡ effects_due (get id s.store.requests)
  separated : (id : ℕ) → ResolverDiffers (get id s.store.requests)
  authorised : All (IsAuthorised s.store.requests) s.calls

finish-Inv :
    {T : Type 0} (works : Works T) (s : System T) (c : Call T) (before after : List (Call T))
    (store : Store T (List ℕ))
    → s.calls ≡ before ++ (c ∷ after)
    → commit (logged works) c.decision c.id c.user c.existing s.store ≡ ok store
    → Inv s
    → Inv (record { store = store; calls = before ++ after })
finish-Inv works s c before after store split done inv =
    let (r, found, open_claim, requests, rows) =
      commit_inv works c.decision c.id c.user c.existing s.store store done in
    let calls : All (IsAuthorised s.store.requests) (before ++ (c ∷ after)) =
      rw split at inv.authorised in
    let (early, rest) = All-append_inv (IsAuthorised s.store.requests) before (c ∷ after) calls in
    let (mine, late) = rest in
    let keep = All-map (IsAuthorised s.store.requests) (IsAuthorised store.requests) _ (λ x a.
      rw requests (IsAuthorised-claim c.decision c.id c.user r s.store.requests found x a)) in
    record {
      counted =
          rw (requests, rows)
            (counted-claim c.decision c.id c.user r s.store.requests s.store.rows found open_claim
              inv.counted);
      separated = rw requests (
          separated-claim c.decision c.id c.user r s.store.requests s.store.rows found open_claim
            (claim-differs s.store.requests c r found mine) inv.separated);
      authorised = keep (All-append (IsAuthorised s.store.requests) before after early late);
    }

Step-Inv : {T : Type 0} (works : Works T) {s t : System T} → Step works s t → Inv s → Inv t
Step-Inv works {s = s} (begin decision id user existing h) inv =
    let (found, differs) = precheck_inv id user s.store existing h in
    record {
      counted = inv.counted;
      separated = inv.separated;
      authorised = ((requester_lem id s.store.requests existing found, differs), inv.authorised);
    }
Step-Inv works (finish c before after store split done) inv =
    finish-Inv works _ c before after store split done inv
Step-Inv works {s = s} (fail c before after e split done) inv = record {
  counted = inv.counted;
  separated = inv.separated;
  authorised = dropped;
}
  where
    dropped : All (IsAuthorised s.store.requests) (before ++ after)
    dropped =
        let calls : All (IsAuthorised s.store.requests) (before ++ (c ∷ after)) =
          rw split at inv.authorised in
        let (early, rest) =
          All-append_inv (IsAuthorised s.store.requests) before (c ∷ after) calls in
        All-append (IsAuthorised s.store.requests) before after early rest.1

start-effects :
    {T : Type 0} (requests : Table (ApprovalRequest T)) (id : ℕ)
    → All (λ e. (is_pending e.1.status ≡ true) × (e.1.resolved_by ≡ none)) requests
    → effects_due (get id requests) ≡ 0
start-effects [] id h = refl
start-effects ((k, r) ∷ requests) id (p, h) = ground (arith, start-effects requests id h)

start-separated :
    {T : Type 0} (requests : Table (ApprovalRequest T)) (id : ℕ)
    → All (λ e. (is_pending e.1.status ≡ true) × (e.1.resolved_by ≡ none)) requests
    → ResolverDiffers (get id requests)
start-separated [] id h = tt
start-separated ((k, r) ∷ requests) id (p, h) = elim (Bool-cases (id == k)) [
  | inl e ↦ rw e (λ u some_u. cc)
  | inr e ↦ rw e (start-separated requests id h)
]

start-Inv : {T : Type 0} (s : System T) → IsStart s → Inv s
start-Inv s h = record {
  counted = λ id. rw h.no_effects (sym (start-effects s.store.requests id h.all_pending));
  separated = λ id. start-separated s.store.requests id h.all_pending;
  authorised = rw h.no_calls tt;
}

Reach-Inv : {T : Type 0} (works : Works T) {s t : System T} → Reach works s t → Inv s → Inv t
Reach-Inv works here inv = inv
Reach-Inv works (next r st) inv = Step-Inv works st (Reach-Inv works r inv)

-- However many approvals and rejections of whatever requests are interleaved, the effect of each
-- request takes place once if the request is resolved and never if it is pending, and whoever
-- resolved it is not the user who submitted it.
pub resolved_once :
    {T : Type 0} (works : Works T) (s t : System T)
    → IsStart s
    → Reach works s t
    → (id : ℕ) (r : ApprovalRequest T) → get id t.store.requests ≡ some r
    → (count id t.store.rows ≡ (if is_pending r.status then 0 else 1))
      × ((u : ℕ) → r.resolved_by ≡ some u → r.requested_by ≢ u)
resolved_once works s t start reached id r found =
    let inv = Reach-Inv works reached (start-Inv s start) in
    (inv.counted id ∙ ap effects_due found, subst ResolverDiffers found (inv.separated id))
