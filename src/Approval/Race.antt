-- ===== src/Approval/Race.antt =====
-- Racing calls of `/approve` and `/reject`: any number of handlers may have passed their checks
-- before one of them runs its transaction. The rows are a log of the business effects.
pub mod Claims
pub mod Once
use nexus_efos.Common.{
  ℕ, ◌≡◌, Bool, true, Option, none, some, List, [], ◌∷◌, ◌++◌, if◌then◌else◌, All,
}
use nexus_efos.Common.Result.{ok, err, Error}
use nexus_efos.Approval.{ApprovalRequest, Store, Decision, is_pending, precheck, commit}

-- A handler between its checks and its transaction.
pub record Call (T : Type 0) : Type 0 where
  pub decision : Decision
  pub id : ℕ
  pub user : ℕ
  pub existing : ApprovalRequest T

pub record System (T : Type 0) : Type 0 where
  pub store : Store T (List ℕ)
  pub calls : List (Call T)

-- An effect that is recorded when it takes place; `works` says whether it raises an exception.
abbrev pub Works : Type 0 → Type 0
Works T = Decision → ℕ → ApprovalRequest T → ℕ → List ℕ → Bool

abbrev pub logged :
    {T : Type 0} → Works T → Decision → ℕ → ApprovalRequest T → ℕ → List ℕ → Option (List ℕ)
logged works decision id r user log = if works decision id r user log then some (id ∷ log) else none

module _ {T : Type 0} (works : Works T) where
  pub data Step (s : System T) : System T → Type 0 where
    begin :
        (decision : Decision) (id user : ℕ) (existing : ApprovalRequest T)
        → precheck id user s.store ≡ ok existing
        → Step s (record s {
          calls =
              (record { decision = decision; id = id; user = user; existing = existing }) ∷ s.calls;
        })
    finish :
        (c : Call T) (before after : List (Call T)) (store : Store T (List ℕ))
        → s.calls ≡ before ++ (c ∷ after)
        → commit (logged works) c.decision c.id c.user c.existing s.store ≡ ok store
        → Step s (record { store = store; calls = before ++ after })
    fail :
        (c : Call T) (before after : List (Call T)) (e : Error)
        → s.calls ≡ before ++ (c ∷ after)
        → commit (logged works) c.decision c.id c.user c.existing s.store ≡ err e
        → Step s (record s { calls = before ++ after })

  pub data Reach (s : System T) : System T → Type 0 where
    here : Reach s s
    next : {t u : System T} → Reach s t → Step t u → Reach s u

-- The start: every request is pending, no handler runs, and nothing has taken effect.
pub record IsStart {T : Type 0} (s : System T) : Type 0 where
  pub all_pending :
      All (λ e. (is_pending e.1.status ≡ true) × (e.1.resolved_by ≡ none)) s.store.requests
  pub no_calls : s.calls ≡ []
  pub no_effects : s.store.rows ≡ []
