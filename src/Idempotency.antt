-- ===== src/Idempotency.antt =====
-- The idempotency keys, api/src/middleware/idempotency.ts. A key here is the whole unique key of the
-- row: institution, user, endpoint and header. The handler behind the middleware and the SHA-256 of
-- the body are the parameters of the section.
mod Tests
pub mod Once
pub mod Replay
use nexus_efos.Common.{
  ℕ, Bool, true, false, Option, none, some, List, [], ◌∷◌, ◌++◌, ◌==◌, if◌then◌else◌,
}
use nexus_efos.Common.Table.{Table, get, set}

pub record Response : Type 0 where
  pub status : ℕ
  pub body : ℕ

pub record IdempotencyKey : Type 0 where
  pub request_hash : ℕ
  pub response : Option Response

-- `Idempotency-Key`, if it was sent, and the body.
pub record Request : Type 0 where
  pub key : Option ℕ
  pub body : ℕ

-- What the middleware does with a request: it passes it to the handler, or answers.
pub data Decision : Type 0 where
  pass : Decision
  claimed : ℕ → Decision
  answered : Response → Decision

abbrev pub conflict_response : Response
conflict_response = record { status = 409; body = 0 }

-- A key that exists already.
abbrev pub replay : ℕ → IdempotencyKey → Decision
replay hash existing =
    if existing.request_hash == hash
    then elim existing.response [
      | none ↦ Decision.answered conflict_response
      | some response ↦ Decision.answered response
    ]
    else Decision.answered conflict_response

-- The claim: whether the row could be created.
abbrev pub on_row : ℕ → ℕ → Option IdempotencyKey → Decision
on_row hash key none = Decision.claimed key
on_row hash key (some existing) = replay hash existing

-- A request without a key is passed on.
abbrev pub by_key : ℕ → Option ℕ → Table IdempotencyKey → Decision
by_key hash none keys = Decision.pass
by_key hash (some key) keys = on_row hash key (get key keys)

module _ (hash : ℕ → ℕ) where
  unfoldable pub decide : Request → Table IdempotencyKey → Decision
  decide request keys = by_key (hash request.body) request.key keys

  -- `idempotencyKey.create`: the row that the claim inserts.
  abbrev pub claim : ℕ → ℕ → Table IdempotencyKey → Table IdempotencyKey
  claim key body keys = set key (record { request_hash = hash body; response = none }) keys

-- `res.json` of the claimed request stores the response.
abbrev pub with_response :
    ℕ → Response → Option IdempotencyKey → Table IdempotencyKey → Table IdempotencyKey
with_response key response none keys = keys
with_response key response (some row) keys = set key (record row { response = some response }) keys

abbrev pub store_response : ℕ → Response → Table IdempotencyKey → Table IdempotencyKey
store_response key response keys = with_response key response (get key keys) keys

-- The database with the keys and the rest.
pub record World (S : Type 0) : Type 0 where
  pub keys : Table IdempotencyKey
  pub data_of : S

module _ {S : Type 0} (hash : ℕ → ℕ) (handler : ℕ → S → S × Response) where
  -- A request that is served without interruption by another under its key. `res.json` does not await
  -- the update that stores the response and only logs its failure: `stored` is whether it succeeds.
  abbrev pub after_decision : Bool → Decision → Request → World S → World S × Response
  after_decision stored Decision.pass request w =
      let done = handler request.body w.data_of in (record w { data_of = done.0 }, done.1)
  after_decision stored (Decision.claimed key) request w =
      let done = handler request.body w.data_of in
      let keys = claim hash key request.body w.keys in
      (
        record { keys = if stored then store_response key done.1 keys else keys; data_of = done.0 },
        done.1,
      )
  after_decision stored (Decision.answered response) request w = (w, response)

  unfoldable pub serve : Bool → Request → World S → World S × Response
  serve stored request w = after_decision stored (decide hash request w.keys) request w
