-- ===== src/Idempotency/Replay.antt =====
-- Sending a request again.
use nexus_efos.Common.{
  ℕ, ◌≡◌, refl, ap, ◌∙◌, Bool, true, false, Option, none, some, ◌&&◌, ◌==◌, if◌then◌else◌,
}
use nexus_efos.Common.Table.{Table, get, set, get-set_self}
use nexus_efos.Idempotency.{
  Response, Request, IdempotencyKey, Decision, World, conflict_response, with_response, on_row,
  decide, claim, store_response, after_decision, serve,
}

-- What a request with the hash of the row, or another, gets.
answer_of : (same : Bool) → Option Response → Response
answer_of true (some response) = response
answer_of _ _ = conflict_response

answer_stored :
    (same : Bool) (response : Response)
    → answer_of same (some response) ≡ (if same then response else conflict_response)
unfolding answer_of
answer_stored true response = refl
answer_stored false response = refl

answer_lost : (same : Bool) → answer_of same none ≡ conflict_response
unfolding answer_of
answer_lost true = refl
answer_lost false = refl

answer_left :
    (stored : Bool) (h h' : ℕ) (response : Response)
    → let row : IdempotencyKey = record { request_hash = h; response = none } in
      let left = if stored then record row { response = some response } else row in
      answer_of (left.request_hash == h') left.response
      ≡ (if stored && h == h' then response else conflict_response)
answer_left true h h' response = answer_stored (h == h') response
answer_left false h h' response = answer_lost (h == h')

module _ {S : Type 0} (hash : ℕ → ℕ) (handler : ℕ → S → S × Response) where
  -- The row that a served request leaves.
  left_row :
      (stored : Bool) (key : ℕ) (row : IdempotencyKey) (response : Response)
      (keys : Table IdempotencyKey)
      → let claimed = set key row keys in
        get key (if stored then store_response key response claimed else claimed)
        ≡ some (if stored then record row { response = some response } else row)
  left_row true key row response keys =
      ap (λ o. get key (with_response key response o (set key row keys)))
        (get-set_self key row keys)
      ∙ get-set_self key (record row { response = some response }) (set key row keys)
  left_row false key row response keys = get-set_self key row keys

  first_served :
      (stored : Bool) (key body : ℕ) (w : World S)
      → get key w.keys ≡ none
      → let claimed = claim hash key body w.keys in
        serve hash handler stored (record { key = some key; body = body }) w ≡ (
          record {
            keys =
                if stored then store_response key (handler body w.data_of).1 claimed else claimed;
            data_of = (handler body w.data_of).0;
          },
          (handler body w.data_of).1,
        )
  unfolding serve decide
  first_served stored key body w fresh =
      ap
        (λ o.
          after_decision hash handler stored (on_row (hash body) key o)
            (record { key = some key; body = body }) w)
        fresh

  again_served :
      (stored : Bool) (key body : ℕ) (row : IdempotencyKey) (w : World S)
      → get key w.keys ≡ some row
      → serve hash handler stored (record { key = some key; body = body }) w
        ≡ (w, answer_of (row.request_hash == hash body) row.response)
  unfolding serve decide answer_of
  again_served stored key body row w known =
      ap
        (λ o.
          after_decision hash handler stored (on_row (hash body) key o)
            (record { key = some key; body = body }) w)
        known
      ∙ answered_by (row.request_hash == hash body) row.response
    where
      request : Request
      request = record { key = some key; body = body }

      answered_by :
          (same : Bool) (o : Option Response)
          → after_decision hash handler stored
              (if same
                then elim o [
                  | none ↦ Decision.answered conflict_response
                  | some response ↦ Decision.answered response
                ]
                else Decision.answered conflict_response)
              (record { key = some key; body = body })
              w
            ≡ (w, answer_of same o)
      answered_by true none = refl
      answered_by true (some response) = refl
      answered_by false none = refl
      answered_by false (some response) = refl

  again_left :
      (stored stored' : Bool) (key h body : ℕ) (response : Response) (w : World S)
      → let row : IdempotencyKey = record { request_hash = h; response = none } in
        get key w.keys ≡ some (if stored then record row { response = some response } else row)
        → serve hash handler stored' (record { key = some key; body = body }) w
          ≡ (w, if stored && h == hash body then response else conflict_response)
  again_left stored stored' key h body response w known =
      again_served stored' key body _ w known
      ∙ ap (λ a. (w, a)) (answer_left stored h (hash body) response)

  -- A request under a new key is passed to the handler, and its answer is the handler's. After that,
  -- any request under this key leaves everything as it is. If the response was stored by then, the
  -- same body gets the same answer again, and a body with another hash gets 409; if storing it
  -- failed, which the first answer does not show, every body gets 409.
  pub retry_replays :
      (stored stored' : Bool) (key body body' : ℕ) (w : World S)
      → get key w.keys ≡ none
      → let first = serve hash handler stored (record { key = some key; body = body }) w in
        (first.1 ≡ (handler body w.data_of).1)
        × (first.0.data_of ≡ (handler body w.data_of).0)
        × (serve hash handler stored' (record { key = some key; body = body' }) first.0
            ≡ (first.0, if stored && hash body == hash body' then first.1 else conflict_response))
  retry_replays stored stored' key body body' w fresh = rw (first_served stored key body w fresh) (
    refl,
    refl,
    again_left stored stored' key (hash body) body' (handler body w.data_of).1 _
        (left_row stored key _ (handler body w.data_of).1 w.keys),
  )
