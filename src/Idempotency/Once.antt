-- ===== src/Idempotency/Once.antt =====
-- Requests that interleave: claiming a key, running the handler and storing its answer are steps of
-- their own.
use nexus_efos.Common.{
  ℕ, suc, ◌≤◌, ◌≡◌, ◌≢◌, refl, sym, ◌∙◌, false, Option, none, some, List, [], ◌∷◌, ◌==◌, arith,
  Option-cases, Bool-cases, inl, inr, count, ==_iff, ◌⊎◌,
}
use nexus_efos.Common.Table.{Table, get, set, get-set}
use nexus_efos.Idempotency.{
  Response, IdempotencyKey, Request, Decision, replay, on_row, by_key, with_response, decide, claim,
  store_response,
}

-- The keys, and the keys under which the handler was called, the latest first.
pub record Log : Type 0 where
  pub keys : Table IdempotencyKey
  pub executed : List ℕ

pub data Event : Type 0 where
  arrive : Request → Event
  answer : ℕ → Response → Event

module _ (hash : ℕ → ℕ) where
  abbrev pub react : Decision → Request → Log → Log
  react Decision.pass request log = log
  react (Decision.claimed key) request log = record {
    keys = claim hash key request.body log.keys;
    executed = key ∷ log.executed;
  }
  react (Decision.answered response) request log = log

  abbrev pub happen : Event → Log → Log
  happen (Event.arrive request) log = react (decide hash request log.keys) request log
  happen (Event.answer key response) log = record log {
    keys = store_response key response log.keys;
  }

  abbrev pub history : List Event → Log → Log
  history [] log = log
  history (e ∷ events) log = history events (happen e log)

abbrev pub empty_log : Log
empty_log = record { keys = []; executed = [] }

-- A key under which the handler was called stands in the table, and no more than once.
abbrev pub IsOnce : ℕ → Log → Type 0
IsOnce key log =
    (count key log.executed ≡ 0)
    ⊎ ((count key log.executed ≡ 1) × ((row : IdempotencyKey) × (get key log.keys ≡ some row)))

count_self : (key : ℕ) (xs : List ℕ) → count key (key ∷ xs) ≡ suc (count key xs)
count_self key xs = ground arith

count_ne : (key j : ℕ) (xs : List ℕ) → (key == j) ≡ false → count key (j ∷ xs) ≡ count key xs
count_ne key j xs h = simp h (omega arith)

-- A row that is set is there, and one that was there stays.
abbrev HasRow : ℕ → Table IdempotencyKey → Type 0
HasRow key keys = (row : IdempotencyKey) × (get key keys ≡ some row)

get-set_some :
    (key j : ℕ) (row : IdempotencyKey) (keys : Table IdempotencyKey)
    → HasRow key keys
    → HasRow key (set j row keys)
get-set_some key j row keys (r, known) = elim (Bool-cases (key == j)) [
  | inl same ↦ (row, get-set key j row keys ∙ simp same)
  | inr other ↦ (r, get-set key j row keys ∙ simp (other, known))
]

claimed-IsOnce :
    (key k : ℕ) (row : IdempotencyKey) (log : Log)
    → get k log.keys ≡ none
    → IsOnce key log
    → IsOnce key (record { keys = set k row log.keys; executed = k ∷ log.executed })
claimed-IsOnce key k row log fresh once = elim (Bool-cases (key == k)) [
  | inl same ↦
      let e : key ≡ k = (==_iff key k).0 same in
      elim once [
        | inl never ↦ inr (ground (arith, never), (row, get-set key k row log.keys ∙ simp same))
        | inr (once', (r, known)) ↦ absurd (none_some r (sym fresh ∙ rw e at known))
      ]
  | inr other ↦
      let kept = count_ne key k log.executed other in
      elim once [
        | inl never ↦ inl (kept ∙ never)
        | inr (once', row') ↦ inr (kept ∙ once', get-set_some key k row log.keys row')
      ]
]
  where
    none_some : (r : IdempotencyKey) → none ≢ some r
    none_some r p = cc

replayed-IsOnce :
    (hash : ℕ → ℕ) (key h : ℕ) (row : IdempotencyKey) (request : Request) (log : Log)
    → IsOnce key log
    → IsOnce key (react hash (replay h row) request log)
replayed-IsOnce hash key h row request log once = elim (Bool-cases (row.request_hash == h)) [
  | inl same ↦ elim (Option-cases row.response) [
    | inl waiting ↦ simp (same, waiting) once
    | inr (response, done) ↦ simp (same, done) once
  ]
  | inr other ↦ simp other once
]

answered-IsOnce :
    (key k : ℕ) (response : Response) (o : Option IdempotencyKey) (log : Log)
    → IsOnce key log
    → IsOnce key (record log { keys = with_response k response o log.keys })
answered-IsOnce key k response none log once = once
answered-IsOnce key k response (some row) log (inl never) = inl never
answered-IsOnce key k response (some row) log (inr (once, known)) =
    inr (once, get-set_some key k _ log.keys known)

module _ (hash : ℕ → ℕ) where
  row-IsOnce :
      (key k : ℕ) (o : Option IdempotencyKey) (request : Request) (log : Log)
      → get k log.keys ≡ o
      → IsOnce key log
      → IsOnce key (react hash (on_row (hash request.body) k o) request log)
  row-IsOnce key k none request log found once =
      claimed-IsOnce key k (record { request_hash = hash request.body; response = none }) log found
        once
  row-IsOnce key k (some row) request log found once =
      replayed-IsOnce hash key (hash request.body) row request log once

  key-IsOnce :
      (key : ℕ) (o : Option ℕ) (request : Request) (log : Log)
      → IsOnce key log
      → IsOnce key (react hash (by_key (hash request.body) o log.keys) request log)
  key-IsOnce key none request log once = once
  key-IsOnce key (some k) request log once = row-IsOnce key k (get k log.keys) request log refl once

  happen-IsOnce :
      (key : ℕ) (e : Event) (log : Log) → IsOnce key log → IsOnce key (happen hash e log)
  unfolding decide
  happen-IsOnce key (Event.arrive request) log once = key-IsOnce key request.key request log once
  happen-IsOnce key (Event.answer k response) log once =
      answered-IsOnce key k response (get k log.keys) log once

  history-IsOnce :
      (key : ℕ) (events : List Event) (log : Log)
      → IsOnce key log
      → IsOnce key (history hash events log)
  history-IsOnce key [] log once = once
  history-IsOnce key (e ∷ events) log once =
      history-IsOnce key events (happen hash e log) (happen-IsOnce key e log once)

  at_most_one : (key : ℕ) (log : Log) → IsOnce key log → count key log.executed ≤ 1
  at_most_one key log (inl never) = omega arith
  at_most_one key log (inr (once, row)) = omega arith

  -- However requests and the answers of the handler interleave, the handler is called at most once
  -- under each key.
  pub executed_at_most_once :
      (key : ℕ) (events : List Event) → count key (history hash events empty_log).executed ≤ 1
  executed_at_most_once key events =
      at_most_one key (history hash events empty_log)
        (history-IsOnce key events empty_log (inl refl))
