-- ===== src/Idempotency/Tests.antt =====
-- A payment that is sent twice, before and after its answer.
use nexus_efos.Common.{
  ℕ, ◌+◌, true, false, ◌&&◌, ◌≡◌, ◌≤◌, refl, some, List, [], ◌∷◌, ◌==◌, if◌then◌else◌, count,
}
use nexus_efos.Idempotency.{Response, Request, World, conflict_response, serve}
use nexus_efos.Idempotency.Replay.{retry_replays}
use nexus_efos.Idempotency.Once.{Event, history, empty_log, executed_at_most_once}

abbrev hash : ℕ → ℕ
hash body = body

abbrev created : Response
created = record { status = 201; body = 5 }

-- The handler adds the amount to a balance.
abbrev pay : ℕ → ℕ → ℕ × Response
pay amount balance = (balance + amount, created)

abbrev payment : Request
payment = record { key = some 7; body = 50 }

abbrev world : World ℕ
world = record { keys = []; data_of = 100 }

retry_replays_example :
    (let first = serve hash pay true payment world in
      (first.1 ≡ (pay 50 100).1)
      × (first.0.data_of ≡ (pay 50 100).0)
      × (serve hash pay false (record { key = some 7; body = 50 }) first.0
          ≡ (first.0, if true && hash 50 == hash 50 then first.1 else conflict_response)))
retry_replays_example = retry_replays hash pay true false 7 50 50 world refl

abbrev events : List Event
events =
    Event.arrive payment ∷ Event.arrive payment ∷ Event.answer 7 created ∷ Event.arrive payment ∷ []

executed_at_most_once_example : count 7 (history hash events empty_log).executed ≤ 1
executed_at_most_once_example = executed_at_most_once hash 7 events
