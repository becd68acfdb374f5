-- ===== src/Examples/Messages.antt =====
-- Claims of messages, publishing, consuming and retries, at concrete inputs.
use mygo_microservices.Prelude.{
  ℕ, ◌+◌, ◌≤◌, String, ◌≡◌, refl, true, false, Option, none, some, [], ◌∷◌, ◌=ℕ=◌, ltb,
  if◌then◌else◌, arith, length, All,
}
use mygo_microservices.Go.{Error, message, Result, ok, err, Exec}
use mygo_microservices.Fake.RedisTable.{Table, table_kv, table_laws}
use mygo_microservices.Fake.Broker.{broker, broker_laws, joined, joined_laws, joined-Encodes}
use mygo_microservices.Messaging.Idempotency.{
  Delivery, MessageProcessClaim, idempotency_state_processing, idempotency_state_done,
}
use mygo_microservices.Messaging.Idempotency.Laws.{claimed_key, claim, claim-verdict, claim_sound}
use mygo_microservices.Messaging.Publish.{PublisherLaws, rabbit_publisher}
use mygo_microservices.Messaging.Publish.Laws.{rabbit_publisher-PublisherLaws}
use mygo_microservices.Messaging.Consume.{text, Envelope}
use mygo_microservices.Retry.{default_config, with_backoff}
use mygo_microservices.Retry.Laws.{with_backoff_bounds}

abbrev empty_table : Table
empty_table = record { cell = λ k. none; left = λ k. none; up = true }

abbrev delivery : Delivery
delivery = record { message_id = "m-1"; routing_key = "driver.cmd.trip_accept"; body = "{}" }

abbrev digest : String → String
digest body = body

abbrev key : String
key = claimed_key table_kv table_laws digest "trips" delivery 60

abbrev claim_at : Table → Result MessageProcessClaim × Table
claim_at = claim table_kv table_laws digest "trips" delivery 60

abbrev first_claim : MessageProcessClaim
first_claim = record { key = key; already_processed = false }

claim_sound_example :
    (first_claim.key ≡ key)
    × (first_claim.already_processed ≡ false
        → (empty_table.cell key ≡ none)
          × ((claim_at empty_table).1.cell key ≡ some idempotency_state_processing))
    × (first_claim.already_processed ≡ true
        → (empty_table.cell key ≡ some idempotency_state_done)
          × ((claim_at empty_table).1.cell key ≡ some idempotency_state_done))
claim_sound_example =
    claim_sound table_kv table_laws digest "trips" delivery 60 empty_table first_claim (
      claim-verdict table_kv table_laws digest "trips" delivery 60 empty_table refl refl
        (omega arith))

rabbit_publisher-PublisherLaws_example : PublisherLaws (rabbit_publisher broker joined)
rabbit_publisher-PublisherLaws_example =
    rabbit_publisher-PublisherLaws broker broker_laws joined joined_laws joined-Encodes

abbrev library : Error → String
library e = "i/o timeout"

abbrev envelope : Envelope
envelope = record {
  exchange = "trip";
  routing_key = "driver.cmd.trip_accept";
  headers = some (("x-death-reason", text "old") ∷ []);
}

-- It fails twice, and counts its runs.
abbrev flaky : Exec ℕ (Unit {0})
flaky n = if ltb n 2 then (err (message "later"), n + 1) else (ok tt, n + 1)

abbrev live : ℕ → Option Error
live n = none

abbrev cancelled_after_one : ℕ → Option Error
cancelled_after_one n = if n =ℕ= 1 then none else some (message "context canceled")

with_backoff_bounds_example :
    let o = with_backoff cancelled_after_one flaky default_config 0 in
    (1 ≤ o.attempts)
    × (o.attempts ≤ 4)
    × (length o.waits ≤ 3)
    × All (λ w. w ≤ default_config.max_wait) o.waits
with_backoff_bounds_example =
    with_backoff_bounds cancelled_after_one flaky default_config 0 (omega arith)
