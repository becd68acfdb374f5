-- ===== src/Messaging/Consume.antt =====
-- `ConsumeMessages` of shared/messaging/rabbitmq.go: one delivery is handled with retries, and then
-- acknowledged or rejected. `TracedConsumer` only opens a trace span around it.
pub mod Laws
use mygo_microservices.Prelude.{
  ℕ, String, ◌≡◌, Bool, false, Option, none, some, List, [], ◌∷◌, ◌==◌, if◌then◌else◌,
}
use mygo_microservices.Go.{Error, error_text, Result, ok, err, Exec}
use mygo_microservices.Retry.{Outcome, default_config, with_backoff}

pub data HeaderValue : Type 0 where
  text : String → HeaderValue
  int : ℕ → HeaderValue

-- amqp.Table
abbrev pub Headers : Type 0
Headers = List (String × HeaderValue)

-- `headers[k] = v`
pub put_header : String → HeaderValue → Headers → Headers
put_header k v [] = (k, v) ∷ []
put_header k v ((j, w) ∷ hs) = if j == k then (k, v) ∷ hs else (j, w) ∷ put_header k v hs

pub header : String → Headers → Option HeaderValue
header k [] = none
header k ((j, w) ∷ hs) = if j == k then some w else header k hs

-- The delivery as the broker hands it over; its headers may be nil.
pub record Envelope : Type 0 where
  pub exchange : String
  pub routing_key : String
  pub headers : Option Headers

-- What the channel is told of the delivery's tag: `Ack(false)`, or `Reject` with the flag for a
-- requeue. Neither carries headers.
pub data Settlement : Type 0 where
  ack : Settlement
  reject : Bool → Settlement

-- The context of the failure, which is written into the headers of the closure's own delivery.
unfoldable pub death_headers : (Error → String) → Envelope → Error → Headers
unfolding put_header
death_headers library d e =
    let h0 : Headers = elim d.headers [ none ↦ [] | some hs ↦ hs ] in
    let h1 = put_header "x-death-reason" (text (error_text library e)) h0 in
    let h2 = put_header "x-origin-exchange" (text d.exchange) h1 in
    let h3 = put_header "x-original-routing-key" (text d.routing_key) h2 in
    put_header "x-retry-count" (int default_config.max_retries) h3

-- The settlements in order, and the delivery as the closure holds it at its end.
unfoldable pub settle : (Error → String) → Envelope → Result (Unit {0}) → List Settlement × Envelope
settle library d (ok u) = (ack ∷ [], d)
settle library d (err e) =
    (reject false ∷ [], record d { headers = some (death_headers library d e) })

-- One delivery; the state is what its handler leaves.
pub consume :
    {S : Type 0}
    → (Error → String)
    → (ℕ → Option Error)
    → Exec S (Unit {0})
    → Envelope
    → S
    → (List Settlement × Envelope) × S
unfolding settle
consume library cancelled handler d s =
    let o = with_backoff cancelled handler default_config s in (settle library d o.result, o.state)
