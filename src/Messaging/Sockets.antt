-- ===== src/Messaging/Sockets.antt =====
-- shared/messaging/connection_messager.go and queue_consumer.go: the web sockets that are open at one
-- gateway, and how a message of a queue reaches one of them.
pub mod Laws
use mygo_microservices.Prelude.{
  ℕ, zero, suc, ◌+◌, String, ◌≡◌, Bool, Option, none, some, ◌==◌, if◌then◌else◌,
}
use mygo_microservices.Go.{connection_not_found, Error, Result, ok, err}
use mygo_microservices.Contracts.{WsMessage}

-- `WriteJSON` of github.com/gorilla/websocket. It has no answer where it panics.
pub record Sockets : Type 1 where
  pub Conn : Type 0
  pub State : Type 0
  pub write_json : Conn → WsMessage → State → Option (Result (Unit {0})) × State

-- A message body as encoding/json reads it; a nil slice is absent.
pub record Incoming : Type 0 where
  pub owner_id : String
  pub content : Option String

pub record Delivery : Type 0 where
  pub routing_key : String
  pub body : String

abbrev pub qc_send_retries : ℕ
qc_send_retries = 2

-- How `handleDelivery` ended, and after how many attempts to send.
pub data Outcome : Type 0 where
  unreadable : Outcome
  written panicked dropped : ℕ → Outcome

-- The content as a JSON value, where there is one.
module _ (json_value : String → Result String) where
  abbrev optional : Result String → Result (Option String)
  optional (ok v) = ok (some v)
  optional (err e) = err e

  abbrev pub payload_of : Option String → Result (Option String)
  payload_of none = ok none
  payload_of (some bytes) = optional (json_value bytes)

-- `decode` is `json.Unmarshal` of the body, and `json_value` that of its content.
module _ (ws : Sockets) (decode : String → Result Incoming)
    (json_value : String → Result String) where
  -- The connections by user, the sockets, and how often the delivery was acknowledged.
  pub record Gateway : Type 0 where
    pub connections : String → Option ws.Conn
    pub sockets : ws.State
    pub acks : ℕ

  unfoldable pub add : String → ws.Conn → Gateway → Gateway
  add id c w = record w { connections = λ j. if id == j then some c else w.connections j }

  unfoldable pub remove : String → Gateway → Gateway
  remove id w = record w { connections = λ j. if id == j then none else w.connections j }

  unfoldable pub get : String → Gateway → Option ws.Conn
  get id w = w.connections id

  unfoldable pub send_message : String → WsMessage → Gateway → Option (Result (Unit {0})) × Gateway
  send_message id m w = elim (w.connections id) [
    | none ↦ (some (err connection_not_found), w)
    | some c ↦ let (r, s) = ws.write_json c m w.sockets in (r, record w { sockets = s })
  ]

  -- `_ = msg.Ack(false)`
  abbrev pub ack : Gateway → Gateway
  ack w = record w { acks = suc w.acks }

  -- `meanwhile n` is what other goroutines do while the code waits after attempt `n`.
  module _ (meanwhile : ℕ → Gateway → Gateway) where
    after_send : ℕ → Option (Result (Unit {0})) → Gateway → Outcome × Gateway → Outcome × Gateway
    after_send attempt none w rest = (panicked attempt, ack w)
    after_send attempt (some (ok u)) w rest = (written attempt, ack w)
    after_send attempt (some (err e)) w rest = rest

    -- The loop, at an attempt, with the retries that are left.
    unfoldable pub send_retrying : ℕ → ℕ → String → WsMessage → Gateway → Outcome × Gateway
    unfolding after_send
    send_retrying zero attempt id m w =
        let (r, w') = send_message id m w in after_send attempt r w' (dropped attempt, ack w')
    send_retrying (suc left) attempt id m w =
        let (r, w') = send_message id m w in
        after_send attempt r w' (send_retrying left (suc attempt) id m (meanwhile attempt w'))

    with_payload : String → String → Result (Option String) → Gateway → Outcome × Gateway
    with_payload key id (err e) w = (unreadable, ack w)
    with_payload key id (ok content) w =
        send_retrying qc_send_retries 1 id (record { kind = key; content = content }) w

    with_body : String → Result Incoming → Gateway → Outcome × Gateway
    with_body key (err e) w = (unreadable, ack w)
    with_body key (ok b) w = with_payload key b.owner_id (payload_of json_value b.content) w

    unfoldable pub handle_delivery : Delivery → Gateway → Outcome × Gateway
    unfolding with_body with_payload
    handle_delivery d w = with_body d.routing_key (decode d.body) w
