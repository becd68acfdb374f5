-- ===== src/Messaging/Publish.antt =====
-- `PublishMessage` of shared/messaging/rabbitmq.go, over a broker that the repository only calls.
pub mod Laws
use mygo_microservices.Prelude.{
  ℕ, ◌=ℕ=◌, String, ◌≡◌, Bool, false, not, List, [], ◌∷◌, ◌++◌, ◌==◌, ◌&&◌, if◌then◌else◌, is_empty,
}
use mygo_microservices.Go.{Error, message, Result, ok, err, Exec, Codec}
use mygo_microservices.Contracts.{AmqpMessage}

abbrev pub trip_exchange : String
trip_exchange = "trip"

-- amqp.Publishing, as far as the source sets it; the delivery mode 2 is `amqp.Persistent`.
pub record Publishing : Type 0 where
  pub message_id : String
  pub delivery_mode : ℕ
  pub content_type : String
  pub body : String

-- A message that the client library has written to its connection.
pub record Published : Type 0 where
  pub exchange : String
  pub routing_key : String
  pub publishing : Publishing

-- The channel of github.com/rabbitmq/amqp091-go, with what went out through it, and
-- github.com/google/uuid. The channel is not in confirm mode, so nothing here tells what the broker
-- has taken.
pub record Bus : Type 1 where
  pub State : Type 0
  pub published : State → List Published
  pub IsUp : State → Type 0
  pub new_uuid : State → String
  pub publish_with_context : String → String → Publishing → Exec State (Unit {0})

-- A publish that answers has gone out, one that reports an error has not. A UUID is never empty.
module _ (bus : Bus) where
  open bus use {State, published, IsUp, new_uuid, publish_with_context}

  pub record BusLaws : Type 0 where
    pub publish_done :
        (x k : String) (p : Publishing) (s : State)
        → (publish_with_context x k p s).0 ≡ ok tt
        → published (publish_with_context x k p s).1
          ≡ published s ++ record { exchange = x; routing_key = k; publishing = p } ∷ []
    pub publish_failed :
        (x k : String) (p : Publishing) (s : State) (e : Error)
        → (publish_with_context x k p s).0 ≡ err e
        → published (publish_with_context x k p s).1 ≡ published s
    pub uuid_named : (s : State) → is_empty (new_uuid s) ≡ false
    pub up_publish :
        (x k : String) (p : Publishing) (s : State)
        → IsUp s
        → (publish_with_context x k p s).0 ≡ ok tt
    pub publish-IsUp :
        (x k : String) (p : Publishing) (s : State) → IsUp s → IsUp (publish_with_context x k p s).1

abbrev new_persistent_json_message : String → String → Publishing
new_persistent_json_message uuid body = record {
  message_id = uuid;
  delivery_mode = 2;
  content_type = "application/json";
  body = body;
}

module _ (bus : Bus) (amqp : Codec AmqpMessage) where
  -- `%v` of the marshalling error is left out of the message's text.
  publish_json : Result String → String → Exec bus.State (Unit {0})
  publish_json (ok body) key s =
      bus.publish_with_context trip_exchange key (new_persistent_json_message (bus.new_uuid s) body)
        s
  publish_json (err e) key s = (err (message "failed to marshal message"), s)

  unfoldable pub publish_message : String → AmqpMessage → Exec bus.State (Unit {0})
  unfolding publish_json
  publish_message key m = publish_json (amqp.encode m) key

-- What a service that publishes sees of `RabbitMQ`: one operation, and the messages that went out so
-- far.
pub record Publisher : Type 1 where
  pub State : Type 0
  pub IsUp : State → Type 0
  pub sent : State → List (String × AmqpMessage)
  pub publish : String → AmqpMessage → Exec State (Unit {0})

module _ (p : Publisher) where
  open p use {State, IsUp, sent, publish}

  pub record PublisherLaws : Type 0 where
    pub publish_ok :
        (k : String) (m : AmqpMessage) (s : State)
        → (publish k m s).0 ≡ ok tt
        → sent (publish k m s).1 ≡ sent s ++ (k, m) ∷ []
    pub publish_err :
        (k : String) (m : AmqpMessage) (s : State) (e : Error)
        → (publish k m s).0 ≡ err e
        → sent (publish k m s).1 ≡ sent s
    pub up_publish_ok :
        (k : String) (m : AmqpMessage) (s : State) → IsUp s → (publish k m s).0 ≡ ok tt
    pub up_publish : (k : String) (m : AmqpMessage) (s : State) → IsUp s → IsUp (publish k m s).1

-- A message that the queues of the trip exchange route and that a consumer can tell from others:
-- persistent JSON on that exchange, with an identifier.
abbrev pub is_sent : Published → Bool
is_sent p =
    (p.exchange == "trip")
    && (p.publishing.delivery_mode =ℕ= 2)
    && (p.publishing.content_type == "application/json")
    && not (is_empty p.publishing.message_id)

-- Those of them that a consumer can decode.
pub sent_of : Codec AmqpMessage → List Published → List (String × AmqpMessage)
sent_of amqp [] = []
sent_of amqp (p ∷ ps) =
    let rest = sent_of amqp ps in
    if is_sent p
    then elim (amqp.decode p.publishing.body) [ ok m ↦ (p.routing_key, m) ∷ rest | err e ↦ rest ]
    else rest

abbrev pub rabbit_publisher : Bus → Codec AmqpMessage → Publisher
rabbit_publisher bus amqp = record {
  State = bus.State;
  IsUp = bus.IsUp;
  sent = λ s. sent_of amqp (bus.published s);
  publish = publish_message bus amqp;
}
