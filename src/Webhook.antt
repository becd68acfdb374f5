-- ===== src/Webhook.antt =====
-- services/api-gateway/http.go, the Stripe webhook: a checked event is marked in Redis, and a finished
-- checkout is published. The check of the signature is a library's.
pub mod Laws
use mygo_microservices.Prelude.{
  ℕ, ◌*◌, String, ◌<>◌, Bool, true, false, not, List, [], ◌∷◌, ◌==◌, if◌then◌else◌, is_empty,
}
use mygo_microservices.Go.{Error, message, Result, ok, err, Exec, fail, Codec}
use mygo_microservices.Redis.{Kv, Client, is_nil}
use mygo_microservices.Contracts.{AmqpMessage, payment_event_success}
use mygo_microservices.Messaging.Publish.{Publisher}
use mygo_microservices.Trip.World.{PaymentStatusUpdateData}

-- stripe.Event
pub record StripeEvent : Type 0 where
  pub id : String
  pub kind : String
  pub raw : String

-- stripe.CheckoutSession, as far as the source reads it
pub record CheckoutSession : Type 0 where
  pub metadata : List (String × String)

-- `m[key]`: a missing entry is the empty text.
unfoldable pub value_at : String → List (String × String) → String
value_at key [] = ""
value_at key ((k, v) ∷ rest) = if k == key then v else value_at key rest

unfoldable pub payload_of : CheckoutSession → PaymentStatusUpdateData
payload_of session = record {
  trip_id = value_at "trip_id" session.metadata;
  user_id = value_at "user_id" session.metadata;
  driver_id = value_at "driver_id" session.metadata;
}

-- What is written to the client; a handler that writes nothing answers 200.
pub record Response : Type 0 where
  pub status : ℕ
  pub text : String

abbrev pub status_ok : Response
status_ok = record { status = 200; text = "" }

-- `http.Error`
abbrev pub http_error : ℕ → String → Response
http_error status text = record { status = status; text = text }

-- 24 * time.Hour
abbrev pub stripe_webhook_idempotency_ttl : ℕ
stripe_webhook_idempotency_ttl = 86400 * 1000000000

abbrev pub stripe_event_key : String → String
stripe_event_key event_id = "stripe:event:" <> event_id

pub record WebhookDeps : Type 1 where
  pub kv : Kv
  pub bus : Publisher
  -- `webhook.ConstructEventWithOptions` of a body, a signature and the key
  pub construct_event : String → String → String → Result StripeEvent
  -- `json.Unmarshal` of the event's data
  pub session_of : String → Result CheckoutSession
  pub status_json : Codec PaymentStatusUpdateData

module _ (env : WebhookDeps) where
  pub record WebhookWorld : Type 0 where
    pub redis : env.kv.State
    pub broker : env.bus.State

  unfoldable pub mark_stripe_webhook_event_processed : Client → String → Exec env.kv.State Bool
  mark_stripe_webhook_event_processed rdb event_id =
      if is_nil rdb
      then fail (message "redis client is required for stripe webhook idempotency")
      else if is_empty event_id
      then fail (message "stripe event id is required")
      else env.kv.set_nx (stripe_event_key event_id) "1" stripe_webhook_idempotency_ttl

  unfoldable pub publish_response : Result (Unit {0}) → Response
  publish_response (ok u) = status_ok
  publish_response (err e) = http_error 500 "Failed to publish payment event"

  unfoldable pub publish_payload : String → Result String → WebhookWorld → Response × WebhookWorld
  publish_payload user_id (err e) w = (http_error 500 "Failed to marshal payload", w)
  publish_payload user_id (ok content) w =
      let (r, s) =
        env.bus.publish payment_event_success (record { owner_id = user_id; content = content })
          w.broker in
      (publish_response r, record w { broker = s })

  unfoldable pub checkout_completed :
      Result CheckoutSession → WebhookWorld → Response × WebhookWorld
  checkout_completed (err e) w = (http_error 400 "Invalid payload", w)
  checkout_completed (ok session) w =
      publish_payload (value_at "user_id" session.metadata)
        (env.status_json.encode (payload_of session)) w

  -- The `switch` on the type of the event; what it does not know is answered with 200.
  unfoldable pub after_mark : StripeEvent → Result Bool → WebhookWorld → Response × WebhookWorld
  after_mark event (err e) w = (http_error 500 "Failed to process webhook idempotency", w)
  after_mark event (ok processed) w =
      if not processed
      then (status_ok, w)
      else if event.kind == "checkout.session.completed"
      then checkout_completed (env.session_of event.raw) w
      else (status_ok, w)

  unfoldable pub handle_event : Client → Result StripeEvent → WebhookWorld → Response × WebhookWorld
  handle_event rdb (err e) w = (http_error 400 "Invalid signature", w)
  handle_event rdb (ok event) w =
      let (r, s) = mark_stripe_webhook_event_processed rdb event.id w.redis in
      after_mark event r (record w { redis = s })

  unfoldable pub handle_stripe_webhook :
      Client → String → Result String → String → WebhookWorld → Response × WebhookWorld
  handle_stripe_webhook rdb webhook_key (err e) signature w =
      (http_error 500 "Failed to read request body", w)
  handle_stripe_webhook rdb webhook_key (ok body) signature w =
      if is_empty webhook_key
      then (status_ok, w)
      else handle_event rdb (env.construct_event body signature webhook_key) w
