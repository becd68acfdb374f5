-- ===== src/Payments.antt =====
-- services/payment-service: a Stripe session for a trip that has its driver, and the consumer that
-- asks for it. The Stripe client is a parameter, as are the clock, `uuid.New` and the arithmetic on
-- float64.
pub mod Laws
use mygo_microservices.Prelude.{
  ℕ, ◌*◌, String, ◌<>◌, Bool, true, false, List, [], ◌∷◌, ◌==◌, if◌then◌else◌,
}
use mygo_microservices.Go.{
  Error, error_text, message, Result, ok, err, Exec, pure, fail, lift, ignore, Codec, ◌>>=◌, ◌>>◌,
}
use mygo_microservices.Redis.{Kv, Client}
use mygo_microservices.Contracts.{
  AmqpMessage, payment_cmd_create_session, payment_event_session_created,
}
use mygo_microservices.Messaging.Publish.{Publisher}
use mygo_microservices.Messaging.Idempotency.{
  Delivery, MessageProcessClaim, claim_message_for_processing, mark_message_processed,
  release_message_processing,
}
use mygo_microservices.Trip.Domain.{Float64}
use mygo_microservices.Trip.World.{PaymentTripResponseData}

-- domain.PaymentProcessor: amount, currency and metadata give a session's identifier.
pub record PaymentProcessor : Type 1 where
  pub State : Type 0
  pub create_payment_session : ℕ → String → List (String × String) → Exec State String

pub record PaymentIntent : Type 0 where
  pub id : String
  pub trip_id : String
  pub user_id : String
  pub driver_id : String
  pub amount : ℕ
  pub currency : String
  pub stripe_session_id : String
  pub created_at : ℕ

pub record PaymentEventSessionCreatedData : Type 0 where
  pub trip_id : String
  pub session_id : String
  pub amount : Float64
  pub currency : String

pub record PaymentDeps : Type 1 where
  pub kv : Kv
  pub processor : PaymentProcessor
  pub bus : Publisher
  pub digest : String → String
  -- the texts of the libraries' errors
  pub library : Error → String
  pub new_uuid : String
  pub now : ℕ
  -- `int64(x)`, for an amount that is not negative, and `float64(n) / 100.0`
  pub to_int64 : Float64 → ℕ
  pub in_dollars : ℕ → Float64
  pub amqp_json : Codec AmqpMessage
  pub request_json : Codec PaymentTripResponseData
  pub created_json : Codec PaymentEventSessionCreatedData

-- 10 * time.Minute
abbrev pub payment_service_processed_message_ttl : ℕ
payment_service_processed_message_ttl = 600 * 1000000000

abbrev pub payment_namespace : String
payment_namespace = "payment-service:trip-consumer"

module _ (env : PaymentDeps) where
  pub record PaymentWorld : Type 0 where
    pub redis : env.kv.State
    pub stripe : env.processor.State
    pub broker : env.bus.State

  abbrev pub on_redis : {A : Type 0} → Exec env.kv.State A → Exec PaymentWorld A
  on_redis m w = let (r, s) = m w.redis in (r, record w { redis = s })

  abbrev pub on_stripe : {A : Type 0} → Exec env.processor.State A → Exec PaymentWorld A
  on_stripe m w = let (r, s) = m w.stripe in (r, record w { stripe = s })

  abbrev pub on_broker : {A : Type 0} → Exec env.bus.State A → Exec PaymentWorld A
  on_broker m w = let (r, s) = m w.broker in (r, record w { broker = s })

  -- `fmt.Errorf("failed to create payment session: %w", err)`
  abbrev pub session_error : {A : Type 0} → Exec PaymentWorld A → Exec PaymentWorld A
  session_error m w =
      let (r, w') = m w in
      elim r [
        | ok a ↦ (ok a, w')
        | err e ↦
            (err (message ("failed to create payment session: " <> error_text env.library e)), w')
      ]

  unfoldable pub create_payment_session :
      String → String → String → ℕ → String → Exec PaymentWorld PaymentIntent
  create_payment_session trip_id user_id driver_id amount currency = do
    session_id ← session_error (
        on_stripe (
          env.processor.create_payment_session amount currency
            (("trip_id", trip_id) ∷ ("user_id", user_id) ∷ ("driver_id", driver_id) ∷ [])))
    pure (record {
      id = env.new_uuid;
      trip_id = trip_id;
      user_id = user_id;
      driver_id = driver_id;
      amount = amount;
      currency = currency;
      stripe_session_id = session_id;
      created_at = env.now;
    })

  unfoldable pub handle_trip_accepted : PaymentTripResponseData → Exec PaymentWorld (Unit {0})
  handle_trip_accepted payload = do
    payment_session ←
        create_payment_session payload.trip_id payload.user_id payload.driver_id
          (env.to_int64 payload.amount) payload.currency
    let payment_payload : PaymentEventSessionCreatedData = record {
      trip_id = payload.trip_id;
      session_id = payment_session.stripe_session_id;
      amount = env.in_dollars payment_session.amount;
      currency = payment_session.currency;
    }
    payload_bytes ← lift (env.created_json.encode payment_payload)
    on_broker (
        env.bus.publish payment_event_session_created
          (record { owner_id = payload.user_id; content = payload_bytes }))

  -- The `switch` on the routing key; what it does not know counts as handled.
  unfoldable pub dispatch : String → PaymentTripResponseData → Exec PaymentWorld (Unit {0})
  dispatch routing_key payload =
      if routing_key == payment_cmd_create_session then handle_trip_accepted payload else pure tt

  unfoldable pub handle_message : Delivery → Exec PaymentWorld (Unit {0})
  handle_message msg = do
    m ← lift (env.amqp_json.decode msg.body)
    payload ← lift (env.request_json.decode m.content)
    dispatch msg.routing_key payload

  -- After a failure the claim is released, and the failure is returned.
  unfoldable pub or_release :
      Client → String → Exec PaymentWorld (Unit {0}) → Exec PaymentWorld (Unit {0})
  or_release redis key m w =
      let (r, w') = m w in
      elim r [
        | ok u ↦ (ok tt, w')
        | err e ↦ (ignore (on_redis (release_message_processing env.kv redis key)) >> fail e) w'
      ]

  unfoldable pub consume_claimed :
      Client → Delivery → MessageProcessClaim → Exec PaymentWorld (Unit {0})
  consume_claimed redis msg claim = if claim.already_processed then pure tt else do
    or_release redis claim.key (handle_message msg)
    on_redis (mark_message_processed env.kv redis claim.key payment_service_processed_message_ttl)

  -- The handler that `Listen` passes to `ConsumeMessages`.
  unfoldable pub handle_delivery : Client → Delivery → Exec PaymentWorld (Unit {0})
  handle_delivery redis msg = do
    claim ← on_redis (
        claim_message_for_processing env.kv env.digest redis payment_namespace msg
          payment_service_processed_message_ttl)
    consume_claimed redis msg claim
