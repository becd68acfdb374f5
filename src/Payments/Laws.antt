-- ===== src/Payments/Laws.antt =====
-- One command, one session: a repeated message opens no second Stripe session.
use mygo_microservices.Prelude.{
  ℕ, String, ◌≡◌, refl, none, some, [], ◌∷◌, ◌++◌, arith, eq_refl, eq_iff,
}
use mygo_microservices.Go.{ok}
use mygo_microservices.Redis.{KvLaws, client}
use mygo_microservices.Contracts.{
  AmqpMessage, payment_cmd_create_session, payment_event_session_created,
}
use mygo_microservices.Messaging.Publish.{PublisherLaws}
use mygo_microservices.Messaging.Idempotency.{
  Delivery, idempotency_state_done, message_key, claim_message_for_processing,
  mark_message_processed,
}
use mygo_microservices.Messaging.Idempotency.Laws.{claim-verdict, claim-IsUp, keyed}
use mygo_microservices.Trip.World.{PaymentTripResponseData}
use mygo_microservices.Payments.{
  PaymentDeps, PaymentWorld, PaymentEventSessionCreatedData, payment_service_processed_message_ttl,
  payment_namespace, create_payment_session, handle_trip_accepted, dispatch, handle_message,
  or_release, consume_claimed, handle_delivery,
}

module _ (env : PaymentDeps) (kv_laws : KvLaws env.kv) (bus_laws : PublisherLaws env.bus)
    (msg : Delivery) (w : PaymentWorld env) (up : env.kv.IsUp w.redis) where
  abbrev pub payment_key : String
  payment_key = message_key env.digest payment_namespace msg

  -- What is told of a session for a command.
  abbrev pub created : PaymentTripResponseData → String → PaymentEventSessionCreatedData
  created payload session = record {
    trip_id = payload.trip_id;
    session_id = session;
    amount = env.in_dollars (env.to_int64 payload.amount);
    currency = payload.currency;
  }

  -- With Redis and the broker up, a first command that can be decoded, for which Stripe opens a
  -- session, succeeds: exactly the session's event is sent, to the user of the command, and the
  -- message's key says done.
  pub session_announced :
      (m : AmqpMessage) (payload : PaymentTripResponseData) (session content : String)
      → env.bus.IsUp w.broker
      → env.kv.lookup w.redis payment_key ≡ none
      → msg.routing_key ≡ payment_cmd_create_session
      → env.amqp_json.decode msg.body ≡ ok m
      → env.request_json.decode m.content ≡ ok payload
      → (env.processor.create_payment_session
          (env.to_int64 payload.amount)
          payload.currency
          (("trip_id", payload.trip_id)
            ∷ ("user_id", payload.user_id)
            ∷ ("driver_id", payload.driver_id)
            ∷ [])
          w.stripe).0
        ≡ ok session
      → env.created_json.encode (created payload session) ≡ ok content
      → let r = handle_delivery env client msg w in
        (r.0 ≡ ok tt)
        × (env.bus.sent r.1.broker
            ≡ env.bus.sent w.broker
              ++ (
                payment_event_session_created,
                record { owner_id = payload.user_id; content = content },
              )
                ∷ [])
        × (env.kv.lookup r.1.redis payment_key ≡ some idempotency_state_done)
  unfolding handle_delivery consume_claimed handle_message dispatch handle_trip_accepted
      create_payment_session or_release mark_message_processed
  session_announced m payload session content bus_up fresh route p q opened e =
      let ttl : ℕ = payment_service_processed_message_ttl in
      let s : env.kv.State =
        (claim_message_for_processing env.kv env.digest client payment_namespace msg ttl
          w.redis).1 in
      let event : AmqpMessage = record { owner_id = payload.user_id; content = content } in
      ground (
        arith,
        p,
        q,
        opened,
        e,
        claim-verdict env.kv kv_laws env.digest payment_namespace msg ttl w.redis up refl
            (omega arith),
        claim-IsUp env.kv kv_laws env.digest payment_namespace msg ttl w.redis up,
        keyed env.digest payment_namespace msg,
        bus_laws.up_publish_ok payment_event_session_created event w.broker bus_up,
        bus_laws.publish_ok payment_event_session_created event w.broker,
        kv_laws.up_set payment_key idempotency_state_done ttl s,
        kv_laws.set_done payment_key idempotency_state_done ttl payment_key s,
        eq_refl payment_key,
        eq_iff msg.routing_key payment_cmd_create_session,
      )

  -- With Redis up, a command that was processed before reaches neither Stripe nor the broker.
  pub duplicate_session_skipped :
      env.kv.lookup w.redis payment_key ≡ some idempotency_state_done
      → let r = handle_delivery env client msg w in
        (r.0 ≡ ok tt) × (r.1.stripe ≡ w.stripe) × (r.1.broker ≡ w.broker)
  unfolding handle_delivery consume_claimed
  duplicate_session_skipped done = ground (
    arith,
    claim-verdict env.kv kv_laws env.digest payment_namespace msg
        payment_service_processed_message_ttl w.redis up refl (omega arith),
  )
