-- ===== src/Trip/PaymentConsumer/Laws.antt =====
-- What a payment message does to its trip.
use mygo_microservices.Prelude.{ℕ, String, ◌≡◌, refl, none, some, arith, eq_refl}
use mygo_microservices.Go.{ok}
use mygo_microservices.Redis.{client}
use mygo_microservices.Contracts.{AmqpMessage}
use mygo_microservices.Messaging.Idempotency.{
  Delivery, idempotency_state_done, message_key, claim_message_for_processing,
  mark_message_processed,
}
use mygo_microservices.Messaging.Idempotency.Laws.{claim-verdict, claim-IsUp, keyed}
use mygo_microservices.Trip.Domain.{TripModel, payed, assign, movable, may_move, updated}
use mygo_microservices.Trip.World.{
  Deps, DepsLaws, World, PaymentStatusUpdateData, IsLive, trip_at, sent,
}
use mygo_microservices.Trip.DriverConsumer.{or_release}
use mygo_microservices.Trip.PaymentConsumer.{
  handle_message, consume_claimed, handle_delivery, payment_consumer_processed_message_ttl,
}

abbrev pub payment_namespace : String
payment_namespace = "trip-service:payment-consumer"

module _ (env : Deps) (laws : DepsLaws env) (msg : Delivery) (w : World env)
    (live : IsLive env w) where
  open laws use {kv_laws, svc_laws}

  abbrev pub payment_key : String
  payment_key = message_key env.digest payment_namespace msg

  -- With every service up, a first payment message that can be decoded, for a trip that the database
  -- holds, whatever its status, succeeds: the trip is payed and keeps its driver, nothing is sent,
  -- and the message's key says done.
  pub payment_pays :
      (m : AmqpMessage) (payload : PaymentStatusUpdateData) (t : TripModel)
      → env.kv.lookup w.redis payment_key ≡ none
      → env.amqp_json.decode msg.body ≡ ok m
      → env.status_json.decode m.content ≡ ok payload
      → trip_at env w payload.trip_id ≡ some t
      → let r = handle_delivery env client msg w in
        (r.0 ≡ ok tt)
        × (trip_at env r.1 payload.trip_id ≡ some (record t { status = payed }))
        × (sent env r.1 ≡ sent env w)
        × (env.kv.lookup r.1.redis payment_key ≡ some idempotency_state_done)
  unfolding handle_delivery consume_claimed handle_message or_release mark_message_processed updated
      movable may_move assign
  payment_pays m payload t fresh p q found =
      let ttl : ℕ = payment_consumer_processed_message_ttl in
      let s : env.kv.State =
        (claim_message_for_processing env.kv env.digest client payment_namespace msg ttl
          w.redis).1 in
      ground (
        arith,
        p,
        q,
        claim-verdict env.kv kv_laws env.digest payment_namespace msg ttl w.redis live.redis_up refl
            (omega arith),
        claim-IsUp env.kv kv_laws env.digest payment_namespace msg ttl w.redis live.redis_up,
        keyed env.digest payment_namespace msg,
        svc_laws.view-IsId payload.trip_id w.trips t,
        svc_laws.up_update payload.trip_id payed none w.trips live.trips_up,
        svc_laws.update_ok payload.trip_id payed none w.trips,
        kv_laws.up_set payment_key idempotency_state_done ttl s,
        kv_laws.set_done payment_key idempotency_state_done ttl payment_key s,
        eq_refl payment_key,
      )

  -- With every service up, a payment message whose key says done returns no error, with no effect on
  -- trips or broker.
  pub duplicate_payment_skipped :
      env.kv.lookup w.redis payment_key ≡ some idempotency_state_done
      → let r = handle_delivery env client msg w in
        (r.0 ≡ ok tt) × (r.1.trips ≡ w.trips) × (r.1.broker ≡ w.broker)
  unfolding handle_delivery consume_claimed
  duplicate_payment_skipped done = ground (
    arith,
    claim-verdict env.kv kv_laws env.digest payment_namespace msg
        payment_consumer_processed_message_ttl w.redis live.redis_up refl (omega arith),
  )
