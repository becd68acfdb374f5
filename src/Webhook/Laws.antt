-- ===== src/Webhook/Laws.antt =====
-- What Stripe's redelivery of one event does.
use mygo_microservices.Prelude.{
  String, ◌≡◌, true, false, none, [], ◌∷◌, ◌++◌, ◌==◌, is_empty, arith,
}
use mygo_microservices.Go.{Error, ok, err}
use mygo_microservices.Redis.{KvLaws, client}
use mygo_microservices.Contracts.{AmqpMessage, payment_event_success}
use mygo_microservices.Messaging.Publish.{PublisherLaws}
use mygo_microservices.Webhook.{
  StripeEvent, CheckoutSession, value_at, payload_of, Response, WebhookDeps, WebhookWorld,
  status_ok, stripe_webhook_idempotency_ttl, stripe_event_key, mark_stripe_webhook_event_processed,
  publish_response, publish_payload, checkout_completed, after_mark, handle_event,
  handle_stripe_webhook,
}

module _ (env : WebhookDeps) (kv_laws : KvLaws env.kv) (bus_laws : PublisherLaws env.bus)
    (key body signature : String) (event : StripeEvent) (checkout : CheckoutSession)
    (content : String) (keyed : is_empty key ≡ false) (named : is_empty event.id ≡ false)
    (checked : env.construct_event body signature key ≡ ok event)
    (finished : (event.kind == "checkout.session.completed") ≡ true)
    (session : env.session_of event.raw ≡ ok checkout)
    (marshalled : env.status_json.encode (record {
      trip_id = value_at "trip_id" checkout.metadata;
      user_id = value_at "user_id" checkout.metadata;
      driver_id = value_at "driver_id" checkout.metadata;
    })
      ≡ ok content)
    (w : WebhookWorld env) (up : env.kv.IsUp w.redis)
    (fresh : env.kv.lookup w.redis (stripe_event_key event.id) ≡ none) where
  abbrev pub answer : WebhookWorld env → Response × WebhookWorld env
  answer = handle_stripe_webhook env client key (ok body) signature

  abbrev paid : AmqpMessage
  paid = record { owner_id = value_at "user_id" checkout.metadata; content = content }

  abbrev marked : env.kv.State
  marked = (env.kv.set_nx (stripe_event_key event.id) "1" stripe_webhook_idempotency_ttl w.redis).1

  first_answer :
      ((answer w).0 ≡ publish_response env (env.bus.publish payment_event_success paid w.broker).0)
      × ((answer w).1.redis ≡ marked)
      × ((answer w).1.broker ≡ (env.bus.publish payment_event_success paid w.broker).1)
  unfolding handle_stripe_webhook handle_event mark_stripe_webhook_event_processed after_mark
      checkout_completed publish_payload payload_of
  first_answer = ground (
    arith,
    keyed,
    named,
    checked,
    finished,
    session,
    marshalled,
    fresh,
    kv_laws.up_set_nx (stripe_event_key event.id) "1" stripe_webhook_idempotency_ttl w.redis up,
  )

  again :
      (v : WebhookWorld env)
      → v.redis ≡ marked
      → ((answer v).0 ≡ status_ok) × ((answer v).1.broker ≡ v.broker)
  unfolding handle_stripe_webhook handle_event mark_stripe_webhook_event_processed after_mark
  again v same =
      let k : String = stripe_event_key event.id in
      ground (
        arith,
        keyed,
        named,
        checked,
        same,
        fresh,
        kv_laws.up_set_nx k "1" stripe_webhook_idempotency_ttl w.redis up,
        kv_laws.set_nx_won k "1" stripe_webhook_idempotency_ttl w.redis,
        kv_laws.set_nx-IsUp k "1" stripe_webhook_idempotency_ttl w.redis up,
        kv_laws.up_set_nx k "1" stripe_webhook_idempotency_ttl marked,
      )

  -- With Redis and the broker up, a checked, marshallable event of a finished checkout that Redis has
  -- not seen is answered with 200 and published once; the same event again is answered with 200 and
  -- publishes nothing more.
  pub webhook_once :
      env.bus.IsUp w.broker
      → let (r, w') = answer w in
        (r ≡ status_ok)
        × (env.bus.sent w'.broker ≡ env.bus.sent w.broker ++ (payment_event_success, paid) ∷ [])
        × ((answer w').0 ≡ status_ok)
        × ((answer w').1.broker ≡ w'.broker)
  unfolding publish_response
  webhook_once bus_up =
      let first = first_answer in
      let sent = bus_laws.publish_ok payment_event_success paid w.broker in
      let done = bus_laws.up_publish_ok payment_event_success paid w.broker bus_up in
      let second = again (answer w).1 first.1 in
      (ground (arith, first.0, done), ground (arith, first.2, sent, done), second.0, second.1)

  -- With Redis up, the same event whose publication the broker refuses is answered with 500 and sends
  -- nothing; but it stays marked, so when Stripe delivers it again, whatever the broker then does, it
  -- is answered with 200 and nothing is published: the payment is lost.
  pub refused_payment_lost :
      (e : Error) (broker : env.bus.State)
      → (env.bus.publish payment_event_success paid w.broker).0 ≡ err e
      → let (r, w') = answer w in
        let (r', w'') = answer (record w' { broker = broker }) in
        (r.status ≡ 500)
        × (env.bus.sent w'.broker ≡ env.bus.sent w.broker)
        × (r' ≡ status_ok)
        × (w''.broker ≡ broker)
  unfolding publish_response
  refused_payment_lost e broker refused =
      let first = first_answer in
      let none_sent = bus_laws.publish_err payment_event_success paid w.broker e refused in
      let second = again (record (answer w).1 { broker = broker }) first.1 in
      (ground (arith, first.0, refused), ground (arith, first.2, none_sent), second.0, second.1)
