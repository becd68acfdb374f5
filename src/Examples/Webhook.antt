-- ===== src/Examples/Webhook.antt =====
-- The Stripe webhook at concrete inputs.
use mygo_microservices.Prelude.{◌≡◌, refl, true, false, none, [], ◌∷◌, ◌++◌}
use mygo_microservices.Go.{external, ok}
use mygo_microservices.Redis.{client}
use mygo_microservices.Contracts.{payment_event_success}
use mygo_microservices.Fake.RedisTable.{table_kv, table_laws}
use mygo_microservices.Fake.Services.{Outbox, outbox, outbox_laws}
use mygo_microservices.Trip.World.{PaymentStatusUpdateData}
use mygo_microservices.Webhook.{
  StripeEvent, CheckoutSession, value_at, Response, WebhookDeps, WebhookWorld, status_ok,
  handle_stripe_webhook,
}
use mygo_microservices.Webhook.Laws.{webhook_once, refused_payment_lost}

abbrev event : StripeEvent
event = record { id = "evt_1"; kind = "checkout.session.completed"; raw = "a1" }

abbrev payload : PaymentStatusUpdateData
payload = record { trip_id = "a1"; user_id = "rider-1"; driver_id = "driver-1" }

abbrev checkout : CheckoutSession
checkout = record {
  metadata = ("trip_id", "a1") ∷ ("driver_id", "driver-1") ∷ ("user_id", "rider-1") ∷ [];
}

abbrev webhook_deps : WebhookDeps
webhook_deps = record {
  kv = table_kv;
  bus = outbox;
  construct_event = λ body signature key. ok event;
  session_of = λ raw. ok checkout;
  status_json = record { encode = λ p. ok p.trip_id; decode = λ text. ok payload };
}

abbrev open_outbox : Outbox
open_outbox = record { messages = []; up = true }

abbrev closed_outbox : Outbox
closed_outbox = record { messages = []; up = false }

abbrev world : Outbox → WebhookWorld webhook_deps
world broker = record {
  redis = record { cell = λ k. none; left = λ k. none; up = true };
  broker = broker;
}

abbrev post : WebhookWorld webhook_deps → Response × WebhookWorld webhook_deps
post = handle_stripe_webhook webhook_deps client "key" (ok "body") "signature"

webhook_once_example :
    let (r, w') = post (world open_outbox) in
    (r ≡ status_ok)
    × (w'.broker.messages
        ≡ [] ++ (payment_event_success, record { owner_id = "rider-1"; content = "a1" }) ∷ [])
    × ((post w').0 ≡ status_ok)
    × ((post w').1.broker ≡ w'.broker)
unfolding value_at
webhook_once_example =
    webhook_once webhook_deps table_laws outbox_laws "key" "body" "signature" event checkout "a1"
      refl refl refl refl refl refl (world open_outbox) refl refl refl

refused_payment_lost_example :
    let (r, w') = post (world closed_outbox) in
    let (r', w'') = post (record w' { broker = open_outbox }) in
    (r.status ≡ 500) × (w'.broker.messages ≡ []) × (r' ≡ status_ok) × (w''.broker ≡ open_outbox)
unfolding value_at
refused_payment_lost_example =
    refused_payment_lost webhook_deps table_laws outbox_laws "key" "body" "signature" event checkout
      "a1" refl refl refl refl refl refl (world closed_outbox) refl refl (external "channel closed")
      open_outbox refl
