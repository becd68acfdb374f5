-- ===== src/Examples/Payments.antt =====
-- The two consumers of payment messages at concrete inputs.
use mygo_microservices.Prelude.{
  ℕ, suc, String, ◌≡◌, refl, true, none, some, [], ◌∷◌, ◌++◌, ◌==◌, if◌then◌else◌,
}
use mygo_microservices.Go.{message, ok, err}
use mygo_microservices.Redis.{client}
use mygo_microservices.Contracts.{
  payment_cmd_create_session, payment_event_session_created, payment_event_success,
}
use mygo_microservices.Fake.RedisTable.{Table, table_kv, table_laws}
use mygo_microservices.Fake.Services.{Outbox, outbox, outbox_laws, deps, trips_in_memory_laws}
use mygo_microservices.Messaging.Idempotency.{Delivery, message_key, idempotency_state_done}
use mygo_microservices.Trip.Domain.{RideFareModel, TripModel, accepted, payed}
use mygo_microservices.Trip.World.{
  Deps, DepsLaws, World, IsLive, PaymentStatusUpdateData, PaymentTripResponseData, trip_at, sent,
}
use mygo_microservices.Trip.PaymentConsumer
use mygo_microservices.Trip.PaymentConsumer.Laws.{payment_namespace, payment_pays}
use mygo_microservices.Payments.{PaymentDeps, PaymentWorld}
use mygo_microservices.Payments
use mygo_microservices.Payments.Laws.{session_announced}

abbrev paying_deps : Deps
paying_deps = record deps {
  status_json = record {
    encode = λ p. ok p.trip_id;
    decode = λ text. ok (record { trip_id = text; user_id = "rider-1"; driver_id = "driver-1" });
  };
}

paying_deps_laws : DepsLaws paying_deps
paying_deps_laws = record {
  kv_laws = table_laws;
  svc_laws = trips_in_memory_laws;
  bus_laws = outbox_laws;
}

abbrev fare : RideFareModel
fare = record {
  id = "f-1";
  user_id = "rider-1";
  package_slug = "van";
  total_price_in_cents = 0;
  route = none;
}

abbrev taken : TripModel
taken = record {
  id = "a1";
  user_id = "rider-1";
  status = accepted;
  ride_fare = some fare;
  driver = none;
}

abbrev no_keys : Table
no_keys = record { cell = λ k. none; left = λ k. none; up = true }

abbrev one_key : String → String → Table
one_key k v = record { cell = λ j. if k == j then some v else none; left = λ j. none; up = true }

abbrev empty_outbox : Outbox
empty_outbox = record { messages = []; up = true }

abbrev world : Table → World paying_deps
world redis = record { redis = redis; trips = λ id. some taken; broker = empty_outbox }

live : (redis : Table) → redis.up ≡ true → IsLive paying_deps (world redis)
live redis up = record { redis_up = up; trips_up = tt; coherent = tt; broker_up = refl }

abbrev success : Delivery
success = record { message_id = "m-2"; routing_key = payment_event_success; body = "a1" }

abbrev success_key : String
success_key = message_key paying_deps.digest payment_namespace success

abbrev status_of_a1 : PaymentStatusUpdateData
status_of_a1 = record { trip_id = "a1"; user_id = "rider-1"; driver_id = "driver-1" }

payment_pays_example :
    let r = PaymentConsumer.handle_delivery paying_deps client success (world no_keys) in
    (r.0 ≡ ok tt)
    × (trip_at paying_deps r.1 "a1" ≡ some (record taken { status = payed }))
    × (sent paying_deps r.1 ≡ sent paying_deps (world no_keys))
    × (r.1.redis.cell success_key ≡ some idempotency_state_done)
payment_pays_example =
    payment_pays paying_deps paying_deps_laws success (world no_keys) (live no_keys refl)
      (record { owner_id = "driver-1"; content = "a1" }) status_of_a1 taken refl refl refl refl

abbrev request_of : String → PaymentTripResponseData
request_of id = record {
  trip_id = id;
  user_id = "rider-1";
  driver_id = "driver-1";
  amount = 700;
  currency = "USD";
}

-- Stripe counts its sessions.
abbrev payment_deps : PaymentDeps
payment_deps = record {
  kv = table_kv;
  processor = record {
    State = ℕ;
    create_payment_session = λ amount currency metadata n. (ok "cs_1", suc n);
  };
  bus = outbox;
  digest = λ text. text;
  library = λ e. "i/o timeout";
  new_uuid = "uuid";
  now = 0;
  to_int64 = λ x. x;
  in_dollars = λ n. n;
  amqp_json = deps.amqp_json;
  request_json = record { encode = λ p. ok p.trip_id; decode = λ text. ok (request_of text) };
  created_json = record {
    encode = λ p. ok p.session_id;
    decode = λ text. err (message "not an event");
  };
}

abbrev payment_world : Table → PaymentWorld payment_deps
payment_world redis = record { redis = redis; stripe = 0; broker = empty_outbox }

abbrev command : Delivery
command = record { message_id = "m-3"; routing_key = payment_cmd_create_session; body = "a1" }

abbrev command_key : String
command_key = message_key payment_deps.digest Payments.payment_namespace command

session_announced_example :
    let r = Payments.handle_delivery payment_deps client command (payment_world no_keys) in
    (r.0 ≡ ok tt)
    × (r.1.broker.messages
        ≡ []
          ++ (payment_event_session_created, record { owner_id = "rider-1"; content = "cs_1" })
            ∷ [])
    × (r.1.redis.cell command_key ≡ some idempotency_state_done)
session_announced_example =
    session_announced payment_deps table_laws outbox_laws command (payment_world no_keys) refl
      (record { owner_id = "driver-1"; content = "a1" }) (request_of "a1") "cs_1" "cs_1" refl refl
      refl refl refl refl refl
