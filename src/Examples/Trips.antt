-- ===== src/Examples/Trips.antt =====
-- The driver consumer at concrete inputs.
use mygo_microservices.Prelude.{
  String, ◌≡◌, ◌≢◌, refl, Bool, true, false, none, some, [], ◌++◌, ◌==◌, if◌then◌else◌, arith,
  is_empty, eq_refl,
}
use mygo_microservices.Go.{Error, external, panic, ok, err}
use mygo_microservices.Redis.{client}
use mygo_microservices.Contracts.{driver_cmd_trip_accept}
use mygo_microservices.Fake.RedisTable.{Table}
use mygo_microservices.Fake.Services.{deps, deps_laws}
use mygo_microservices.Messaging.Idempotency.{
  Delivery, message_key, idempotency_state_done, idempotency_state_processing,
}
use mygo_microservices.Trip.Domain.{RideFareModel, TripModel, Driver, pending, accepted, assign}
use mygo_microservices.Trip.World.{World, IsLive, trip_at, sent}
use mygo_microservices.Trip.DriverConsumer.{
  handle_trip_accepted, handle_delivery, release_trip_accept_lock, trip_accept_lock_key,
}
use mygo_microservices.Trip.DriverConsumer.Lock.{release_foreign}
use mygo_microservices.Trip.DriverConsumer.Accept.{announced}
use mygo_microservices.Trip.DriverConsumer.Outcome.{
  accept_assigns, late_accept_dropped, refused_announcement_lost,
}
use mygo_microservices.Trip.DriverConsumer.Idempotent.{
  duplicate_delivery_skipped, delivery_settles_key, consumer_namespace,
}

abbrev fare : RideFareModel
fare = record {
  id = "f-1";
  user_id = "rider-1";
  package_slug = "van";
  total_price_in_cents = 0;
  route = none;
}

abbrev waiting : TripModel
waiting = record {
  id = "a1";
  user_id = "rider-1";
  status = pending;
  ride_fare = some fare;
  driver = none;
}

abbrev taken : TripModel
taken = record waiting { status = accepted }

abbrev anna : Driver
anna = record { id = "driver-1"; name = "Anna"; profile_picture = ""; car_plate = "P" }

abbrev no_keys : Table
no_keys = record { cell = λ k. none; left = λ k. none; up = true }

abbrev one_key : String → String → Table
one_key k v = record { cell = λ j. if k == j then some v else none; left = λ j. none; up = true }

abbrev world : Table → TripModel → Bool → World deps
world redis t up = record {
  redis = redis;
  trips = λ id. some t;
  broker = record { messages = []; up = up };
}

live : (redis : Table) (t : TripModel) → redis.up ≡ true → IsLive deps (world redis t true)
live redis t up = record { redis_up = up; trips_up = tt; coherent = tt; broker_up = refl }

accept_assigns_example :
    let w = world no_keys waiting true in
    let r = handle_trip_accepted deps client "a1" (some anna) w in
    (r.0 ≡ ok tt)
    × (trip_at deps r.1 "a1" ≡ some (assign accepted (some anna) waiting))
    × (sent deps r.1 ≡ (sent deps w ++ announced waiting "a1" "a1"))
    × (r.1.redis.cell (trip_accept_lock_key "a1") ≡ none)
unfolding assign
accept_assigns_example =
    accept_assigns deps deps_laws "a1" anna waiting (world no_keys waiting true)
      (live no_keys waiting refl) refl refl refl fare "a1" "a1" refl refl refl refl refl

late_accept_dropped_example :
    let w = world no_keys taken true in
    let r = handle_trip_accepted deps client "a1" (some anna) w in
    (r.0 ≡ ok tt)
    × (sent deps r.1 ≡ sent deps w)
    × ((j : String) → trip_at deps r.1 j ≡ trip_at deps w j)
late_accept_dropped_example =
    late_accept_dropped deps deps_laws "a1" anna taken (world no_keys taken true)
      (live no_keys taken refl) refl refl refl refl

refused_announcement_lost_example :
    let w = world no_keys waiting false in
    let r = handle_trip_accepted deps client "a1" (some anna) w in
    (r.0 ≡ err (external "channel closed"))
    × (trip_at deps r.1 "a1" ≡ some (assign accepted (some anna) waiting))
    × (sent deps r.1 ≡ sent deps w)
    × ((d' : Driver) (w' : World deps)
        → IsLive deps w'
        → is_empty d'.id ≡ false
        → trip_at deps w' "a1" ≡ trip_at deps r.1 "a1"
        → let r' = handle_trip_accepted deps client "a1" (some d') w' in
          (r'.0 ≡ ok tt) × (sent deps r'.1 ≡ sent deps w'))
unfolding assign
refused_announcement_lost_example =
    refused_announcement_lost deps deps_laws "a1" anna waiting "a1" (external "channel closed")
      (world no_keys waiting false) refl tt tt refl refl refl refl refl refl refl

release_foreign_example :
    (release_trip_accept_lock deps client "a1" "driver-2"
        (one_key "trip:lock:a1" "driver-1")).1.cell
      (trip_accept_lock_key "a1")
    ≡ some "driver-1"
release_foreign_example =
    release_foreign deps deps_laws "a1" "driver-2" (one_key "trip:lock:a1" "driver-1") "driver-1"
      refl refl

abbrev accept_message : Delivery
accept_message = record { message_id = "m-1"; routing_key = driver_cmd_trip_accept; body = "a1" }

abbrev delivery_key : String
delivery_key = message_key deps.digest consumer_namespace accept_message

duplicate_delivery_skipped_example :
    let w = world (one_key delivery_key idempotency_state_done) taken true in
    let r = handle_delivery deps client accept_message w in
    (r.0 ≡ ok tt) × (r.1.trips ≡ w.trips) × (r.1.broker ≡ w.broker)
duplicate_delivery_skipped_example =
    duplicate_delivery_skipped deps deps_laws accept_message
      (world (one_key delivery_key idempotency_state_done) taken true) refl
      (ground (arith, eq_refl delivery_key))

delivery_settles_key_example :
    let r = handle_delivery deps client accept_message (world no_keys waiting true) in
    (r.0 ≡ ok tt → r.1.redis.cell delivery_key ≡ some idempotency_state_done)
    × ((e : Error) → e ≢ panic → r.0 ≡ err e → r.1.redis.cell delivery_key ≡ none)
    × (r.0 ≡ err panic → r.1.redis.cell delivery_key ≡ some idempotency_state_processing)
delivery_settles_key_example =
    delivery_settles_key deps deps_laws accept_message (world no_keys waiting true) refl refl
