-- ===== src/Trip/DriverConsumer.antt =====
-- services/trip-service/internal/infrastructure/events/driver_consumer.go: the accept lock, the two
-- handlers and the consumer. A timeout of `unlockCtx` is one more way for the release to fail.
pub mod Lock
pub mod Accept
pub mod Outcome
pub mod Idempotent
use mygo_microservices.Prelude.{
  ℕ, ◌*◌, String, ◌<>◌, Bool, true, false, not, Option, none, some, ◌==◌, if◌then◌else◌, is_empty,
}
use mygo_microservices.Go.{
  Error, nil_reply, message, panic, Result, ok, err, Exec, pure, fail, lift, attempt, ignore,
  with_defer, ◌>>=◌, ◌>>◌,
}
use mygo_microservices.Redis.{Client, is_nil}
use mygo_microservices.Contracts.{
  AmqpMessage, trip_event_driver_assigned, trip_event_driver_not_interested,
  payment_cmd_create_session, driver_cmd_trip_accept, driver_cmd_trip_decline,
}
use mygo_microservices.Messaging.Idempotency.{
  Delivery, MessageProcessClaim, claim_message_for_processing, mark_message_processed,
  release_message_processing,
}
use mygo_microservices.Trip.Domain.{RideFareModel, TripModel, Driver, converts, pending, accepted}
use mygo_microservices.Trip.World.{
  Deps, World, DriverTripResponseData, PaymentTripResponseData, on_redis, on_trips, on_broker,
}

-- 30 * time.Second
abbrev pub trip_accept_lock_ttl : ℕ
trip_accept_lock_ttl = 30 * 1000000000

-- 10 * time.Minute
abbrev pub driver_consumer_processed_message_ttl : ℕ
driver_consumer_processed_message_ttl = 600 * 1000000000

abbrev pub trip_accept_lock_key : String → String
trip_accept_lock_key trip_id = "trip:lock:" <> trip_id

-- Whether the goroutine has left through a panic, after which only deferred calls run.
abbrev pub is_panic : Error → Bool
is_panic panic = true
is_panic e = false

-- `driver.GetId()` of a pointer that may be nil
abbrev pub get_id : Option Driver → String
get_id none = ""
get_id (some d) = d.id

module _ (env : Deps) where
  open env use {kv, svc, bus}

  -- The rest of the script, after GET; no reply is not equal to any owner.
  compare_and_delete : String → String → Result String → Exec kv.State Bool
  compare_and_delete key owner (ok v) = if v == owner then (kv.del key >> pure true) else pure false
  compare_and_delete key owner (err nil_reply) = pure false
  compare_and_delete key owner (err e) = fail e

  -- `tripAcceptUnlockScript`, which the server runs as one step.
  trip_accept_unlock_script : String → String → Exec kv.State Bool
  trip_accept_unlock_script key owner = attempt (kv.get key) >>= compare_and_delete key owner

  pub try_acquire_trip_accept_lock : Client → String → String → Exec kv.State Bool
  try_acquire_trip_accept_lock redis trip_id driver_id =
      if is_nil redis
      then fail (message "redis client is required for trip accept lock")
      else if is_empty trip_id
      then fail (message "tripID is required")
      else if is_empty driver_id
      then fail (message "driverID is required")
      else kv.set_nx (trip_accept_lock_key trip_id) driver_id trip_accept_lock_ttl

  pub release_trip_accept_lock : Client → String → String → Exec kv.State Bool
  release_trip_accept_lock redis trip_id driver_id =
      if is_nil redis
      then fail (message "redis client is required for trip accept unlock")
      else if is_empty trip_id
      then fail (message "tripID is required")
      else if is_empty driver_id
      then fail (message "driverID is required")
      else trip_accept_unlock_script (trip_accept_lock_key trip_id) driver_id

  -- The error of `json.Marshal` is overwritten before it is read; the bytes are then nil.
  payment_content : Result String → String
  payment_content (ok t) = t
  payment_content (err e) = ""

  -- The payment command of a trip. A nil fare is followed after the first message has gone out.
  charge_rider : String → String → TripModel → Option RideFareModel → Exec (World env) (Unit {0})
  charge_rider trip_id driver_id trip none = fail panic
  charge_rider trip_id driver_id trip (some fare) =
      let payload : PaymentTripResponseData = record {
        trip_id = trip_id;
        user_id = trip.user_id;
        driver_id = driver_id;
        amount = fare.total_price_in_cents;
        currency = "USD";
      } in
      on_broker env (
        bus.publish payment_cmd_create_session (record {
          owner_id = trip.user_id;
          content = payment_content (env.payment_json.encode payload);
        }))

  -- The two messages of a trip that has a driver.
  pub announce : String → String → TripModel → Exec (World env) (Unit {0})
  announce trip_id driver_id trip = do
    marshalled_trip ← lift (env.trip_json.encode trip)
    on_broker env (
        bus.publish trip_event_driver_assigned
          (record { owner_id = trip.user_id; content = marshalled_trip }))
    charge_rider trip_id driver_id trip trip.ride_fare

  announce_found : String → String → Option TripModel → Exec (World env) (Unit {0})
  announce_found trip_id driver_id none = fail panic
  announce_found trip_id driver_id (some trip) = announce trip_id driver_id trip

  -- The part of `handleTripAccepted` from the status guard on.
  pub assign_driver : String → Option Driver → TripModel → Exec (World env) (Unit {0})
  assign_driver trip_id driver trip = if not (trip.status == pending) then pure tt else do
    on_trips env (svc.update_trip trip_id accepted driver)
    found ← on_trips env (svc.get_trip_by_id trip_id)
    announce_found trip_id (get_id driver) found

  assign_found : String → Option Driver → Option TripModel → Exec (World env) (Unit {0})
  assign_found trip_id driver none = fail (message ("Trip was not found " <> trip_id))
  assign_found trip_id driver (some trip) = assign_driver trip_id driver trip

  -- What runs while the lock is held.
  pub accept_locked : String → Option Driver → Exec (World env) (Unit {0})
  accept_locked trip_id driver = do
    found ← on_trips env (svc.get_trip_by_id trip_id)
    assign_found trip_id driver found

  pub handle_trip_accepted : Client → String → Option Driver → Exec (World env) (Unit {0})
  handle_trip_accepted redis trip_id driver = do
    acquired ← on_redis env (try_acquire_trip_accept_lock redis trip_id (get_id driver))
    if not acquired
        then pure tt
        else (with_defer (on_redis env (release_trip_accept_lock redis trip_id (get_id driver)))
            (accept_locked trip_id driver))

  offer_again : String → TripModel → Exec (World env) (Unit {0})
  offer_again rider_id trip = if not (converts trip.ride_fare) then fail panic else do
    marshalled ← lift (env.event_json.encode trip)
    on_broker env (
        bus.publish trip_event_driver_not_interested
          (record { owner_id = rider_id; content = marshalled }))

  decline_found : String → Option TripModel → Exec (World env) (Unit {0})
  decline_found rider_id none = fail panic
  decline_found rider_id (some trip) = offer_again rider_id trip

  pub handle_trip_declined : String → String → Exec (World env) (Unit {0})
  handle_trip_declined trip_id rider_id = do
    found ← on_trips env (svc.get_trip_by_id trip_id)
    decline_found rider_id found

  -- Without a driver in the payload, or with one that has no identifier, the owner is the driver.
  pub resolve_driver : AmqpMessage → DriverTripResponseData → Option Driver
  resolve_driver m payload =
      if is_empty (get_id payload.driver)
      then some (record { id = m.owner_id; name = ""; profile_picture = ""; car_plate = "" })
      else payload.driver

  -- After a failure the claim is released, and the failure is returned. A panic passes by.
  unfoldable pub or_release :
      Client → String → Exec (World env) (Unit {0}) → Exec (World env) (Unit {0})
  or_release redis key m w =
      let (r, w') = m w in
      elim r [
        | ok u ↦ (ok tt, w')
        | err e ↦
            if is_panic e
            then (err e, w')
            else (ignore (on_redis env (release_message_processing kv redis key)) >> fail e) w'
      ]

  -- The `switch` on the routing key; what it does not know is logged and counts as handled.
  pub dispatch :
      Client → String → AmqpMessage → DriverTripResponseData → Exec (World env) (Unit {0})
  dispatch redis routing_key m payload =
      if routing_key == driver_cmd_trip_accept
      then handle_trip_accepted redis payload.trip_id (resolve_driver m payload)
      else if routing_key == driver_cmd_trip_decline
      then handle_trip_declined payload.trip_id payload.rider_id
      else pure tt

  -- Both `json.Unmarshal` calls and the `switch`.
  pub handle_message : Client → Delivery → Exec (World env) (Unit {0})
  handle_message redis msg = do
    m ← lift (env.amqp_json.decode msg.body)
    payload ← lift (env.response_json.decode m.content)
    dispatch redis msg.routing_key m payload

  pub consume_claimed : Client → Delivery → MessageProcessClaim → Exec (World env) (Unit {0})
  consume_claimed redis msg claim = if claim.already_processed then pure tt else do
    or_release redis claim.key (handle_message redis msg)
    on_redis env (mark_message_processed kv redis claim.key driver_consumer_processed_message_ttl)

  -- The handler that `Listen` passes to `ConsumeMessages`.
  pub handle_delivery : Client → Delivery → Exec (World env) (Unit {0})
  handle_delivery redis msg = do
    claim ← on_redis env (
        claim_message_for_processing kv env.digest redis "trip-service:driver-consumer" msg
          driver_consumer_processed_message_ttl)
    consume_claimed redis msg claim
