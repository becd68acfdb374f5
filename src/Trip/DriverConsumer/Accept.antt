-- ===== src/Trip/DriverConsumer/Accept.antt =====
-- What `handleTripAccepted` does to a trip, on the branches that matter.
use mygo_microservices.Prelude.{
  String, ◌≡◌, refl, Bool, false, none, some, Option, ◌==◌, is_empty, arith, List, [], ◌∷◌, ◌++◌,
  eq_iff,
}
use mathlib.Core.List.{append_assoc}
use mygo_microservices.Go.{Error, Result, ok, err}
use mygo_microservices.Go.Frame.{Keeps, keeps_rules}
use mygo_microservices.Trip.Frames.{RedisIs, TripsAre, frame_rules}
use mygo_microservices.Redis.{client}
use mygo_microservices.Contracts.{
  AmqpMessage, trip_event_driver_assigned, payment_cmd_create_session,
}
use mygo_microservices.Trip.Domain.{
  RideFareModel, TripModel, Driver, pending, accepted, assign, updated, movable,
}
use mygo_microservices.Trip.World.{
  Deps, DepsLaws, World, IsLive, trip_at, sent, PaymentTripResponseData,
}
use mygo_microservices.Trip.DriverConsumer.{
  charge_rider, announce, announce_found, assign_driver, assign_found, accept_locked,
  handle_trip_accepted, payment_content, trip_accept_lock_key, try_acquire_trip_accept_lock,
}
use mygo_microservices.Trip.DriverConsumer.Lock.{acquire_free, acquire_taken, release_owned}

-- The payment command of a trip.
abbrev pub charge : String → String → TripModel → RideFareModel → PaymentTripResponseData
charge trip_id driver_id t fare = record {
  trip_id = trip_id;
  user_id = t.user_id;
  driver_id = driver_id;
  amount = fare.total_price_in_cents;
  currency = "USD";
}

-- The two messages about a trip that has been assigned, to its rider.
abbrev pub announced : TripModel → String → String → List (String × AmqpMessage)
announced t content payment =
    (trip_event_driver_assigned, record { owner_id = t.user_id; content = content })
    ∷ (payment_cmd_create_session, record { owner_id = t.user_id; content = payment })
    ∷ []

module _ (env : Deps) (trip_id driver_id : String) (w : World env) where
  abbrev pub acquire : Result Bool × env.kv.State
  acquire = try_acquire_trip_accept_lock env client trip_id driver_id w.redis

  -- The world in which the handler works while it holds the lock.
  abbrev pub locked : World env
  locked = record w { redis = acquire.1 }

module _ (env : Deps) (laws : DepsLaws env) where
  open laws use {kv_laws, svc_laws, bus_laws}

  charge_rider-RedisIs :
      (r : env.kv.State) (trip_id driver_id : String) (t : TripModel) (o : Option RideFareModel)
      → Keeps (RedisIs env r) (charge_rider env trip_id driver_id t o)
  unfolding charge_rider
  charge_rider-RedisIs r trip_id driver_id t none = search keeps_rules
  charge_rider-RedisIs r trip_id driver_id t (some f) = search (keeps_rules, frame_rules)

  charge_rider-TripsAre :
      (s : env.svc.State) (trip_id driver_id : String) (t : TripModel) (o : Option RideFareModel)
      → Keeps (TripsAre env s) (charge_rider env trip_id driver_id t o)
  unfolding charge_rider
  charge_rider-TripsAre s trip_id driver_id t none = search keeps_rules
  charge_rider-TripsAre s trip_id driver_id t (some f) = search (keeps_rules, frame_rules)

  -- Nothing under the lock touches Redis.
  announce-RedisIs :
      (r : env.kv.State) (trip_id driver_id : String) (t : TripModel)
      → Keeps (RedisIs env r) (announce env trip_id driver_id t)
  unfolding announce
  announce-RedisIs r trip_id driver_id t = search (keeps_rules, frame_rules, charge_rider-RedisIs)

  announce-TripsAre :
      (s : env.svc.State) (trip_id driver_id : String) (t : TripModel)
      → Keeps (TripsAre env s) (announce env trip_id driver_id t)
  unfolding announce
  announce-TripsAre s trip_id driver_id t = search (keeps_rules, frame_rules, charge_rider-TripsAre)

  announce_found-RedisIs :
      (r : env.kv.State) (trip_id driver_id : String) (o : Option TripModel)
      → Keeps (RedisIs env r) (announce_found env trip_id driver_id o)
  unfolding announce_found
  announce_found-RedisIs r trip_id driver_id none = search keeps_rules
  announce_found-RedisIs r trip_id driver_id (some t) = announce-RedisIs r trip_id driver_id t

  assign_found-RedisIs :
      (r : env.kv.State) (trip_id : String) (d : Option Driver) (o : Option TripModel)
      → Keeps (RedisIs env r) (assign_found env trip_id d o)
  unfolding assign_found assign_driver
  assign_found-RedisIs r trip_id d none = search keeps_rules
  assign_found-RedisIs r trip_id d (some t) =
      search (keeps_rules, frame_rules, announce_found-RedisIs)

  pub accept_locked-RedisIs :
      (r : env.kv.State) (trip_id : String) (d : Option Driver)
      → Keeps (RedisIs env r) (accept_locked env trip_id d)
  unfolding accept_locked
  accept_locked-RedisIs r trip_id d = search (keeps_rules, frame_rules, assign_found-RedisIs)

  -- A trip that is no longer pending is left alone.
  pub accept_locked_late :
      (trip_id : String) (d : Option Driver) (t : TripModel) (w : World env)
      → IsLive env w
      → trip_at env w trip_id ≡ some t
      → (t.status == pending) ≡ false
      → let r = accept_locked env trip_id d w in
        (r.0 ≡ ok tt)
        × (sent env r.1 ≡ sent env w)
        × ((j : String) → trip_at env r.1 j ≡ trip_at env w j)
  unfolding accept_locked assign_found assign_driver
  accept_locked_late trip_id d t w live e late = (
    ground (arith, svc_laws.up_get trip_id w.trips t),
    ground (arith, svc_laws.up_get trip_id w.trips t),
    λ j. ground (arith, svc_laws.up_get trip_id w.trips t, svc_laws.get_keeps trip_id j w.trips),
  )

  -- Both messages go out while the broker is up.
  announce_sends :
      (trip_id driver_id : String) (t : TripModel) (fare : RideFareModel) (content payment : String)
      (w : World env)
      → t.ride_fare ≡ some fare
      → env.bus.IsUp w.broker
      → env.trip_json.encode t ≡ ok content
      → env.payment_json.encode (charge trip_id driver_id t fare) ≡ ok payment
      → let r = announce env trip_id driver_id t w in
        (r.0 ≡ ok tt) × (sent env r.1 ≡ sent env w ++ announced t content payment)
  unfolding announce charge_rider payment_content
  announce_sends trip_id driver_id t fare content payment w priced up e q =
      let m₁ : AmqpMessage = record { owner_id = t.user_id; content = content } in
      let m₂ : AmqpMessage = record { owner_id = t.user_id; content = payment } in
      let b : env.bus.State = (env.bus.publish trip_event_driver_assigned m₁ w.broker).1 in
      ground (
        arith,
        bus_laws.up_publish_ok trip_event_driver_assigned m₁ w.broker up,
        bus_laws.up_publish trip_event_driver_assigned m₁ w.broker up,
        bus_laws.publish_ok trip_event_driver_assigned m₁ w.broker,
        bus_laws.up_publish_ok payment_cmd_create_session m₂ b,
        bus_laws.publish_ok payment_cmd_create_session m₂ b,
        append_assoc (sent env w) ((trip_event_driver_assigned, m₁) ∷ [])
            ((payment_cmd_create_session, m₂) ∷ []),
      )

  -- Where the first message is refused, the trip has its driver and nobody is told.
  pub accept_locked_untold :
      (trip_id : String) (d : Driver) (t : TripModel) (content : String) (e : Error) (w : World env)
      → env.svc.IsUp w.trips
      → env.svc.IsCoherent w.trips
      → trip_at env w trip_id ≡ some t
      → t.status ≡ pending
      → env.trip_json.encode (assign accepted (some d) t) ≡ ok content
      → (env.bus.publish trip_event_driver_assigned
          (record { owner_id = t.user_id; content = content })
          w.broker).0
        ≡ err e
      → let r = accept_locked env trip_id (some d) w in
        (r.0 ≡ err e)
        × (trip_at env r.1 trip_id ≡ some (assign accepted (some d) t))
        × (sent env r.1 ≡ sent env w)
  unfolding accept_locked assign_found assign_driver announce_found announce movable updated
  accept_locked_untold trip_id d t content x w up coherent e p c q =
      let t' : TripModel = assign accepted (some d) t in
      let s₁ : env.svc.State = (env.svc.get_trip_by_id trip_id w.trips).1 in
      let s₂ : env.svc.State = (env.svc.update_trip trip_id accepted (some d) s₁).1 in
      ground (
        arith,
        eq_iff t.status pending,
        svc_laws.view-IsId trip_id w.trips t,
        svc_laws.up_get trip_id w.trips t,
        svc_laws.get_keeps trip_id trip_id w.trips,
        svc_laws.get-IsUp trip_id w.trips,
        svc_laws.get-IsCoherent trip_id w.trips,
        svc_laws.up_update trip_id accepted (some d) s₁,
        svc_laws.update_ok trip_id accepted (some d) s₁,
        svc_laws.update-IsUp trip_id accepted (some d) s₁,
        svc_laws.update-IsCoherent trip_id accepted (some d) s₁,
        svc_laws.up_get trip_id s₂ t',
        svc_laws.get_keeps trip_id trip_id s₂,
        bus_laws.publish_err trip_event_driver_assigned
            (record { owner_id = t.user_id; content = content }) w.broker x,
      )

  pub accept_locked_assigns :
      (trip_id : String) (d : Driver) (t : TripModel) (fare : RideFareModel)
      (content payment : String) (w : World env)
      → t.ride_fare ≡ some fare
      → IsLive env w
      → trip_at env w trip_id ≡ some t
      → t.status ≡ pending
      → env.trip_json.encode (assign accepted (some d) t) ≡ ok content
      → env.payment_json.encode (charge trip_id d.id t fare) ≡ ok payment
      → let r = accept_locked env trip_id (some d) w in
        (r.0 ≡ ok tt)
        × (trip_at env r.1 trip_id ≡ some (assign accepted (some d) t))
        × (sent env r.1 ≡ (sent env w ++ announced t content payment))
  unfolding accept_locked assign_found assign_driver announce_found movable updated
  accept_locked_assigns trip_id d t fare content payment w priced live e p c q =
      let t' : TripModel = assign accepted (some d) t in
      let s₁ : env.svc.State = (env.svc.get_trip_by_id trip_id w.trips).1 in
      let s₂ : env.svc.State = (env.svc.update_trip trip_id accepted (some d) s₁).1 in
      let s₃ : env.svc.State = (env.svc.get_trip_by_id trip_id s₂).1 in
      let w₃ : World env = record w { trips = s₃ } in
      ground (
        arith,
        eq_iff t.status pending,
        svc_laws.view-IsId trip_id w.trips t,
        svc_laws.up_get trip_id w.trips t,
        svc_laws.get_keeps trip_id trip_id w.trips,
        svc_laws.get-IsUp trip_id w.trips,
        svc_laws.get-IsCoherent trip_id w.trips,
        svc_laws.up_update trip_id accepted (some d) s₁,
        svc_laws.update_ok trip_id accepted (some d) s₁,
        svc_laws.update-IsUp trip_id accepted (some d) s₁,
        svc_laws.update-IsCoherent trip_id accepted (some d) s₁,
        svc_laws.up_get trip_id s₂ t',
        svc_laws.get_keeps trip_id trip_id s₂,
        announce_sends trip_id d.id t' fare content payment w₃,
        (announce-TripsAre s₃ trip_id d.id t').after w₃ refl,
      )

  module _ (trip_id : String) (d : Driver) (w : World env) (up : env.kv.IsUp w.redis)
      (trip_named : is_empty trip_id ≡ false) (driver_named : is_empty d.id ≡ false) where
    -- With the lock free, the handler returns what the locked part returns, leaves the lock free,
    -- and changes nothing else behind the locked part's back.
    pub accept_free :
        env.kv.lookup w.redis (trip_accept_lock_key trip_id) ≡ none
        → let r = handle_trip_accepted env client trip_id (some d) w in
          let b = accept_locked env trip_id (some d) (locked env trip_id d.id w) in
          (r.0 ≡ b.0)
          × (r.1.trips ≡ b.1.trips)
          × (r.1.broker ≡ b.1.broker)
          × (env.kv.lookup r.1.redis (trip_accept_lock_key trip_id) ≡ none)
    unfolding handle_trip_accepted
    accept_free free =
        let s : env.kv.State = (acquire env trip_id d.id w).1 in
        ground (
          arith,
          acquire_free env laws trip_id d.id w.redis,
          (accept_locked-RedisIs s trip_id (some d)).after (locked env trip_id d.id w) refl,
          release_owned env laws trip_id d.id s,
        )

    pub accept_taken :
        (v : String)
        → env.kv.lookup w.redis (trip_accept_lock_key trip_id) ≡ some v
        → let r = handle_trip_accepted env client trip_id (some d) w in
          (r.0 ≡ ok tt) × (r.1.trips ≡ w.trips) × (r.1.broker ≡ w.broker)
    unfolding handle_trip_accepted
    accept_taken v held = ground (arith, acquire_taken env laws trip_id d.id w.redis v)
