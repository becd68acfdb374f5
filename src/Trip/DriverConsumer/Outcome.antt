-- ===== src/Trip/DriverConsumer/Outcome.antt =====
-- The outcomes of `handleTripAccepted`, lock and all.
use mygo_microservices.Prelude.{
  String, ◌≡◌, refl, false, none, some, Option-cases, ◌==◌, is_empty, arith, ◌++◌, inl, inr, ap,
  ◌∙◌,
}
use mygo_microservices.Go.{Error, ok, err}
use mygo_microservices.Redis.{client}
use mygo_microservices.Contracts.{trip_event_driver_assigned}
use mygo_microservices.Trip.Domain.{RideFareModel, TripModel, Driver, pending, accepted, assign}
use mygo_microservices.Trip.World.{Deps, DepsLaws, World, IsLive, trip_at, sent}
use mygo_microservices.Trip.DriverConsumer.{trip_accept_lock_key, handle_trip_accepted}
use mygo_microservices.Trip.DriverConsumer.Lock.{acquire_free}
use mygo_microservices.Trip.DriverConsumer.Accept.{
  charge, announced, accept_locked_late, accept_locked_assigns, accept_locked_untold, accept_free,
  accept_taken, locked,
}

module _ (env : Deps) (laws : DepsLaws env) (trip_id : String) (d : Driver) (t : TripModel)
    (w : World env) (live : IsLive env w) (trip_named : is_empty trip_id ≡ false)
    (driver_named : is_empty d.id ≡ false) (found : trip_at env w trip_id ≡ some t) where
  open laws use {svc_laws, bus_laws}

  locked-IsLive :
      env.kv.lookup w.redis (trip_accept_lock_key trip_id) ≡ none
      → IsLive env (locked env trip_id d.id w)
  locked-IsLive free = record {
    redis_up =
        (acquire_free env laws trip_id d.id w.redis live.redis_up trip_named driver_named free).2;
    trips_up = live.trips_up;
    coherent = live.coherent;
    broker_up = live.broker_up;
  }

  -- With every service up, the lock free, the trip pending and with a fare, and both messages
  -- possible to encode, an accept by a named driver for a named trip succeeds: the trip is accepted
  -- with that driver, its rider is told, the payment is requested, in this order and nothing else,
  -- and the lock is free again.
  pub accept_assigns :
      (fare : RideFareModel) (content payment : String)
      → t.ride_fare ≡ some fare
      → env.kv.lookup w.redis (trip_accept_lock_key trip_id) ≡ none
      → t.status ≡ pending
      → env.trip_json.encode (assign accepted (some d) t) ≡ ok content
      → env.payment_json.encode (charge trip_id d.id t fare) ≡ ok payment
      → let r = handle_trip_accepted env client trip_id (some d) w in
        (r.0 ≡ ok tt)
        × (trip_at env r.1 trip_id ≡ some (assign accepted (some d) t))
        × (sent env r.1 ≡ (sent env w ++ announced t content payment))
        × (env.kv.lookup r.1.redis (trip_accept_lock_key trip_id) ≡ none)
  accept_assigns fare content payment priced free p c q = ground (
    arith,
    accept_free env laws trip_id d w live.redis_up trip_named driver_named free,
    accept_locked_assigns env laws trip_id d t fare content payment (locked env trip_id d.id w)
        priced (locked-IsLive free) found p c q,
  )

  -- With every service up, an accept by a named driver for a named trip that the database holds and
  -- that is no longer pending is dropped, whoever holds the lock: it returns no error, sends nothing,
  -- and leaves every trip as it was.
  pub late_accept_dropped :
      (t.status == pending) ≡ false
      → let r = handle_trip_accepted env client trip_id (some d) w in
        (r.0 ≡ ok tt)
        × (sent env r.1 ≡ sent env w)
        × ((j : String) → trip_at env r.1 j ≡ trip_at env w j)
  late_accept_dropped late =
      elim (Option-cases (env.kv.lookup w.redis (trip_accept_lock_key trip_id))) [
        | inr (v, held) ↦
            let same =
              accept_taken env laws trip_id d w live.redis_up trip_named driver_named v held in
            (same.0, ap env.bus.sent same.2, λ j. ap (λ s. env.svc.view s j) same.1)
        | inl free ↦
            let same =
              accept_free env laws trip_id d w live.redis_up trip_named driver_named free in
            let body =
              accept_locked_late env laws trip_id (some d) t (locked env trip_id d.id w)
                (locked-IsLive free) found late in
            (
              same.0 ∙ body.0,
              ap env.bus.sent same.2 ∙ body.1,
              λ j. ap (λ s. env.svc.view s j) same.1 ∙ body.2 j,
            )
      ]

module _ (env : Deps) (laws : DepsLaws env) (trip_id : String) (d : Driver) (t : TripModel) where
  -- With Redis and the trip service up, the lock free, and the trip pending, an accept whose first
  -- message the broker refuses returns the broker's error after the trip has been given its driver,
  -- with nothing sent. From then on every accept for the trip, the redelivery included, by any named
  -- driver, with every service up again, returns no error and sends nothing: the rider is never
  -- told, and no payment is ever requested.
  pub refused_announcement_lost :
      (content : String) (e : Error) (w : World env)
      → env.kv.IsUp w.redis
      → env.svc.IsUp w.trips
      → env.svc.IsCoherent w.trips
      → is_empty trip_id ≡ false
      → is_empty d.id ≡ false
      → trip_at env w trip_id ≡ some t
      → env.kv.lookup w.redis (trip_accept_lock_key trip_id) ≡ none
      → t.status ≡ pending
      → env.trip_json.encode (assign accepted (some d) t) ≡ ok content
      → (env.bus.publish trip_event_driver_assigned
          (record { owner_id = t.user_id; content = content })
          w.broker).0
        ≡ err e
      → let r = handle_trip_accepted env client trip_id (some d) w in
        (r.0 ≡ err e)
        × (trip_at env r.1 trip_id ≡ some (assign accepted (some d) t))
        × (sent env r.1 ≡ sent env w)
        × ((d' : Driver) (w' : World env)
            → IsLive env w'
            → is_empty d'.id ≡ false
            → trip_at env w' trip_id ≡ trip_at env r.1 trip_id
            → let r' = handle_trip_accepted env client trip_id (some d') w' in
              (r'.0 ≡ ok tt) × (sent env r'.1 ≡ sent env w'))
  unfolding assign
  refused_announcement_lost content e w redis_up trips_up coherent named driver_named found free p c
        q =
      let body =
        accept_locked_untold env laws trip_id d t content e (locked env trip_id d.id w) trips_up
          coherent found p c q in
      let same = accept_free env laws trip_id d w redis_up named driver_named free in
      let at = ap (λ s. env.svc.view s trip_id) same.1 ∙ body.1 in
      (
        same.0 ∙ body.0,
        at,
        ap env.bus.sent same.2 ∙ body.2,
        λ d' w' live' named' e'.
            let late =
              late_accept_dropped env laws trip_id d' (assign accepted (some d) t) w' live' named
                named' (e' ∙ at) refl in
            (late.0, late.1),
      )
