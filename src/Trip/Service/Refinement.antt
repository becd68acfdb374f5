-- ===== src/Trip/Service/Refinement.antt =====
-- The service implements the interface that the message consumers are built over.
use mygo_microservices.Prelude.{
  String, ◌≡◌, ◌≢◌, refl, sym, ap, ◌∙◌, true, false, Option, none, some, inl, inr, arith,
  Option-cases,
}
use mygo_microservices.Go.{Error, ok, err, Result-cases}
use mygo_microservices.Redis.{client}
use mygo_microservices.Cache.Bloom.{BitsLaws, bloom_exists}
use mygo_microservices.Cache.Bloom.Laws.{exists-IsMember}
use mygo_microservices.Cache.Local.{local_cache}
use mygo_microservices.Trip.Domain.{TripModel, Driver, TripService, TripServiceLaws, movable}
use mygo_microservices.Trip.Repository
use mygo_microservices.Trip.Repository.Laws.{update_trip_ok, update_trip_err, up_update_trip}
use mygo_microservices.Trip.Repository.Reads.{get_trip_by_id_keeps, update_trip_refused}
use mygo_microservices.Trip.Service.{
  Stores, Service, set_local, del_local, trip_bloom_filter_key, get_trip_by_id, update_trip,
}
use mygo_microservices.Trip.Service.Steps.{ReadSteps, read-Keeping}
use mygo_microservices.Trip.Service.Coherent.{StoresLaws, Coherent}
use mygo_microservices.Trip.Service.Reads.{read-Coherent}
use mygo_microservices.Trip.Service.Updates.{update-Coherent}
use mygo_microservices.Trip.Service.Available.{read_available}
use mygo_microservices.Trip.Service.Ready.{
  trips_of, IsReady, get_trip_by_id-IsReady, update_trip-IsReady,
}

module _ (env : Stores) (laws : StoresLaws env) (bits_laws : BitsLaws env.bits) where
  open laws use {kv_laws, ristretto_laws, db_laws, json_laws}

  -- `NewService` with a Redis client and a local cache, as the consumers see it.
  abbrev pub trip_service : TripService
  trip_service = record {
    State = Service env;
    view = trips_of env;
    IsCoherent = λ w. Coherent env (trips_of env w) w;
    IsUp = IsReady env laws bits_laws;
    IsId = λ id. env.db.object_id_from_hex id ≡ ok id;
    get_trip_by_id = get_trip_by_id env client local_cache;
    update_trip = update_trip env client local_cache;
  }

  -- Coherence is agreement with the trips that the database holds now.
  Coherent-now :
      (view : String → Option TripModel) (w : Service env)
      → Coherent env view w
      → Coherent env (trips_of env w) w
  Coherent-now view w c = record {
    stored = λ id. refl;
    redis = λ id v e t d. c.stored id ∙ c.redis id v e t d;
    memory = λ id v e t d. c.stored id ∙ c.memory id v e t d;
  }

  module _ (id status : String) (d : Option Driver) (w : Service env)
      (valid : env.db.object_id_from_hex id ≡ ok id) where
    canonical : (x : String) → env.db.object_id_from_hex id ≡ ok x → x ≡ id
    canonical x p = ground (arith, valid, p)

    -- What the service returns of an update is what the repository returns.
    same_result :
        ((update_trip env client local_cache id status d w).0
          ≡ (Repository.update_trip env.db id status d w.trips).0)
        × ((update_trip env client local_cache id status d w).1.trips
            ≡ (Repository.update_trip env.db id status d w.trips).1)
    unfolding update_trip del_local
    same_result = elim (Result-cases (Repository.update_trip env.db id status d w.trips).0) [
      | inl (u, p) ↦ ground (arith, p)
      | inr (e, p) ↦ ground (arith, p)
    ]

    refused_state :
        (e : Error)
        → (Repository.update_trip env.db id status d w.trips).0 ≡ err e
        → (update_trip env client local_cache id status d w).1
          ≡ record w { trips = (Repository.update_trip env.db id status d w.trips).1 }
    unfolding update_trip
    refused_state e p = ground (arith, p)

    updated-Coherent :
        IsReady env laws bits_laws w
        → Coherent env (trips_of env w) w
        → let w' = (update_trip env client local_cache id status d w).1 in
          Coherent env (trips_of env w') w'
    updated-Coherent ready c =
        elim (Result-cases (Repository.update_trip env.db id status d w.trips).0) [
          | inl (u, p) ↦
              Coherent-now _ _
                (update-Coherent env laws id status d (trips_of env w) w ready.redis_up valid c
                  (same_result.0 ∙ p)).1
          | inr (e, p) ↦ Coherent-now (trips_of env w) _ (
              rw (refused_state e p) (record {
                stored =
                    λ j. update_trip_refused env.db db_laws id status d j e w.trips ready.db_up p;
                redis = c.redis;
                memory = c.memory;
              }))
        ]

  undenied :
      (id : String) (t : TripModel) (w : Service env)
      → IsReady env laws bits_laws w
      → trips_of env w id ≡ some t
      → (bloom_exists env.bits client trip_bloom_filter_key id w.bitmap).0 ≢ ok false
  undenied id t w ready at e = ground (
    arith,
    exists-IsMember env.bits bits_laws trip_bloom_filter_key id w.bitmap false (ready.known id t at)
        e,
  )

  up_updated :
      (id status : String) (d : Option Driver) (w : Service env)
      → IsReady env laws bits_laws w
      → movable status (trips_of env w id) ≡ true
      → (update_trip env client local_cache id status d w).0 ≡ ok tt
  unfolding movable
  up_updated id status d w ready may = elim (Option-cases (trips_of env w id)) [
    | inl gone ↦ absurd (ground (arith, may, gone))
    | inr (t, at) ↦
        let valid = db_laws.stored_valid id w.trips t at in
        (same_result id status d w valid).0
        ∙ (up_update_trip env.db db_laws id status d valid w.trips ready.db_up may).0
  ]

  -- The database's trip under `j` is `o`.
  abbrev Same : String → Option TripModel → Service env → Type 0
  Same j o w = trips_of env w j ≡ o

  Same-steps : (j : String) (o : Option TripModel) → ReadSteps env (Same j o)
  unfolding set_local del_local
  Same-steps j o = record {
    get_redis-Keeping = λ k. record { after = λ w e. e };
    set_redis-Keeping = λ k v. record { after = λ w e. e };
    del_redis-Keeping = λ k. record { after = λ w e. e };
    bloom_add-Keeping = λ id. record { after = λ w e. e };
    bloom_exists-Keeping = λ id. record { after = λ w e. e };
    find-Keeping =
        λ id. record { after = λ w e. get_trip_by_id_keeps env.db db_laws id j w.trips ∙ e };
    set_local-Keeping = λ k v. record { after = λ w e. e };
    del_local-Keeping = λ k. record { after = λ w e. e };
  }

  -- Over stores that keep their contracts, the trip service with Redis and a local cache implements
  -- the interface that the message consumers are built over: reads tell the database's trip and
  -- change none, updates happen from the statuses that allow them, and while Redis and the database
  -- answer and the filter has every trip, both operations succeed and keep that so.
  pub trip_service-TripServiceLaws : TripServiceLaws trip_service
  trip_service-TripServiceLaws = record {
    view-IsId = λ id w t e. db_laws.stored_valid id w.trips t e;
    get_ok = λ id w o valid c e.
        (read-Coherent env laws client local_cache id (trips_of env w) w
            (canonical id "" none w valid) c).1
          o e;
    get_keeps = λ id j w.
        (read-Keeping env (Same j (trips_of env w j)) (Same-steps j (trips_of env w j)) id).after w
          refl;
    get-IsCoherent = λ id w valid c.
        Coherent-now (trips_of env w) _
          (read-Coherent env laws client local_cache id (trips_of env w) w
            (canonical id "" none w valid) c).0;
    update_ok = λ id status d w valid e.
        let repo = same_result id status d w valid in
        let done = update_trip_ok env.db db_laws id status d valid w.trips (sym repo.0 ∙ e) in
        (done.0, ap (λ s. env.db.lookup s id) repo.1 ∙ done.1);
    update_err = λ id status d w x valid e.
        let repo = same_result id status d w valid in
        let at = ap (λ s. env.db.lookup s id) repo.1 in
        elim (update_trip_err env.db db_laws id status d valid w.trips x (sym repo.0 ∙ e)) [
          | inl same ↦ inl (at ∙ same)
          | inr (may, done) ↦ inr (may, at ∙ done)
        ];
    up_get = λ id w t ready c at.
        read_available env laws client local_cache id t (db_laws.stored_valid id w.trips t at)
          (trips_of env w) w c ready.db_up at (undenied id t w ready at);
    up_update = λ id status d w ready may. up_updated id status d w ready may;
    get-IsUp = λ id w ready. get_trip_by_id-IsReady env laws bits_laws id w ready;
    update-IsUp = λ id status d w ready. update_trip-IsReady env laws bits_laws id status d w ready;
    update-IsCoherent = λ id status d w valid ready c. updated-Coherent id status d w valid ready c;
  }
