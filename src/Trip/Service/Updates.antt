-- ===== src/Trip/Service/Updates.antt =====
-- `UpdateTrip`: the caches forget the trip that changed.
use mygo_microservices.Prelude.{
  String, ◌≡◌, sym, ap, ◌∙◌, true, false, Option, some, ◌==◌, if◌then◌else◌, arith, eq_iff, eq_refl,
  inl, inr, Bool-cases,
}
use mygo_microservices.Go.{ok, Result-cases}
use mygo_microservices.Redis.{client}
use mygo_microservices.Cache.Local.{local_cache, local_del}
use mygo_microservices.Trip.Domain.{TripModel, Driver, updated, movable}
use mygo_microservices.Trip.Repository
use mygo_microservices.Trip.Repository.Laws.{update_trip_ok}
use mygo_microservices.Trip.Service.{
  Stores, Service, del_local, trip_cache_key, get_trip_by_id, update_trip,
}
use mygo_microservices.Trip.Service.Coherent.{StoresLaws, Coherent, Fits}
use mygo_microservices.Trip.Service.Reads.{read-Coherent}

-- The trips after an update of one.
abbrev pub with_update :
    String → String → Option Driver → (String → Option TripModel) → String → Option TripModel
with_update id status d view j = if id == j then updated status d (view id) else view j

module _ (env : Stores) (laws : StoresLaws env) (id status : String) (d : Option Driver) where
  open laws use {kv_laws, ristretto_laws, db_laws}

  abbrev written : Service env → env.db.State
  written w = (Repository.update_trip env.db id status d w.trips).1

  update_ok :
      (w : Service env)
      → (update_trip env client local_cache id status d w).0 ≡ ok tt
      → ((Repository.update_trip env.db id status d w.trips).0 ≡ ok tt)
        × ((update_trip env client local_cache id status d w).1 ≡ record {
          redis = (env.kv.del (trip_cache_key id) w.redis).1;
          bitmap = w.bitmap;
          memory = env.ristretto.del (trip_cache_key id) w.memory;
          trips = written w;
        })
  unfolding update_trip del_local local_del
  update_ok w h = elim (Result-cases (Repository.update_trip env.db id status d w.trips).0) [
    | inr (e, p) ↦ absurd (ground (arith, p, h))
    | inl (u, p) ↦ ground (arith, p, h)
  ]

  -- A key that is not the updated trip's belongs to a trip that did not change.
  unchanged :
      (view : String → Option TripModel) (j v : String)
      → (trip_cache_key id == trip_cache_key j) ≡ false
      → Fits env view j v
      → Fits env (with_update id status d view) j v
  unchanged view j v miss fits t e = elim (Bool-cases (id == j)) [
    | inl same ↦ absurd (
        ground (
          arith,
          miss,
          (eq_iff (trip_cache_key id) (trip_cache_key j)).1
              (ap trip_cache_key ((eq_iff id j).0 same)),
        ))
    | inr differ ↦ ground (arith, differ, fits t e)
  ]

  del_other :
      (j v : String) (s : env.kv.State)
      → env.kv.IsUp s
      → env.kv.lookup (env.kv.del (trip_cache_key id) s).1 (trip_cache_key j) ≡ some v
      → ((trip_cache_key id == trip_cache_key j) ≡ false)
        × (env.kv.lookup s (trip_cache_key j) ≡ some v)
  del_other j v s up e =
      let k : String = trip_cache_key id in
      ground (arith, kv_laws.del_done k (trip_cache_key j) s, kv_laws.up_del k s up, e)

  -- With Redis up and a valid identifier, an update that returns no error found a trip that may
  -- move; afterwards the database holds the trips with that one changed, and neither cache
  -- contradicts it.
  pub update-Coherent :
      (view : String → Option TripModel) (w : Service env)
      → env.kv.IsUp w.redis
      → env.db.object_id_from_hex id ≡ ok id
      → Coherent env view w
      → (update_trip env client local_cache id status d w).0 ≡ ok tt
      → (movable status (view id) ≡ true)
        × Coherent env
            (with_update id status d view)
            (update_trip env client local_cache id status d w).1
  update-Coherent view w up valid c h =
      let done = update_ok w h in
      let trip = update_trip_ok env.db db_laws id status d valid w.trips done.0 in
      let k : String = trip_cache_key id in
      (
        ap (movable status) (sym (c.stored id)) ∙ trip.0,
        rw done.1 (record {
          stored = λ j. ground (arith, trip.1, trip.2 j, c.stored j, c.stored id, eq_iff id j);
          redis = λ j v e.
              let (miss, old) = del_other j v w.redis up e in
              unchanged view j v miss (c.redis j v old);
          memory = λ j v e.
              let (old, miss) = ristretto_laws.del_sound k (trip_cache_key j) v w.memory e in
              unchanged view j v miss (c.memory j v old);
        }),
      )

  -- With Redis up and a valid identifier, a read that answers after an update that returned no error
  -- gives the trip with its new status and driver.
  pub read_after_update :
      (view : String → Option TripModel) (w : Service env) (o : Option TripModel)
      → env.kv.IsUp w.redis
      → env.db.object_id_from_hex id ≡ ok id
      → Coherent env view w
      → (update_trip env client local_cache id status d w).0 ≡ ok tt
      → let w' = (update_trip env client local_cache id status d w).1 in
        (get_trip_by_id env client local_cache id w').0 ≡ ok o → o ≡ updated status d (view id)
  read_after_update view w o up valid c h e =
      let after = (update-Coherent view w up valid c h).1 in
      (read-Coherent env laws client local_cache id (with_update id status d view) _
          (λ x p. ground (arith, valid, p)) after).1
        o e
      ∙ ground (arith, eq_refl id)
