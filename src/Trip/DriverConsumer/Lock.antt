-- ===== src/Trip/DriverConsumer/Lock.antt =====
-- The lock that a driver takes to accept a trip.
use mygo_microservices.Prelude.{
  String, ◌≡◌, refl, true, false, none, some, ◌==◌, is_empty, arith, eq_refl,
}
use mygo_microservices.Go.{nil_reply, Result, ok, err}
use mygo_microservices.Redis.{client}
use mygo_microservices.Trip.World.{Deps, DepsLaws}
use mygo_microservices.Trip.DriverConsumer.{
  trip_accept_lock_ttl, trip_accept_lock_key, compare_and_delete, trip_accept_unlock_script,
  try_acquire_trip_accept_lock, release_trip_accept_lock,
}

module _ (env : Deps) (laws : DepsLaws env) (trip_id driver_id : String) where
  open env.kv use {State, lookup, IsUp}
  open laws use {kv_laws}

  abbrev key : String
  key = trip_accept_lock_key trip_id

  pub acquire_free :
      (s : State)
      → IsUp s
      → is_empty trip_id ≡ false
      → is_empty driver_id ≡ false
      → lookup s key ≡ none
      → let r = try_acquire_trip_accept_lock env client trip_id driver_id s in
        (r.0 ≡ ok true) × (lookup r.1 key ≡ some driver_id) × IsUp r.1
  unfolding try_acquire_trip_accept_lock
  acquire_free s up t d free = ground (
    arith,
    kv_laws.up_set_nx key driver_id trip_accept_lock_ttl s up,
    kv_laws.set_nx_won key driver_id trip_accept_lock_ttl s,
    kv_laws.set_nx-IsUp key driver_id trip_accept_lock_ttl s up,
  )

  pub acquire_taken :
      (s : State) (v : String)
      → IsUp s
      → is_empty trip_id ≡ false
      → is_empty driver_id ≡ false
      → lookup s key ≡ some v
      → let r = try_acquire_trip_accept_lock env client trip_id driver_id s in
        (r.0 ≡ ok false) × (lookup r.1 key ≡ some v) × IsUp r.1
  unfolding try_acquire_trip_accept_lock
  acquire_taken s v up t d held = ground (
    arith,
    kv_laws.up_set_nx key driver_id trip_accept_lock_ttl s up,
    kv_laws.set_nx_lost key driver_id trip_accept_lock_ttl s,
    kv_laws.set_nx-IsUp key driver_id trip_accept_lock_ttl s up,
  )

  pub release_owned :
      (s : State)
      → IsUp s
      → is_empty trip_id ≡ false
      → is_empty driver_id ≡ false
      → lookup s key ≡ some driver_id
      → let r = release_trip_accept_lock env client trip_id driver_id s in
        (r.0 ≡ ok true) × (lookup r.1 key ≡ none) × IsUp r.1
  unfolding release_trip_accept_lock trip_accept_unlock_script compare_and_delete
  release_owned s up t d held =
      let s' : State = (env.kv.get key s).1 in
      ground (
        arith,
        kv_laws.up_get key s up,
        kv_laws.get-IsUp key s up,
        kv_laws.up_del key s',
        kv_laws.del_done key key s',
        kv_laws.del-IsUp key s',
        eq_refl key,
        eq_refl driver_id,
      )

  keep_foreign :
      (r : Result String) (s : State) (v : String)
      → (v == driver_id) ≡ false
      → ((w : String) → r ≡ ok w → w ≡ v)
      → (compare_and_delete env key driver_id r s).1 ≡ s
  unfolding compare_and_delete
  keep_foreign (ok w) s v other same = ground (arith, same w)
  keep_foreign (err nil_reply) s v other same = refl
  keep_foreign (err e) s v other same = refl

  -- Whatever fails on the way, releasing never deletes a lock that another driver holds.
  pub release_foreign :
      (s : State) (v : String)
      → lookup s key ≡ some v
      → (v == driver_id) ≡ false
      → lookup (release_trip_accept_lock env client trip_id driver_id s).1 key ≡ some v
  unfolding release_trip_accept_lock trip_accept_unlock_script
  release_foreign s v held other =
      let s' : State = (env.kv.get key s).1 in
      let r : Result String = (env.kv.get key s).0 in
      ground (
        arith,
        kv_laws.get_keeps key key s,
        keep_foreign r s' v other (λ w e. ground (arith, kv_laws.get_hit key s w e)),
      )
