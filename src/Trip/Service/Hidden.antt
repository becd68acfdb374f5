-- ===== src/Trip/Service/Hidden.antt =====
-- A trip that `CreateTrip` did not get into the Bloom filter.
use mygo_microservices.Prelude.{String, ◌≡◌, false, none, some, arith}
use mygo_microservices.Go.{ok, err}
use mygo_microservices.Redis.{client}
use mygo_microservices.Cache.Bloom.{bloom_add, bloom_exists}
use mygo_microservices.Cache.Local.{LocalCache, local_get}
use mygo_microservices.Trip.Domain.{RideFareModel, TripModel, pending}
use mygo_microservices.Trip.Repository
use mygo_microservices.Trip.Service.{
  Stores, Service, get_local, trip_cache_key, trip_bloom_filter_key, trip_not_found, after_bloom,
  check_bloom, beyond_local, after_local, create_trip, get_trip_by_id,
}

-- The trip that a fare is turned into.
abbrev pub new_trip : String → RideFareModel → TripModel
new_trip id fare = record {
  id = id;
  user_id = fare.user_id;
  status = pending;
  ride_fare = some fare;
  driver = some (record { id = ""; name = ""; profile_picture = ""; car_plate = "" });
}

module _ (env : Stores) (fare : RideFareModel) (new_id inserted : String) where
  created_ok :
      (w : Service env)
      → (env.db.insert_one (new_trip new_id fare) w.trips).0 ≡ ok inserted
      → ((create_trip env client new_id fare w).0 ≡ ok (new_trip inserted fare))
        × ((create_trip env client new_id fare w).1 ≡ record w {
          bitmap = (bloom_add env.bits client trip_bloom_filter_key inserted w.bitmap).1;
          trips = (env.db.insert_one (new_trip new_id fare) w.trips).1;
        })
  unfolding create_trip Repository.create_trip
  created_ok w p = ground (arith, p)

  -- A read that the local cache does not answer, for a valid identifier that the filter denies.
  denied :
      (lc : LocalCache) (w : Service env)
      → env.db.object_id_from_hex inserted ≡ ok inserted
      → local_get env.ristretto lc (trip_cache_key inserted) w.memory ≡ none
      → (bloom_exists env.bits client trip_bloom_filter_key inserted w.bitmap).0 ≡ ok false
      → (get_trip_by_id env client lc inserted w).0 ≡ err (trip_not_found inserted)
  unfolding get_trip_by_id get_local after_local beyond_local check_bloom after_bloom
  denied lc w valid miss refused = ground (arith, valid, miss, refused)

  -- Where the database takes the trip, `CreateTrip` reports success whether or not its addition to
  -- the filter works. If the filter then denies the trip, and the local cache does not hold it,
  -- `GetTripByID` answers that there is no such trip, although the database holds it.
  pub created_trip_hidden :
      (lc : LocalCache) (w : Service env)
      → (env.db.insert_one (new_trip new_id fare) w.trips).0 ≡ ok inserted
      → env.db.object_id_from_hex inserted ≡ ok inserted
      → local_get env.ristretto lc (trip_cache_key inserted) w.memory ≡ none
      → (bloom_exists env.bits client trip_bloom_filter_key inserted
          (bloom_add env.bits client trip_bloom_filter_key inserted w.bitmap).1).0
        ≡ ok false
      → let (r, w') = create_trip env client new_id fare w in
        (r ≡ ok (new_trip inserted fare))
        × (w'.trips ≡ (env.db.insert_one (new_trip new_id fare) w.trips).1)
        × ((get_trip_by_id env client lc inserted w').0 ≡ err (trip_not_found inserted))
  created_trip_hidden lc w p valid miss refused =
      let made = created_ok w p in
      (
        made.0,
        ground (arith, made.1),
        denied lc _ valid (ground (arith, made.1, miss)) (ground (arith, made.1, refused)),
      )
