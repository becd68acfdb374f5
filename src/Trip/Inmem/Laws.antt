-- ===== src/Trip/Inmem/Laws.antt =====
-- What the maps return after a write; unlike MongoDB's, their update has no guard.
use mygo_microservices.Prelude.{String, ◌≡◌, false, some, ◌==◌, arith, eq_refl}
use mygo_microservices.Go.{ok}
use mygo_microservices.Trip.Domain.{RideFareModel, TripModel, Driver, accepted, assign}
use mygo_microservices.Trip.Inmem.{
  InmemRepository, inmem_get_trip_by_id, inmem_update_trip, inmem_create_trip, inmem_save_ride_fare,
  inmem_get_ride_fare_by_id,
}

-- A trip and a fare that are saved are read back under their identifiers, and no other trip changes.
pub inmem_roundtrip :
    (t : TripModel) (f : RideFareModel) (r : InmemRepository)
    → ((inmem_get_trip_by_id t.id (inmem_create_trip t r).1).0 ≡ ok (some t))
      × ((inmem_get_ride_fare_by_id f.id (inmem_save_ride_fare f r).1).0 ≡ ok f)
      × ((j : String) → (t.id == j) ≡ false → (inmem_create_trip t r).1.trips j ≡ r.trips j)
unfolding inmem_get_trip_by_id inmem_create_trip inmem_save_ride_fare inmem_get_ride_fare_by_id
inmem_roundtrip t f r =
    (ground (arith, eq_refl t.id), ground (arith, eq_refl f.id), λ j h. ground (arith, h))

-- A trip that is in the map is given to a first and then to a second driver, and both updates report
-- success: the in-memory repository does not guard the status.
pub inmem_reassigns :
    (id : String) (d d' : Driver) (t : TripModel) (r : InmemRepository)
    → r.trips id ≡ some t
    → let first = inmem_update_trip id accepted (some d) r in
      let second = inmem_update_trip id accepted (some d') first.1 in
      (first.0 ≡ ok tt)
      × (second.0 ≡ ok tt)
      × (second.1.trips id ≡ some (assign accepted (some d') t))
unfolding inmem_update_trip assign
inmem_reassigns id d d' t r found =
    (ground (arith, found), ground (arith, found, eq_refl id), ground (arith, found, eq_refl id))
