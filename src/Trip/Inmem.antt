-- ===== src/Trip/Inmem.antt =====
-- services/trip-service/internal/infrastructure/repository/inmem.go: the repository in two maps. A
-- stored pointer is the stored value here: the model's callers change a trip by `update_trip` only.
-- And trip_publisher.go, which announces a new trip.
pub mod Laws
use mygo_microservices.Prelude.{String, ◌<>◌, Option, none, some, ◌==◌, if◌then◌else◌}
use mygo_microservices.Go.{Error, message, panic, fail, ok, err, Exec, Codec, Result}
use mygo_microservices.Contracts.{AmqpMessage, trip_event_created}
use mygo_microservices.Messaging.Publish.{Publisher}
use mygo_microservices.Trip.Domain.{RideFareModel, TripModel, Driver, assign, converts}

pub record InmemRepository : Type 0 where
  pub trips : String → Option TripModel
  pub ride_fares : String → Option RideFareModel

-- A missing trip is no error here.
unfoldable pub inmem_get_trip_by_id : String → Exec InmemRepository (Option TripModel)
inmem_get_trip_by_id id r = (ok (r.trips id), r)

-- `r.trips[id] = t`
abbrev pub put_trip : String → TripModel → InmemRepository → InmemRepository
put_trip id t r = record r { trips = λ j. if id == j then some t else r.trips j }

unfoldable pub inmem_update_trip : String → String → Option Driver → Exec InmemRepository (Unit {0})
unfolding assign
inmem_update_trip trip_id status driver r = elim (r.trips trip_id) [
  | none ↦ (err (message ("trip not found with ID: " <> trip_id)), r)
  | some t ↦ (ok tt, put_trip trip_id (assign status driver t) r)
]

unfoldable pub inmem_get_ride_fare_by_id : String → Exec InmemRepository RideFareModel
inmem_get_ride_fare_by_id id r = elim (r.ride_fares id) [
  | none ↦ (err (message ("fare does not exist with ID: " <> id)), r)
  | some f ↦ (ok f, r)
]

unfoldable pub inmem_create_trip : TripModel → Exec InmemRepository TripModel
inmem_create_trip trip r = (ok trip, put_trip trip.id trip r)

unfoldable pub inmem_save_ride_fare : RideFareModel → Exec InmemRepository (Unit {0})
inmem_save_ride_fare f r =
    (ok tt, record r { ride_fares = λ j. if f.id == j then some f else r.ride_fares j })

module _ (bus : Publisher) (event_json : Codec TripModel) where
  publish_event : TripModel → Result String → Exec bus.State (Unit {0})
  publish_event trip (ok content) s =
      bus.publish trip_event_created (record { owner_id = trip.user_id; content = content }) s
  publish_event trip (err e) s = (err e, s)

  unfoldable pub publish_trip_created : TripModel → Exec bus.State (Unit {0})
  unfolding publish_event
  publish_trip_created trip =
      if converts trip.ride_fare then publish_event trip (event_json.encode trip) else fail panic
