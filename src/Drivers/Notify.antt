-- ===== src/Drivers/Notify.antt =====
-- services/driver-service/trip_consumer.go: a new trip is offered to the drivers nearby.
pub mod Laws
pub mod Offers
use mygo_microservices.Prelude.{
  ℕ, suc, String, Bool, Option, none, some, List, [], ◌∷◌, length, take, ◌==◌, ◌=ℕ=◌, ◌||◌,
  if◌then◌else◌,
}
use mygo_microservices.Go.{
  Error, message, Result, ok, err, Exec, pure, fail, zoom, attempt, lift, Codec, ◌>>=◌,
}
use mygo_microservices.Contracts.{
  AmqpMessage, trip_event_created, trip_event_driver_not_interested, trip_event_no_drivers_found,
  driver_cmd_trip_request,
}
use mygo_microservices.Messaging.Publish.{Publisher}
use mygo_microservices.Trip.Domain.{Float64, Coordinate}
use mygo_microservices.Drivers.Fleet.{Fleet}
use mygo_microservices.Drivers.Find.{
  find_available_drivers, find_nearby_drivers, default_geo_search_radius_km,
}

-- The protobuf messages of an event, as far as the consumer reads them; a pointer may be nil.
pub record Geometry : Type 0 where
  pub coordinates : List (Option Coordinate)

pub record TripRoute : Type 0 where
  pub geometry : List (Option Geometry)

pub record SelectedFare : Type 0 where
  pub package_slug : String

pub record EventTrip : Type 0 where
  pub user_id : String
  pub selected_fare : Option SelectedFare
  pub route : Option TripRoute

pub record TripEventData : Type 0 where
  pub trip : Option EventTrip

abbrev pub max_fanout_candidates : ℕ
max_fanout_candidates = 2

-- The start of the route, where the event has one.
unfoldable pub first_coordinate : List (Option Geometry) → Option Coordinate
first_coordinate [] = none
first_coordinate (none ∷ gs) = none
first_coordinate (some g ∷ gs) = elim g.coordinates [ [] ↦ none | c ∷ cs ↦ c ]

unfoldable pub extract_pickup_location : TripEventData → Option Coordinate
unfolding first_coordinate
extract_pickup_location payload = elim payload.trip [
  | none ↦ none
  | some t ↦ elim t.route [ none ↦ none | some r ↦ first_coordinate r.geometry ]
]

abbrev pub no_drivers : String → String × AmqpMessage
no_drivers user_id = (trip_event_no_drivers_found, record { owner_id = user_id; content = "" })

abbrev pub offer : String → String → String × AmqpMessage
offer event driver_id = (driver_cmd_trip_request, record { owner_id = driver_id; content = event })

abbrev pub counted : Result (Unit {0}) → ℕ → ℕ
counted (ok u) n = suc n
counted (err e) n = n

-- The fare that the handler reads before it looks at anything else.
abbrev pub fare_of : TripEventData → Option (EventTrip × SelectedFare)
fare_of payload = elim payload.trip [
  | none ↦ none
  | some t ↦ elim t.selected_fare [ none ↦ none | some f ↦ some (t, f) ]
]

module _ (fleet : Fleet) where
  unfoldable pub find_drivers : Option Coordinate → String → Exec fleet.State (List String)
  find_drivers (some c) package_slug =
      find_nearby_drivers fleet c.latitude c.longitude default_geo_search_radius_km package_slug
  find_drivers none package_slug = find_available_drivers fleet package_slug

module _ (bus : Publisher) where
  abbrev publish : String × AmqpMessage → Exec bus.State (Unit {0})
  publish (k, m) = bus.publish k m

  -- A driver who cannot be reached is skipped; the number of offers that went out is counted.
  unfoldable pub publish_offers : String → List String → ℕ → Exec bus.State ℕ
  publish_offers event [] n = pure n
  publish_offers event (d ∷ ds) n =
      attempt (publish (offer event d)) >>= λ r. publish_offers event ds (counted r n)

  unfoldable pub check_count : ℕ → Exec bus.State (Unit {0})
  check_count n =
      if n =ℕ= 0
      then fail (message "failed to publish trip_request to any of the candidate drivers")
      else pure tt

  -- The second half of the handler, for the drivers that were found.
  module _ (event_json : Codec TripEventData) where
    unfoldable pub notify : TripEventData → EventTrip → List String → Exec bus.State (Unit {0})
    notify payload trip [] = publish (no_drivers trip.user_id)
    notify payload trip (d ∷ ds) = lift (event_json.encode payload) >>= λ event.
        publish_offers event (take max_fanout_candidates (d ∷ ds)) 0 >>= check_count

module _ (fleet : Fleet) (bus : Publisher) (event_json : Codec TripEventData)
    (amqp_json : Codec AmqpMessage) where
  pub record Consumer : Type 0 where
    pub redis : fleet.State
    pub rabbit : bus.State

  abbrev on_redis : {A : Type 0} → Exec fleet.State A → Exec Consumer A
  on_redis = zoom (λ w. w.redis) (λ w s. record w { redis = s })

  abbrev on_rabbit : {A : Type 0} → Exec bus.State A → Exec Consumer A
  on_rabbit = zoom (λ w. w.rabbit) (λ w s. record w { rabbit = s })

  find_and_notify : TripEventData → EventTrip → SelectedFare → Exec Consumer (Unit {0})
  find_and_notify payload trip fare =
      on_redis (find_drivers fleet (extract_pickup_location payload) fare.package_slug) >>= λ ids.
      on_rabbit (notify bus event_json payload trip ids)

  -- No answer means that a nil pointer is dereferenced, which panics.
  unfoldable pub handle_find_and_notify_drivers :
      TripEventData → Consumer → Option (Result (Unit {0})) × Consumer
  unfolding find_and_notify
  handle_find_and_notify_drivers payload w = elim (fare_of payload) [
    | none ↦ (none, w)
    | some p ↦ let (t, f) = p in let (r, w') = find_and_notify payload t f w in (some r, w')
  ]

  dispatch : String → TripEventData → Consumer → Option (Result (Unit {0})) × Consumer
  dispatch routing_key payload w =
      if routing_key == trip_event_created || routing_key == trip_event_driver_not_interested
      then handle_find_and_notify_drivers payload w
      else (some (ok tt), w)

  after_event : String → Result TripEventData → Consumer → Option (Result (Unit {0})) × Consumer
  after_event routing_key (err e) w = (some (err e), w)
  after_event routing_key (ok payload) w = dispatch routing_key payload w

  after_message : String → Result AmqpMessage → Consumer → Option (Result (Unit {0})) × Consumer
  after_message routing_key (err e) w = (some (err e), w)
  after_message routing_key (ok m) w = after_event routing_key (event_json.decode m.content) w

  -- The handler that `Listen` registers, on the routing key and the body of a delivery.
  unfoldable pub listen : String → String → Consumer → Option (Result (Unit {0})) × Consumer
  unfolding after_message after_event dispatch
  listen routing_key body w = after_message routing_key (amqp_json.decode body) w
