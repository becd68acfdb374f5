-- ===== src/Examples/Drivers.antt =====
-- The driver service at concrete inputs.
use mygo_microservices.Prelude.{
  ℕ, ◌≤◌, String, ◌≡◌, ◌≢◌, ◌↔◌, ◌⊎◌, refl, true, false, Option, none, some, is_some, List, [], ◌∷◌,
  ◌++◌, ◌==◌, ltb, if◌then◌else◌, take, length, All, arith,
}
use mygo_microservices.Go.{ok, Codec}
use mygo_microservices.Contracts.{AmqpMessage}
use mygo_microservices.Fake.Drivers.{Server, keys, driver_fleet, driver_fleet_laws}
use mygo_microservices.Fake.Services.{outbox, outbox_laws}
use mygo_microservices.Trip.Domain.{Float64, Coordinate}
use mygo_microservices.Drivers.Fleet.{Hash}
use mygo_microservices.Drivers.Routes.{east_route}
use mygo_microservices.Drivers.Find.{
  driver_info_key, drivers_online_key, drivers_geo_key, find_candidate_count, find_result_limit,
  nearby, find_available_drivers, find_nearby_drivers,
}
use mygo_microservices.Drivers.Find.Laws.{live, find_available_drivers_lem}
use mygo_microservices.Drivers.Find.Gone.{IsGone}
use mygo_microservices.Drivers.Find.Cleaning.{examined, find_nearby_drivers-Cleaned}
use mygo_microservices.Drivers.Movement.{
  Movements, no_movements, lock_start, spawn, Reachable, fresh, after, started, spawned,
  start_driver_movement, stop_driver_movement,
}
use mygo_microservices.Drivers.Movement.Laws.{is_live, Reachable-one_task}
use mygo_microservices.Drivers.Movement.Whole.{IsResting, stop_driver_movement-Reachable}
use mygo_microservices.Drivers.Service.{
  OnlineDriver, Draws, World, new_driver, random_route, register_driver, unregister_driver,
}
use mygo_microservices.Drivers.Service.Laws.{IsOnline, register_driver_lem}
use mygo_microservices.Drivers.Service.Leaving.{unregister-find}
use mygo_microservices.Drivers.Notify.{
  TripEventData, EventTrip, SelectedFare, Consumer, handle_find_and_notify_drivers,
  max_fanout_candidates,
}
use mygo_microservices.Drivers.Notify.Laws.{
  Message, succeeded, handle_find_and_notify_drivers-sent, handle_find_and_notify_drivers-panic,
}

abbrev record_of_a_driver : Option Hash
record_of_a_driver = some (record { fields = []; ttl = some 300 })

-- Three drivers in every set, the first one the farthest from (1, 2); the second one's record has
-- expired.
abbrev redis : Server
redis = record {
  view = record {
    hash = λ k. if k == "driver:info:d2" then none else record_of_a_driver;
    member = λ k m. true;
    point = λ k m. if m == "d1" then some (4, 2) else some (2, 1);
  };
  names = "d1" ∷ "d2" ∷ "d3" ∷ [];
  up = true;
}

find_available_drivers_lem_example :
    (sample : List String) × ((driver_fleet.srandmember
        (drivers_online_key "van")
        find_candidate_count
        redis).0
      ≡ ok sample)
    × ((find_available_drivers driver_fleet "van" redis).0
        ≡ ok (take find_result_limit (live redis.view.hash sample)))
find_available_drivers_lem_example =
    find_available_drivers_lem driver_fleet driver_fleet_laws "van" redis refl refl

find_nearby_drivers-Cleaned_example :
    (nearest : List String) × ((driver_fleet.geo_radius
        (drivers_geo_key "van")
        (nearby 1 2 3)
        redis).0
      ≡ ok nearest)
    × All
        (λ id.
          redis.view.hash (driver_info_key id) ≡ none
          → IsGone driver_fleet driver_fleet_laws "van" id
              (find_nearby_drivers driver_fleet 1 2 3 "van" redis).1)
        (examined redis.view.hash nearest 0)
find_nearby_drivers-Cleaned_example =
    find_nearby_drivers-Cleaned driver_fleet driver_fleet_laws "van" 1 2 3 redis refl refl

-- A driver whose task has been started
abbrev moving : Movements
moving = spawn 0 (lock_start "d1" "van" east_route no_movements)

moving-Reachable : Reachable moving
unfolding lock_start spawn
moving-Reachable = after (after fresh (started "d1" "van" east_route)) (spawned 0 refl tt)

moving-IsResting : IsResting moving
unfolding lock_start spawn
moving-IsResting = record { runs = λ d k. ground arith; quiet = λ n. ground arith }

Reachable-one_task_example :
    ((n k : ℕ)
      → (moving.task n).driver_id ≡ "d1"
      → (moving.task k).driver_id ≡ "d1"
      → is_live (moving.task n).phase ≡ true
      → is_live (moving.task k).phase ≡ true
      → n ≡ k)
    × ((n : ℕ)
        → moving.current "d1" ≡ none
        → (moving.task n).driver_id ≡ "d1"
        → is_live (moving.task n).phase ≡ false)
Reachable-one_task_example =
    Reachable-one_task moving "d1" moving-Reachable (λ n h. moving-IsResting.quiet n)

stop_driver_movement-Reachable_example :
    let (b, m) = stop_driver_movement "d1" moving in
    (b ≡ is_some (moving.current "d1"))
    × Reachable m
    × IsResting m
    × ((n : ℕ) → (m.task n).driver_id ≡ "d1" → is_live (m.task n).phase ≡ false)
stop_driver_movement-Reachable_example =
    stop_driver_movement-Reachable moving moving-Reachable moving-IsResting "d1" refl

abbrev draws : Draws
draws = record { route = 6; first = 0; second = 1; third = 2 }

abbrev bits : Float64 → String
bits x = "23.13"

abbrev service : World driver_fleet
service = record { redis = redis; movements = no_movements }

register_driver_lem_example :
    let (answer, w) = register_driver driver_fleet bits draws "d1" "van" service in
    let d₀ = new_driver draws "d1" "van" in
    ((d : OnlineDriver) × (answer ≡ ok d) × (d ≡ record d₀ { geohash = d.geohash }))
    × IsOnline (keys w.redis) d₀ bits
    × (w.movements ≡ start_driver_movement "d1" "van" (random_route draws) no_movements)
register_driver_lem_example =
    register_driver_lem driver_fleet driver_fleet_laws bits draws "d1" "van" service refl refl refl

unregister-find_example :
    let s = (unregister_driver driver_fleet "d1" "van" service).1.redis in
    ((found : List String) × ((find_available_drivers driver_fleet "suv" s).0 ≡ ok found)
      × All (λ id. id ≢ "d1") found)
    × ((found : List String) × ((find_nearby_drivers driver_fleet 0 0 0 "suv" s).0 ≡ ok found)
        × All (λ id. id ≢ "d1") found)
unregister-find_example =
    unregister-find driver_fleet driver_fleet_laws "d1" "van" "suv" 0 0 0 service refl refl refl
      refl

abbrev fare : SelectedFare
fare = record { package_slug = "van" }

abbrev pickup : Coordinate
pickup = record { latitude = 1; longitude = 2 }

abbrev trip : EventTrip
trip = record {
  user_id = "rider-1";
  selected_fare = some fare;
  route = some (record { geometry = some (record { coordinates = some pickup ∷ [] }) ∷ [] });
}

abbrev event : TripEventData
event = record { trip = some trip }

abbrev event_json : Codec TripEventData
event_json = record { encode = λ e. ok "event"; decode = λ text. ok event }

abbrev amqp_json : Codec AmqpMessage
amqp_json = record {
  encode = λ m. ok m.content;
  decode = λ text. ok (record { owner_id = ""; content = text });
}

abbrev consumer : Consumer driver_fleet outbox event_json amqp_json
consumer = record { redis = redis; rabbit = record { messages = []; up = true } }

handle_find_and_notify_drivers-sent_example :
    let (o, w) =
      handle_find_and_notify_drivers driver_fleet outbox event_json amqp_json event consumer in
    (messages : List Message) × (w.rabbit.messages ≡ [] ++ messages)
    × (length messages ≤ max_fanout_candidates)
    × (succeeded o ≡ ltb 0 (length messages))
handle_find_and_notify_drivers-sent_example =
    handle_find_and_notify_drivers-sent outbox outbox_laws driver_fleet event_json amqp_json event
      consumer

abbrev no_trip : TripEventData
no_trip = record { trip = none }

handle_find_and_notify_drivers-panic_example :
    ((handle_find_and_notify_drivers driver_fleet outbox event_json amqp_json no_trip consumer).0
      ≡ none)
    ↔ ((no_trip.trip ≡ none)
        ⊎ ((t : EventTrip) × (no_trip.trip ≡ some t) × (t.selected_fare ≡ none)))
handle_find_and_notify_drivers-panic_example =
    handle_find_and_notify_drivers-panic outbox outbox_laws driver_fleet event_json amqp_json
      no_trip consumer
