-- ===== src/Drivers/Service.antt =====
-- services/driver-service/service.go: drivers come on line, move, and leave.
pub mod Laws
pub mod Leaving
use mygo_microservices.Prelude.{
  ℕ, ◌+◌, ◌%◌, String, ◌<>◌, Bool, Option, none, some, List, [], ◌∷◌, length, ◌||◌, if◌then◌else◌,
  is_empty,
}
use mygo_microservices.Go.{
  Error, message, Result, ok, err, Exec, pure, fail, zoom, attempt, ignore, ◌>>=◌, ◌>>◌,
}
use mygo_microservices.Trip.Domain.{Float64, Coordinate}
use mygo_microservices.Cache.RateLimit.{format}
use mygo_microservices.Drivers.Fleet.{
  Command, hset, expire, sadd, srem, zrem, geo_add, del, Fields, Fleet,
}
use mygo_microservices.Drivers.Routes.{Route, index, predefined_routes, generate_random_plate}
use mygo_microservices.Drivers.Movement.{
  Task, Movements, start_driver_movement, stop_driver_movement, tick_point,
}
use mygo_microservices.Drivers.Find.{
  driver_info_key, drivers_online_key, drivers_geo_key, driver_info_ttl,
}

-- pb.Driver
pub record OnlineDriver : Type 0 where
  pub id : String
  pub geohash : String
  pub location : Coordinate
  pub name : String
  pub package_slug : String
  pub profile_picture : String
  pub car_plate : String

-- The numbers that math/rand draws for a registration: `IntN(n)` answers one of them modulo `n`.
pub record Draws : Type 0 where
  pub route : ℕ
  pub first : ℕ
  pub second : ℕ
  pub third : ℕ

abbrev int_n : ℕ → ℕ → ℕ
int_n draw n = draw % n

-- shared/util
abbrev get_random_avatar : ℕ → String
get_random_avatar i = "https://randomuser.me/api/portraits/lego/" <> format i <> ".jpg"

-- `PredefinedRoutes[randomIndex]`
unfoldable pub random_route : Draws → Route
random_route r = elim (index (int_n r.route (length predefined_routes)) predefined_routes) [
  | none ↦ []
  | some route ↦ route
]

-- `route[0][0]` and `route[0][1]`, which every predefined route has.
unfoldable pub start_of : Route → Coordinate
start_of ((lat ∷ lng ∷ rest) ∷ points) = record { latitude = lat; longitude = lng }
start_of other = record { latitude = 0; longitude = 0 }

-- The driver before a geohash is known.
unfoldable pub new_driver : Draws → String → String → OnlineDriver
new_driver r driver_id package_slug = record {
  id = driver_id;
  geohash = "";
  location = start_of (random_route r);
  name = "Lando Norris";
  package_slug = package_slug;
  profile_picture = get_random_avatar (int_n r.route (length predefined_routes));
  car_plate = generate_random_plate (int_n r.first 26) (int_n r.second 26) (int_n r.third 26);
}

-- The answer carries the geohash, where there is one.
with_geohash : OnlineDriver → Result (List String) → OnlineDriver
with_geohash d (ok (g ∷ gs)) = record d { geohash = g }
with_geohash d (ok []) = d
with_geohash d (err e) = d

unfoldable pub unregister_commands : String → String → List Command
unregister_commands driver_id package_slug =
    del (driver_info_key driver_id)
    ∷ (if is_empty package_slug
        then []
        else (srem (drivers_online_key package_slug) driver_id
            ∷ zrem (drivers_geo_key package_slug) driver_id
            ∷ []))

-- How go-redis writes a float64 is a parameter.
module _ (float_text : Float64 → String) where
  abbrev pub info_fields : OnlineDriver → Fields
  info_fields d =
      ("id", d.id)
      ∷ ("name", d.name)
      ∷ ("profilePicture", d.profile_picture)
      ∷ ("carPlate", d.car_plate)
      ∷ ("packageSlug", d.package_slug)
      ∷ ("lat", float_text d.location.latitude)
      ∷ ("lng", float_text d.location.longitude)
      ∷ []

  -- The commands of a registration's pipeline.
  unfoldable pub register_commands : OnlineDriver → List Command
  register_commands d =
      hset (driver_info_key d.id) (info_fields d)
      ∷ expire (driver_info_key d.id) driver_info_ttl
      ∷ sadd (drivers_online_key d.package_slug) d.id
      ∷ geo_add (drivers_geo_key d.package_slug) d.id d.location.latitude d.location.longitude
      ∷ []

  unfoldable pub location_commands : String → String → Float64 → Float64 → List Command
  location_commands driver_id package_slug lat lng =
      geo_add (drivers_geo_key package_slug) driver_id lat lng
      ∷ hset (driver_info_key driver_id) (("lat", float_text lat) ∷ ("lng", float_text lng) ∷ [])
      ∷ expire (driver_info_key driver_id) driver_info_ttl
      ∷ []

module _ (fleet : Fleet) where
  open fleet use {State, exec, geo_hash}

  -- `Service`: the connection to Redis, and the tasks.
  pub record World : Type 0 where
    pub redis : State
    pub movements : Movements

  abbrev pub on_redis : {A : Type 0} → Exec State A → Exec World A
  on_redis = zoom (λ w. w.redis) (λ w s. record w { redis = s })

  -- The geohash is only shown, so its errors are dropped.
  store_geohash : String → Result (List String) → Exec State (Unit {0})
  store_geohash driver_id (ok (g ∷ gs)) =
      ignore (exec (hset (driver_info_key driver_id) (("geohash", g) ∷ []) ∷ []))
  store_geohash driver_id (ok []) = pure tt
  store_geohash driver_id (err e) = pure tt

  start_task : String → String → Route → Exec World (Unit {0})
  start_task driver_id package_slug route w = (
    ok tt,
    record w { movements = start_driver_movement driver_id package_slug route w.movements },
  )

  stop_task : String → Exec World Bool
  stop_task driver_id w =
      let (stopped, m) = stop_driver_movement driver_id w.movements in
      (ok stopped, record w { movements = m })

  unfoldable pub unregister_driver : String → String → Exec World (Unit {0})
  unfolding stop_task
  unregister_driver driver_id package_slug =
      if is_empty driver_id
      then pure tt
      else (ignore (stop_task driver_id)
          >> on_redis (exec (unregister_commands driver_id package_slug)))

  module _ (float_text : Float64 → String) where
    unfoldable pub register_driver : Draws → String → String → Exec World OnlineDriver
    unfolding store_geohash with_geohash start_task
    register_driver r driver_id package_slug =
        let d = new_driver r driver_id package_slug in
        if is_empty driver_id
        then fail (message "driverID is required")
        else (if is_empty package_slug
            then fail (message "packageSlug is required")
            else (on_redis (exec (register_commands float_text d))
                >> (attempt (on_redis (geo_hash (drivers_geo_key package_slug) driver_id)) >>= (λ g.
                    on_redis (store_geohash driver_id g)
                    >> (start_task driver_id package_slug (random_route r)
                        >> pure (with_geohash d g))))))

    unfoldable pub update_driver_location :
        String → String → Float64 → Float64 → Exec State (Unit {0})
    unfolding store_geohash
    update_driver_location driver_id package_slug lat lng =
        if is_empty driver_id || is_empty package_slug
        then fail (message "driverID and packageSlug are required")
        else (exec (location_commands float_text driver_id package_slug lat lng)
            >> (attempt (geo_hash (drivers_geo_key package_slug) driver_id)
                >>= store_geohash driver_id))

    -- What a tick of a driver's task writes at its next point; an error is only logged.
    unfoldable pub simulate_tick : Task → ℕ → Exec State (Unit {0})
    simulate_tick t i = elim (tick_point t.route i) [
      | none ↦ pure tt
      | some (lat, lng) ↦ ignore (update_driver_location t.driver_id t.package_slug lat lng)
    ]
