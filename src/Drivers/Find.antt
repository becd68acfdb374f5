-- ===== src/Drivers/Find.antt =====
-- services/driver-service/service.go: the two searches for drivers, and the upkeep of their records.
pub mod Laws
pub mod Gone
pub mod Cleaning
use mygo_microservices.Prelude.{
  ℕ, ◌+◌, ◌^◌, String, ◌<>◌, Bool, List, [], ◌∷◌, ◌++◌, length, ◌=ℕ=◌, ltb, leb, ◌&&◌, ◌||◌,
  if◌then◌else◌, is_empty,
}
use mygo_microservices.Go.{message, Exec, pure, fail, ignore, ◌>>=◌, ◌>>◌}
use mygo_microservices.Trip.Domain.{Float64}
use mygo_microservices.Drivers.Fleet.{Command, srem, zrem, sadd, expire, GeoQuery, Fleet}

-- Five minutes.
abbrev pub driver_info_ttl : ℕ
driver_info_ttl = 300

abbrev pub find_candidate_count : ℕ
find_candidate_count = 8

abbrev pub find_result_limit : ℕ
find_result_limit = 5

-- 3.0
abbrev pub default_geo_search_radius_km : Float64
default_geo_search_radius_km = 0x4008000000000000

abbrev pub driver_info_key : String → String
driver_info_key driver_id = "driver:info:" <> driver_id

abbrev pub drivers_online_key : String → String
drivers_online_key package_slug = "drivers:online:" <> package_slug

abbrev pub drivers_geo_key : String → String
drivers_geo_key package_slug = "geo:drivers:" <> package_slug

-- `x <= 0` of a float64: zero, or the sign bit of a number up to minus infinity.
abbrev pub not_positive : Float64 → Bool
not_positive x = (x =ℕ= 0) || (leb (2 ^ 63) x && leb x 0xFFF0000000000000)

-- The query that a search for nearby drivers makes.
abbrev pub nearby : Float64 → Float64 → Float64 → GeoQuery
nearby lat lng radius_km = record {
  longitude = lng;
  latitude = lat;
  radius = if not_positive radius_km then default_geo_search_radius_km else radius_km;
  unit = "km";
  count = find_candidate_count;
  sort = "ASC";
}

module _ (fleet : Fleet) where
  open fleet use {State, exec, exists_key, srandmember, geo_radius}

  -- The loop over the candidates. One whose record is gone is cleaned away, and an error of that
  -- is dropped.
  unfoldable pub collect :
      (String → Exec State (Unit {0})) → List String → List String → Exec State (List String)
  collect clean [] matched = pure matched
  collect clean (id ∷ ids) matched = exists_key (driver_info_key id) >>= (λ n.
      if n =ℕ= 1
      then (let more = matched ++ id ∷ [] in
          if length more =ℕ= find_result_limit then pure more else collect clean ids more)
      else (ignore (clean id) >> collect clean ids matched))

  unfoldable pub clean_set : String → String → Exec State (Unit {0})
  clean_set package_type id = exec (srem (drivers_online_key package_type) id ∷ [])

  unfoldable pub clean_both : String → String → Exec State (Unit {0})
  clean_both package_type id =
      ignore (exec (srem (drivers_online_key package_type) id ∷ []))
      >> exec (zrem (drivers_geo_key package_type) id ∷ [])

  unfoldable pub find_available_drivers : String → Exec State (List String)
  find_available_drivers package_type =
      if is_empty package_type
      then pure []
      else (srandmember (drivers_online_key package_type) find_candidate_count >>= λ ids.
          collect (clean_set package_type) ids [])

  unfoldable pub find_nearby_drivers :
      Float64 → Float64 → Float64 → String → Exec State (List String)
  find_nearby_drivers lat lng radius_km package_type =
      if is_empty package_type
      then pure []
      else (geo_radius (drivers_geo_key package_type) (nearby lat lng radius_km) >>= λ ids.
          collect (clean_both package_type) ids [])

  unfoldable pub heartbeat_driver : String → String → Exec State (Unit {0})
  heartbeat_driver driver_id package_slug =
      if is_empty driver_id || is_empty package_slug
      then fail (message "driverID and packageSlug are required")
      else exec (
          sadd (drivers_online_key package_slug) driver_id
          ∷ expire (driver_info_key driver_id) driver_info_ttl
          ∷ [])
