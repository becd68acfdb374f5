-- ===== src/Trip/Fares.antt =====
-- The fares in services/trip-service/internal/service/service.go: prices, storage, and the check of
-- their owner. The goroutines of `GenerateTripFares` write different keys; they are run in the order
-- of their indices.
pub mod Laws
use mygo_microservices.Prelude.{
  ℕ, suc, ◌+◌, ◌*◌, String, ◌<>◌, Bool, true, false, not, Option, none, some, List, [], ◌∷◌, ◌==◌,
  if◌then◌else◌, is_empty,
}
use mygo_microservices.Go.{
  Error, error_text, message, external, Result, ok, err, Exec, pure, fail, attempt, lift, Codec,
  ◌>>=◌, ◌>>◌,
}
use mygo_microservices.Redis.{Kv, Client, is_nil}
use mygo_microservices.Trip.Domain.{Float64, Coordinate, OsrmRoute, OsrmApiResponse, RideFareModel}

-- Addition and multiplication of float64 values, which the processor does.
pub record Floats : Type 0 where
  pub add : Float64 → Float64 → Float64
  pub mul : Float64 → Float64 → Float64

pub record PricingConfig : Type 0 where
  pub price_per_unit_of_distance : Float64
  pub pricing_per_minute : Float64

-- 1.5 and 0.25
abbrev pub default_pricing_config : PricingConfig
default_pricing_config = record {
  price_per_unit_of_distance = 0x3ff8000000000000;
  pricing_per_minute = 0x3fd0000000000000;
}

abbrev base_fare : String → Float64 → RideFareModel
base_fare slug price = record {
  id = "";
  user_id = "";
  package_slug = slug;
  total_price_in_cents = price;
  route = none;
}

-- 200, 350, 400 and 1000
unfoldable pub get_base_fares : List RideFareModel
get_base_fares =
    base_fare "suv" 0x4069000000000000
    ∷ base_fare "sedan" 0x4075e00000000000
    ∷ base_fare "van" 0x4079000000000000
    ∷ base_fare "luxury" 0x408f400000000000
    ∷ []

-- The answer of `GetRoute` where OSRM is not asked: 5.0 and 600.
unfoldable pub mock_route : Coordinate → Coordinate → OsrmApiResponse
mock_route pickup destination =
    record {
      distance = 0x4014000000000000;
      duration = 0x4082c00000000000;
      coordinates =
          (pickup.latitude ∷ pickup.longitude ∷ [])
          ∷ (destination.latitude ∷ destination.longitude ∷ [])
          ∷ [];
    }
    ∷ []

module _ (fl : Floats) where
  unfoldable pub estimate_fare_route : RideFareModel → OsrmRoute → RideFareModel
  estimate_fare_route f route =
      let distance_fare = fl.mul route.distance default_pricing_config.price_per_unit_of_distance in
      let time_fare = fl.mul route.duration default_pricing_config.pricing_per_minute in
      base_fare f.package_slug (fl.add (fl.add f.total_price_in_cents distance_fare) time_fare)

  pub estimate_all : List RideFareModel → OsrmRoute → List RideFareModel
  estimate_all [] route = []
  estimate_all (f ∷ fs) route = estimate_fare_route f route ∷ estimate_all fs route

  -- The loop reads `Routes[0]`, which panics where there is no route.
  unfoldable pub estimate_packages_price_with_route : OsrmApiResponse → Result (List RideFareModel)
  unfolding estimate_all get_base_fares
  estimate_packages_price_with_route [] = err (external "index out of range [0] with length 0")
  estimate_packages_price_with_route (route ∷ routes) = ok (estimate_all get_base_fares route)

-- The collection `rideFares`, and what is done with a text of an ObjectID.
pub record FareCollection : Type 1 where
  pub State : Type 0
  pub object_id_from_hex : String → Result String
  pub insert_one : RideFareModel → Exec State String
  pub find_one : String → Exec State RideFareModel

module _ (db : FareCollection) where
  unfoldable pub save_ride_fare : RideFareModel → Exec db.State RideFareModel
  save_ride_fare fare = do inserted ← db.insert_one fare; pure (record fare { id = inserted })

  unfoldable pub get_ride_fare_by_id : String → Exec db.State RideFareModel
  get_ride_fare_by_id id = do object_id ← lift (db.object_id_from_hex id); db.find_one object_id

-- 10 * time.Minute
abbrev pub fare_cache_ttl : ℕ
fare_cache_ttl = 600 * 1000000000

abbrev pub fare_cache_key : String → String
fare_cache_key id = "fare:" <> id

pub record FareStores : Type 1 where
  pub kv : Kv
  pub db : FareCollection
  pub fare_json : Codec RideFareModel
  -- the texts of the libraries' errors
  pub library : Error → String

module _ (env : FareStores) where
  pub record FareState : Type 0 where
    pub redis : env.kv.State
    pub fares : env.db.State

  abbrev pub on_redis : {A : Type 0} → Exec env.kv.State A → Exec FareState A
  on_redis m w = let (r, s) = m w.redis in (r, record w { redis = s })

  abbrev pub on_fares : {A : Type 0} → Exec env.db.State A → Exec FareState A
  on_fares m w = let (r, s) = m w.fares in (r, record w { fares = s })

  -- `fmt.Errorf("…: %w", err)`
  unfoldable pub wrapped : {A : Type 0} → String → Exec FareState A → Exec FareState A
  wrapped prefix m w =
      let (r, w') = m w in
      elim r [
        | ok a ↦ (ok a, w')
        | err e ↦ (err (message (prefix <> error_text env.library e)), w')
      ]

  -- One goroutine of `GenerateTripFares`.
  unfoldable pub store_fare : Client → RideFareModel → Exec FareState RideFareModel
  store_fare rdb fare =
      if is_nil rdb
      then wrapped "failed to save trip fare: " (on_fares (save_ride_fare env.db fare))
      else do
        b ← wrapped "marshal fare: " (lift (env.fare_json.encode fare))
        wrapped "redis save fare: "
            (on_redis (env.kv.set (fare_cache_key fare.id) b fare_cache_ttl) >> pure fare)

  -- Every goroutine runs; `new_id` numbers the identifiers that `NewObjectID` gives.
  unfoldable pub store_fares :
      Client
      → (ℕ → String)
      → String
      → OsrmApiResponse
      → ℕ
      → List RideFareModel
      → FareState
      → List (Result RideFareModel) × FareState
  store_fares rdb new_id user_id route i [] w = ([], w)
  store_fares rdb new_id user_id route i (f ∷ fs) w =
      let (r, w') =
        store_fare rdb
          (record {
            id = new_id i;
            user_id = user_id;
            package_slug = f.package_slug;
            total_price_in_cents = f.total_price_in_cents;
            route = some route;
          })
          w in
      let (rs, w'') = store_fares rdb new_id user_id route (suc i) fs w' in (r ∷ rs, w'')

  -- The fares, or the first error.
  unfoldable pub first_error : List (Result RideFareModel) → Result (List RideFareModel)
  first_error [] = ok []
  first_error (r ∷ rs) =
      let rest = first_error rs in
      elim r [ err e ↦ err e | ok f ↦ elim rest [ err e ↦ err e | ok fs ↦ ok (f ∷ fs) ] ]

  unfoldable pub generate_trip_fares :
      Client
      → (ℕ → String)
      → List RideFareModel
      → String
      → OsrmApiResponse
      → Exec FareState (List RideFareModel)
  unfolding store_fares first_error
  generate_trip_fares rdb new_id ride_fares user_id route w =
      let (rs, w') = store_fares rdb new_id user_id route 0 ride_fares w in (first_error rs, w')

  pub fare_of : Result RideFareModel → Option RideFareModel
  fare_of (ok fare) = some fare
  fare_of (err e) = none

  -- The fare in Redis; a failure, an empty text and a bad one all count as a miss.
  pub cached_fare : Result String → Option RideFareModel
  cached_fare (ok raw) = if is_empty raw then none else fare_of (env.fare_json.decode raw)
  cached_fare (err e) = none

  pub check_owner : String → RideFareModel → Exec FareState RideFareModel
  check_owner user_id fare =
      if not (user_id == fare.user_id)
      then fail (message "fare does not belong to the user")
      else pure fare

  pub or_repository : String → Option RideFareModel → Exec FareState RideFareModel
  or_repository fare_id (some fare) = pure fare
  or_repository fare_id none =
      wrapped "failed to get trip fare: " (on_fares (get_ride_fare_by_id env.db fare_id))

  -- The repository gives no fare only with an error, so `fare does not exist` is not reached.
  unfoldable pub get_and_validate_fare : Client → String → String → Exec FareState RideFareModel
  get_and_validate_fare rdb fare_id user_id = do
    raw ←
        attempt
          (if is_nil rdb then fail (message "") else on_redis (env.kv.get (fare_cache_key fare_id)))
    fare ← or_repository fare_id (cached_fare raw)
    check_owner user_id fare
