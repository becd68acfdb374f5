-- ===== src/Trip/Service.antt =====
-- services/trip-service/internal/service/service.go: trips behind two caches and a Bloom filter, and
-- the fares. Of concurrent reads of one trip `singleflight` runs one, the leader, and that run is
-- modelled; the others get what it returns.
pub mod Coherent
pub mod Reads
pub mod Updates
pub mod Hidden
pub mod Available
pub mod Steps
pub mod Ready
pub mod Refinement
use mygo_microservices.Prelude.{
  ℕ, ◌*◌, String, ◌<>◌, Bool, true, false, Option, none, some, if◌then◌else◌,
}
use mygo_microservices.Go.{
  Error, message, Result, ok, err, Exec, pure, fail, attempt, ignore, lift, Codec, ◌>>=◌, ◌>>◌,
}
use mygo_microservices.Redis.{Kv, Client, is_nil}
use mygo_microservices.Cache.Bloom.{Bits, bloom_add, bloom_exists}
use mygo_microservices.Cache.Local.{Ristretto, LocalCache, local_get, local_set, local_del}
use mygo_microservices.Trip.Domain.{RideFareModel, TripModel, TripDriver, Driver, pending}
use mygo_microservices.Trip.Repository.{Collection}
use mygo_microservices.Trip.Repository

-- 10 * time.Minute
abbrev pub trip_cache_ttl : ℕ
trip_cache_ttl = 600 * 1000000000

-- 2 * time.Second
abbrev pub local_cache_ttl : ℕ
local_cache_ttl = 2 * 1000000000

abbrev pub trip_bloom_filter_key : String
trip_bloom_filter_key = "bloom:trips"

abbrev pub trip_cache_key : String → String
trip_cache_key id = "trip:" <> id

abbrev pub trip_not_found : String → Error
trip_not_found id = message ("trip not found: " <> id)

-- What the service is built over, with the form in which trips are cached.
pub record Stores : Type 1 where
  pub kv : Kv
  pub bits : Bits
  pub ristretto : Ristretto
  pub db : Collection
  pub trip_json : Codec TripModel

module _ (env : Stores) where
  pub record Service : Type 0 where
    pub redis : env.kv.State
    pub bitmap : env.bits.State
    pub memory : env.ristretto.State
    pub trips : env.db.State

  abbrev pub on_redis : {A : Type 0} → Exec env.kv.State A → Exec Service A
  on_redis m w = let (r, s) = m w.redis in (r, record w { redis = s })

  abbrev pub on_bitmap : {A : Type 0} → Exec env.bits.State A → Exec Service A
  on_bitmap m w = let (r, s) = m w.bitmap in (r, record w { bitmap = s })

  abbrev pub on_trips : {A : Type 0} → Exec env.db.State A → Exec Service A
  on_trips m w = let (r, s) = m w.trips in (r, record w { trips = s })

  -- Two methods of the local cache, which have no error.
  unfoldable pub set_local : LocalCache → String → String → Exec Service (Unit {0})
  set_local lc key v w =
      (ok tt, record w { memory = local_set env.ristretto lc key v local_cache_ttl w.memory })

  unfoldable pub del_local : LocalCache → String → Exec Service (Unit {0})
  del_local lc key w = (ok tt, record w { memory = local_del env.ristretto lc key w.memory })

  unfoldable pub get_local : LocalCache → String → Exec Service (Option String)
  get_local lc key w = (ok (local_get env.ristretto lc key w.memory), w)

  -- `new_id` is what `primitive.NewObjectID` returns.
  unfoldable pub create_trip : Client → String → RideFareModel → Exec Service TripModel
  create_trip rdb new_id fare = do
    created ← on_trips (
        Repository.create_trip env.db (record {
          id = new_id;
          user_id = fare.user_id;
          status = pending;
          ride_fare = some fare;
          driver = some (record { id = ""; name = ""; profile_picture = ""; car_plate = "" });
        }))
    ignore (
        on_bitmap
          (if is_nil rdb then pure tt else bloom_add env.bits rdb trip_bloom_filter_key created.id))
    pure created

  -- The marshalled trip goes to both caches, where it could be marshalled.
  unfoldable pub write_caches : LocalCache → String → Result String → Exec Service (Unit {0})
  write_caches lc key (err e) = pure tt
  write_caches lc key (ok marshalled) = do
    ignore (on_redis (env.kv.set key marshalled trip_cache_ttl))
    set_local lc key marshalled

  unfoldable pub back_fill :
      Client → LocalCache → String → Option TripModel → Exec Service (Option TripModel)
  back_fill rdb lc id none = pure none
  back_fill rdb lc id (some t) = do
    ignore (on_bitmap (bloom_add env.bits rdb trip_bloom_filter_key id))
    write_caches lc (trip_cache_key id) (env.trip_json.encode t)
    pure (some t)

  unfoldable pub load_from_repository :
      Client → LocalCache → String → Exec Service (Option TripModel)
  load_from_repository rdb lc id = do
    found ← on_trips (Repository.get_trip_by_id env.db id)
    back_fill rdb lc id found

  -- A cached text that is a trip answers; anything else leads on to the database.
  unfoldable pub or_load :
      Client → LocalCache → String → Result TripModel → Exec Service (Option TripModel)
  or_load rdb lc id (ok t) = pure (some t)
  or_load rdb lc id (err e) = load_from_repository rdb lc id

  unfoldable pub or_decode :
      Client → LocalCache → String → Result String → Exec Service (Option TripModel)
  or_decode rdb lc id (ok cached) = or_load rdb lc id (env.trip_json.decode cached)
  or_decode rdb lc id (err e) = load_from_repository rdb lc id

  -- The closure that `singleflight` runs: it looks into Redis again.
  unfoldable pub load_trip : Client → LocalCache → String → Exec Service (Option TripModel)
  load_trip rdb lc id = attempt (on_redis (env.kv.get (trip_cache_key id))) >>= or_decode rdb lc id

  -- A hit in Redis; a bad text is deleted there.
  unfoldable pub after_hit :
      Client → LocalCache → String → String → Result TripModel → Exec Service (Option TripModel)
  after_hit rdb lc id cached (ok t) = set_local lc (trip_cache_key id) cached >> pure (some t)
  after_hit rdb lc id cached (err e) =
      ignore (on_redis (env.kv.del (trip_cache_key id))) >> load_trip rdb lc id

  unfoldable pub after_get :
      Client → LocalCache → String → Result String → Exec Service (Option TripModel)
  after_get rdb lc id (ok cached) = after_hit rdb lc id cached (env.trip_json.decode cached)
  after_get rdb lc id (err e) = load_trip rdb lc id

  unfoldable pub read_through : Client → LocalCache → String → Exec Service (Option TripModel)
  read_through rdb lc id =
      attempt (on_redis (env.kv.get (trip_cache_key id))) >>= after_get rdb lc id

  -- A check of the filter that fails lets the read pass.
  unfoldable pub after_bloom :
      Client → LocalCache → String → Result Bool → Exec Service (Option TripModel)
  after_bloom rdb lc id (ok hit) = if hit then read_through rdb lc id else fail (trip_not_found id)
  after_bloom rdb lc id (err e) = read_through rdb lc id

  -- Only the text of an ObjectID is looked for.
  unfoldable pub check_bloom :
      Client → LocalCache → String → Result String → Exec Service (Option TripModel)
  check_bloom rdb lc id (ok object_id) =
      attempt (on_bitmap (bloom_exists env.bits rdb trip_bloom_filter_key id))
      >>= after_bloom rdb lc id
  check_bloom rdb lc id (err e) = fail (trip_not_found id)

  pub fill_local : LocalCache → String → Result String → Exec Service (Unit {0})
  fill_local lc id (ok marshalled) = set_local lc (trip_cache_key id) marshalled
  fill_local lc id (err e) = pure tt

  pub fill_local_found : LocalCache → String → Option TripModel → Exec Service (Option TripModel)
  fill_local_found lc id none = pure none
  fill_local_found lc id (some t) = do fill_local lc id (env.trip_json.encode t); pure (some t)

  -- Without Redis there is the local cache and the database.
  unfoldable pub get_without_redis : LocalCache → String → Exec Service (Option TripModel)
  get_without_redis lc id =
      on_trips (Repository.get_trip_by_id env.db id) >>= fill_local_found lc id

  unfoldable pub beyond_local : Client → LocalCache → String → Exec Service (Option TripModel)
  beyond_local rdb lc id =
      if is_nil rdb
      then get_without_redis lc id
      else check_bloom rdb lc id (env.db.object_id_from_hex id)

  -- A hit in the local cache; a bad text is deleted there.
  unfoldable pub after_local_hit :
      Client → LocalCache → String → Result TripModel → Exec Service (Option TripModel)
  after_local_hit rdb lc id (ok t) = pure (some t)
  after_local_hit rdb lc id (err e) = del_local lc (trip_cache_key id) >> beyond_local rdb lc id

  unfoldable pub after_local :
      Client → LocalCache → String → Option String → Exec Service (Option TripModel)
  after_local rdb lc id (some v) = after_local_hit rdb lc id (env.trip_json.decode v)
  after_local rdb lc id none = beyond_local rdb lc id

  unfoldable pub get_trip_by_id : Client → LocalCache → String → Exec Service (Option TripModel)
  get_trip_by_id rdb lc id = get_local lc (trip_cache_key id) >>= after_local rdb lc id

  -- A failure to delete the cached trip is logged.
  unfoldable pub update_trip :
      Client → LocalCache → String → String → Option Driver → Exec Service (Unit {0})
  update_trip rdb lc trip_id status driver = do
    on_trips (Repository.update_trip env.db trip_id status driver)
    ignore (if is_nil rdb then pure tt else on_redis (env.kv.del (trip_cache_key trip_id)))
    del_local lc (trip_cache_key trip_id)
