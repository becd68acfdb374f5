-- ===== src/Trip/Service/Available.antt =====
-- `GetTripByID` answers while the database does, whatever Redis and the caches do.
use mygo_microservices.Prelude.{
  String, ◌≡◌, ◌≢◌, refl, ap, ◌∙◌, Bool, true, false, Option, none, some, arith, inl, inr,
  Bool-cases,
}
use mygo_microservices.Go.{Result, ok, err}
use mygo_microservices.Redis.{Client, is_nil}
use mygo_microservices.Cache.Bloom.{bloom_add, bloom_exists}
use mygo_microservices.Cache.Local.{LocalCache}
use mygo_microservices.Trip.Domain.{TripModel}
use mygo_microservices.Trip.Repository
use mygo_microservices.Trip.Service.{
  Stores, Service, trip_cache_key, trip_bloom_filter_key, set_local, del_local, get_local,
  write_caches, back_fill, load_from_repository, or_load, or_decode, load_trip, after_hit,
  after_get, read_through, after_bloom, check_bloom, fill_local, fill_local_found,
  get_without_redis, beyond_local, after_local_hit, after_local, get_trip_by_id,
}
use mygo_microservices.Trip.Service.Coherent.{StoresLaws, Coherent}
use mygo_microservices.Trip.Service.Reads.{read-Coherent}

abbrev Answered : Result (Option TripModel) → Type 0
Answered r = (o : Option TripModel) × (r ≡ ok o)

module _ (env : Stores) (laws : StoresLaws env) (rdb : Client) (lc : LocalCache) (id : String)
    (t : TripModel) (valid : env.db.object_id_from_hex id ≡ ok id) where
  open laws use {db_laws}

  -- The database answers, and holds the trip.
  abbrev Ready : Service env → Type 0
  Ready w = env.db.IsUp w.trips × (env.db.lookup w.trips id ≡ some t)

  found :
      (s : env.db.State)
      → env.db.IsUp s
      → env.db.lookup s id ≡ some t
      → (Repository.get_trip_by_id env.db id s).0 ≡ ok (some t)
  unfolding Repository.get_trip_by_id
  found s up at = ground (arith, valid, at, db_laws.up_find id s t up)

  written :
      (r : Result String) (w : Service env)
      → (write_caches env lc (trip_cache_key id) r w).0 ≡ ok tt
  unfolding write_caches set_local
  written (ok m) w = refl
  written (err e) w = refl

  back_filled : (w : Service env) → (back_fill env rdb lc id (some t) w).0 ≡ ok (some t)
  unfolding back_fill
  back_filled w = ground (
    arith,
    written (env.trip_json.encode t)
        (record w { bitmap = (bloom_add env.bits rdb trip_bloom_filter_key id w.bitmap).1 }),
  )

  loaded : (w : Service env) → Ready w → Answered (load_from_repository env rdb lc id w).0
  unfolding load_from_repository
  loaded w ready =
      let s : env.db.State = (Repository.get_trip_by_id env.db id w.trips).1 in
      (some t, ground (arith, found w.trips ready.0 ready.1, back_filled (record w { trips = s })))

  or_loaded :
      (r : Result TripModel) (w : Service env) → Ready w → Answered (or_load env rdb lc id r w).0
  unfolding or_load
  or_loaded (ok t') w ready = (some t', refl)
  or_loaded (err e) w ready = loaded w ready

  or_decoded :
      (r : Result String) (w : Service env) → Ready w → Answered (or_decode env rdb lc id r w).0
  unfolding or_decode
  or_decoded (ok v) w ready = or_loaded (env.trip_json.decode v) w ready
  or_decoded (err e) w ready = loaded w ready

  trip_loaded : (w : Service env) → Ready w → Answered (load_trip env rdb lc id w).0
  unfolding load_trip
  trip_loaded w ready =
      let (r, s) = env.kv.get (trip_cache_key id) w.redis in
      or_decoded r (record w { redis = s }) ready

  hit :
      (v : String) (r : Result TripModel) (w : Service env)
      → Ready w
      → Answered (after_hit env rdb lc id v r w).0
  unfolding after_hit set_local
  hit v (ok t') w ready = (some t', refl)
  hit v (err e) w ready =
      trip_loaded (record w { redis = (env.kv.del (trip_cache_key id) w.redis).1 }) ready

  got : (r : Result String) (w : Service env) → Ready w → Answered (after_get env rdb lc id r w).0
  unfolding after_get
  got (ok v) w ready = hit v (env.trip_json.decode v) w ready
  got (err e) w ready = trip_loaded w ready

  through : (w : Service env) → Ready w → Answered (read_through env rdb lc id w).0
  unfolding read_through
  through w ready =
      let (r, s) = env.kv.get (trip_cache_key id) w.redis in got r (record w { redis = s }) ready

  bloomed :
      (r : Result Bool) (w : Service env)
      → r ≢ ok false
      → Ready w
      → Answered (after_bloom env rdb lc id r w).0
  unfolding after_bloom
  bloomed (ok true) w n ready = through w ready
  bloomed (ok false) w n ready = absurd (n refl)
  bloomed (err e) w n ready = through w ready

  -- The filter does not deny the trip: it says that it may exist, or it does not answer.
  abbrev pub Undenied : Service env → Type 0
  Undenied w = (bloom_exists env.bits rdb trip_bloom_filter_key id w.bitmap).0 ≢ ok false

  local_filled : (r : Result String) (w : Service env) → (fill_local env lc id r w).0 ≡ ok tt
  unfolding fill_local set_local
  local_filled (ok m) w = refl
  local_filled (err e) w = refl

  without_redis : (w : Service env) → Ready w → Answered (get_without_redis env lc id w).0
  unfolding get_without_redis fill_local_found
  without_redis w ready =
      let s : env.db.State = (Repository.get_trip_by_id env.db id w.trips).1 in
      (
        some t,
        ground (
          arith,
          found w.trips ready.0 ready.1,
          local_filled (env.trip_json.encode t) (record w { trips = s }),
        ),
      )

  checked :
      (r : Result String) (w : Service env)
      → r ≡ ok id
      → Undenied w
      → Ready w
      → Answered (check_bloom env rdb lc id r w).0
  unfolding check_bloom
  checked (ok c) w e n ready =
      let (r, s) = bloom_exists env.bits rdb trip_bloom_filter_key id w.bitmap in
      bloomed r (record w { bitmap = s }) n ready
  checked (err x) w e n ready = absurd (ground (arith, e))

  beyond : (w : Service env) → Undenied w → Ready w → Answered (beyond_local env rdb lc id w).0
  unfolding beyond_local
  beyond w n ready = elim (Bool-cases (is_nil rdb)) [
    | inl nil ↦ rw nil (without_redis w ready)
    | inr live ↦ rw live (checked (env.db.object_id_from_hex id) w valid n ready)
  ]

  local_hit :
      (r : Result TripModel) (w : Service env)
      → Undenied w
      → Ready w
      → Answered (after_local_hit env rdb lc id r w).0
  unfolding after_local_hit del_local
  local_hit (ok t') w n ready = (some t', refl)
  local_hit (err e) w n ready = beyond (del_local env lc (trip_cache_key id) w).1 n ready

  local_got :
      (o : Option String) (w : Service env)
      → Undenied w
      → Ready w
      → Answered (after_local env rdb lc id o w).0
  unfolding after_local
  local_got (some v) w n ready = local_hit (env.trip_json.decode v) w n ready
  local_got none w n ready = beyond w n ready

  canonical : (x : String) → env.db.object_id_from_hex id ≡ ok x → x ≡ id
  canonical x p = ground (arith, valid, p)

  -- While the database answers and holds the trip, no cache contradicts it, and the filter does not
  -- deny it, a read under a valid identifier answers with the trip, with or without a Redis client
  -- and a local cache, and whatever Redis answers or fails to answer.
  pub read_available :
      (view : String → Option TripModel) (w : Service env)
      → Coherent env view w
      → env.db.IsUp w.trips
      → view id ≡ some t
      → Undenied w
      → (get_trip_by_id env rdb lc id w).0 ≡ ok (some t)
  unfolding get_trip_by_id get_local
  read_available view w c up at n =
      let (o, e) = local_got _ w n (up, c.stored id ∙ at) in
      let right = (read-Coherent env laws rdb lc id view w canonical c).1 o e in
      e ∙ ap ok (right ∙ at)
