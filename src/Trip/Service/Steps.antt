-- ===== src/Trip/Service/Steps.antt =====
-- What every step of a read keeps, a read keeps.
use mygo_microservices.Prelude.{String, Bool, Option, none, some}
use mygo_microservices.Go.{Result, ok, err, Exec}
use mygo_microservices.Go.Frame.{Keeps, Keeps-bind, keeps_rules}
use mygo_microservices.Redis.{client}
use mygo_microservices.Cache.Bloom.{bloom_add, bloom_exists}
use mygo_microservices.Cache.Local.{local_cache}
use mygo_microservices.Trip.Domain.{TripModel}
use mygo_microservices.Trip.Repository
use mygo_microservices.Trip.Service.{
  Stores, Service, on_redis, on_bitmap, on_trips, set_local, del_local, get_local, trip_cache_key,
  trip_bloom_filter_key, trip_cache_ttl, write_caches, back_fill, load_from_repository, or_load,
  or_decode, load_trip, after_hit, after_get, read_through, after_bloom, check_bloom, beyond_local,
  after_local_hit, after_local, get_trip_by_id,
}

module _ (env : Stores) (P : Service env → Type 0) where
  abbrev pub Keeping : {A : Type 0} → Exec (Service env) A → Type 0
  Keeping m = Keeps P m

  -- The steps that a read is made of, each of which keeps `P`.
  pub record ReadSteps : Type 0 where
    pub get_redis-Keeping : (k : String) → Keeping (on_redis env (env.kv.get k))
    pub set_redis-Keeping : (k v : String) → Keeping (on_redis env (env.kv.set k v trip_cache_ttl))
    pub del_redis-Keeping : (k : String) → Keeping (on_redis env (env.kv.del k))
    pub bloom_add-Keeping :
        (id : String) → Keeping (on_bitmap env (bloom_add env.bits client trip_bloom_filter_key id))
    pub bloom_exists-Keeping :
        (id : String)
        → Keeping (on_bitmap env (bloom_exists env.bits client trip_bloom_filter_key id))
    pub find-Keeping : (id : String) → Keeping (on_trips env (Repository.get_trip_by_id env.db id))
    pub set_local-Keeping : (k v : String) → Keeping (set_local env local_cache k v)
    pub del_local-Keeping : (k : String) → Keeping (del_local env local_cache k)

module _ (env : Stores) (P : Service env → Type 0) (rules : ReadSteps env P) where
  open rules use {
    get_redis-Keeping, set_redis-Keeping, del_redis-Keeping, bloom_add-Keeping,
    bloom_exists-Keeping, find-Keeping, set_local-Keeping, del_local-Keeping,
  }

  written : (k : String) (r : Result String) → Keeping env P (write_caches env local_cache k r)
  unfolding write_caches
  written k (ok m) = search (keeps_rules, set_redis-Keeping, set_local-Keeping)
  written k (err e) = search keeps_rules

  module _ (id : String) where
    filled : (o : Option TripModel) → Keeping env P (back_fill env client local_cache id o)
    unfolding back_fill
    filled none = search keeps_rules
    filled (some t) = search (keeps_rules, bloom_add-Keeping, written)

    loaded : Keeping env P (load_from_repository env client local_cache id)
    unfolding load_from_repository
    loaded = search (keeps_rules, find-Keeping, filled)

    or_loaded : (r : Result TripModel) → Keeping env P (or_load env client local_cache id r)
    unfolding or_load
    or_loaded (ok t) = search keeps_rules
    or_loaded (err e) = loaded

    or_decoded : (r : Result String) → Keeping env P (or_decode env client local_cache id r)
    unfolding or_decode
    or_decoded (ok v) = or_loaded (env.trip_json.decode v)
    or_decoded (err e) = loaded

    trip_loaded : Keeping env P (load_trip env client local_cache id)
    unfolding load_trip
    trip_loaded = search (keeps_rules, get_redis-Keeping, or_decoded)

    hit :
        (v : String) (r : Result TripModel)
        → Keeping env P (after_hit env client local_cache id v r)
    unfolding after_hit
    hit v (ok t) = search (keeps_rules, set_local-Keeping)
    hit v (err e) = search (keeps_rules, del_redis-Keeping, trip_loaded)

    got : (r : Result String) → Keeping env P (after_get env client local_cache id r)
    unfolding after_get
    got (ok v) = hit v (env.trip_json.decode v)
    got (err e) = trip_loaded

    through : Keeping env P (read_through env client local_cache id)
    unfolding read_through
    through = search (keeps_rules, get_redis-Keeping, got)

    bloomed : (r : Result Bool) → Keeping env P (after_bloom env client local_cache id r)
    unfolding after_bloom
    bloomed (ok b) = search (keeps_rules, through)
    bloomed (err e) = through

    checked : (r : Result String) → Keeping env P (check_bloom env client local_cache id r)
    unfolding check_bloom
    checked (ok c) = search (keeps_rules, bloom_exists-Keeping, bloomed)
    checked (err e) = search keeps_rules

    beyond : Keeping env P (beyond_local env client local_cache id)
    unfolding beyond_local
    beyond = checked (env.db.object_id_from_hex id)

    local_hit : (r : Result TripModel) → Keeping env P (after_local_hit env client local_cache id r)
    unfolding after_local_hit
    local_hit (ok t) = search keeps_rules
    local_hit (err e) = search (keeps_rules, del_local-Keeping, beyond)

    local_got : (o : Option String) → Keeping env P (after_local env client local_cache id o)
    unfolding after_local
    local_got (some v) = local_hit (env.trip_json.decode v)
    local_got none = beyond

    get_local-Keeping : (k : String) → Keeping env P (get_local env local_cache k)
    unfolding get_local
    get_local-Keeping k = record { after = λ w r. r }

    pub read-Keeping : Keeping env P (get_trip_by_id env client local_cache id)
    unfolding get_trip_by_id
    read-Keeping =
        Keeps-bind (get_local env local_cache (trip_cache_key id))
          (after_local env client local_cache id) (get_local-Keeping (trip_cache_key id)) local_got
