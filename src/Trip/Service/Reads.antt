-- ===== src/Trip/Service/Reads.antt =====
-- `GetTripByID`: what a read answers is the database's trip, wherever it is found.
use mygo_microservices.Prelude.{String, ◌≡◌, refl, sym, Bool, Option, none, some, arith}
use mygo_microservices.Go.{Result, ok, err, pure}
use mygo_microservices.Go.Triple.{
  Any, Answers, Triple-pure, Triple-fail, Triple-if, Triple-bind, Triple-attempt, Triple-then,
  Triple-ignore,
}
use mygo_microservices.Redis.{Client, is_nil}
use mygo_microservices.Cache.Bloom.{bloom_add, bloom_exists}
use mygo_microservices.Cache.Local.{LocalCache}
use mygo_microservices.Trip.Domain.{TripModel}
use mygo_microservices.Trip.Repository
use mygo_microservices.Trip.Repository.{CollectionLaws}
use mygo_microservices.Trip.Service.{
  Stores, Service, on_redis, on_bitmap, on_trips, set_local, del_local, get_local, trip_cache_key,
  write_caches, back_fill, load_from_repository, or_load, or_decode, load_trip, after_hit,
  after_get, read_through, after_bloom, check_bloom, fill_local, fill_local_found,
  get_without_redis, beyond_local, after_local_hit, after_local, get_trip_by_id, trip_cache_ttl,
  trip_bloom_filter_key,
}
use mygo_microservices.Trip.Service.Coherent.{
  StoresLaws, Coherent, Fits, Hoare, Reads, Canonical, bitmap-Any, get_redis, set_redis, del_redis,
  get_memory, set_memory, del_memory, find,
}

module _ (env : Stores) (laws : StoresLaws env) (view : String → Option TripModel) where
  open laws use {json_laws}

  save :
      (lc : LocalCache) (id : String) (t : TripModel) (r : Result String)
      → view id ≡ some t
      → env.trip_json.encode t ≡ r
      → Hoare env laws view (write_caches env lc (trip_cache_key id) r) Any
  unfolding write_caches
  save lc id t (ok m) at e =
      let fits : Fits env view id m =
        λ t' d. ground (arith, json_laws.decode-encode t m e, d, at) in
      Triple-ignore (on_redis env (env.kv.set (trip_cache_key id) m trip_cache_ttl))
        (set_local env lc (trip_cache_key id) m) (set_redis env laws view id m fits)
        (set_memory env laws view lc id m fits)
  save lc id t (err x) at e = record { after = λ w c. (c, tt) }

  local_saved :
      (lc : LocalCache) (id : String) (t : TripModel) (r : Result String)
      → view id ≡ some t
      → env.trip_json.encode t ≡ r
      → Hoare env laws view (fill_local env lc id r) Any
  unfolding fill_local
  local_saved lc id t (ok m) at e =
      set_memory env laws view lc id m
        (λ t' d. ground (arith, json_laws.decode-encode t m e, d, at))
  local_saved lc id t (err x) at e = record { after = λ w c. (c, tt) }

  module _ (rdb : Client) (lc : LocalCache) (id : String)
      (canonical : Canonical env laws view id) where
    filled :
        (o : Option TripModel)
        → o ≡ view id
        → Hoare env laws view (back_fill env rdb lc id o) (Reads env laws view id)
    unfolding back_fill
    filled none e = Triple-pure none e
    filled (some t) e =
        Triple-ignore (on_bitmap env (bloom_add env.bits rdb trip_bloom_filter_key id)) _
          (bitmap-Any env laws view (bloom_add env.bits rdb trip_bloom_filter_key id))
          (Triple-then (write_caches env lc (trip_cache_key id) (env.trip_json.encode t))
            (pure (some t)) (save lc id t (env.trip_json.encode t) (sym e) refl)
            (Triple-pure (some t) e))

    loaded : Hoare env laws view (load_from_repository env rdb lc id) (Reads env laws view id)
    unfolding load_from_repository
    loaded =
        Triple-bind (on_trips env (Repository.get_trip_by_id env.db id)) (back_fill env rdb lc id)
          (find env laws view id canonical) (λ o h. filled o (h o refl))

    or_loaded :
        (v : String) (r : Result TripModel)
        → Fits env view id v
        → env.trip_json.decode v ≡ r
        → Hoare env laws view (or_load env rdb lc id r) (Reads env laws view id)
    unfolding or_load
    or_loaded v (ok t) fits e = Triple-pure (some t) (sym (fits t e))
    or_loaded v (err x) fits e = loaded

    or_decoded :
        (r : Result String)
        → Answers (Fits env view id) r
        → Hoare env laws view (or_decode env rdb lc id r) (Reads env laws view id)
    unfolding or_decode
    or_decoded (ok v) h = or_loaded v (env.trip_json.decode v) (h v refl) refl
    or_decoded (err e) h = loaded

    trip_loaded : Hoare env laws view (load_trip env rdb lc id) (Reads env laws view id)
    unfolding load_trip
    trip_loaded =
        Triple-attempt (on_redis env (env.kv.get (trip_cache_key id))) (or_decode env rdb lc id)
          (get_redis env laws view id) or_decoded

    hit :
        (v : String) (r : Result TripModel)
        → Fits env view id v
        → env.trip_json.decode v ≡ r
        → Hoare env laws view (after_hit env rdb lc id v r) (Reads env laws view id)
    unfolding after_hit
    hit v (ok t) fits e =
        Triple-then (set_local env lc (trip_cache_key id) v) (pure (some t))
          (set_memory env laws view lc id v fits) (Triple-pure (some t) (sym (fits t e)))
    hit v (err x) fits e =
        Triple-ignore (on_redis env (env.kv.del (trip_cache_key id))) (load_trip env rdb lc id)
          (del_redis env laws view id) trip_loaded

    got :
        (r : Result String)
        → Answers (Fits env view id) r
        → Hoare env laws view (after_get env rdb lc id r) (Reads env laws view id)
    unfolding after_get
    got (ok v) h = hit v (env.trip_json.decode v) (h v refl) refl
    got (err e) h = trip_loaded

    through : Hoare env laws view (read_through env rdb lc id) (Reads env laws view id)
    unfolding read_through
    through =
        Triple-attempt (on_redis env (env.kv.get (trip_cache_key id))) (after_get env rdb lc id)
          (get_redis env laws view id) got

    bloomed :
        (r : Result Bool)
        → Any r
        → Hoare env laws view (after_bloom env rdb lc id r) (Reads env laws view id)
    unfolding after_bloom
    bloomed (ok b) h = Triple-if b _ _ through (Triple-fail _)
    bloomed (err e) h = through

    checked :
        (r : Result String)
        → Hoare env laws view (check_bloom env rdb lc id r) (Reads env laws view id)
    unfolding check_bloom
    checked (ok c) =
        Triple-attempt (on_bitmap env (bloom_exists env.bits rdb trip_bloom_filter_key id))
          (after_bloom env rdb lc id) (bitmap-Any env laws view _) bloomed
    checked (err e) = Triple-fail _

    local_filled :
        (o : Option TripModel)
        → o ≡ view id
        → Hoare env laws view (fill_local_found env lc id o) (Reads env laws view id)
    unfolding fill_local_found fill_local
    local_filled none e = Triple-pure none e
    local_filled (some t) e =
        Triple-then (fill_local env lc id (env.trip_json.encode t)) (pure (some t))
          (local_saved lc id t (env.trip_json.encode t) (sym e) refl) (Triple-pure (some t) e)

    beyond : Hoare env laws view (beyond_local env rdb lc id) (Reads env laws view id)
    unfolding beyond_local get_without_redis
    beyond =
        Triple-if (is_nil rdb) _ _
          (Triple-bind (on_trips env (Repository.get_trip_by_id env.db id))
            (fill_local_found env lc id) (find env laws view id canonical)
            (λ o h. local_filled o (h o refl)))
          (checked (env.db.object_id_from_hex id))

    local_hit :
        (v : String) (r : Result TripModel)
        → Fits env view id v
        → env.trip_json.decode v ≡ r
        → Hoare env laws view (after_local_hit env rdb lc id r) (Reads env laws view id)
    unfolding after_local_hit
    local_hit v (ok t) fits e = Triple-pure (some t) (sym (fits t e))
    local_hit v (err x) fits e =
        Triple-then (del_local env lc (trip_cache_key id)) (beyond_local env rdb lc id)
          (del_memory env laws view lc id) beyond

    local_got :
        (o : Option String)
        → ((v : String) → o ≡ some v → Fits env view id v)
        → Hoare env laws view (after_local env rdb lc id o) (Reads env laws view id)
    unfolding after_local
    local_got (some v) h = local_hit v (env.trip_json.decode v) (h v refl) refl
    local_got none h = beyond

    got_trip : Hoare env laws view (get_trip_by_id env rdb lc id) (Reads env laws view id)
    unfolding get_trip_by_id
    got_trip =
        Triple-bind (get_local env lc (trip_cache_key id)) (after_local env rdb lc id)
          (get_memory env laws view lc id) (λ o h. local_got o (h o refl))

module _ (env : Stores) (laws : StoresLaws env) (rdb : Client) (lc : LocalCache) (id : String) where
  -- While the database holds the trips of `view` and no cache contradicts it, a read under an
  -- identifier in the database's own form, with or without Redis and a local cache, keeps that so,
  -- and an answer without error is the database's trip, whatever fails on the way.
  pub read-Coherent :
      (view : String → Option TripModel) (w : Service env)
      → Canonical env laws view id
      → Coherent env view w
      → let r = get_trip_by_id env rdb lc id w in
        Coherent env view r.1 × ((o : Option TripModel) → r.0 ≡ ok o → o ≡ view id)
  read-Coherent view w canonical c = (got_trip env laws view rdb lc id canonical).after w c
