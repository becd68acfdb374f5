-- ===== src/Trip/Service/Ready.antt =====
-- Reads and updates leave Redis, the database and the filter as able to answer as they were.
use mygo_microservices.Prelude.{String, ◌≡◌, sym, ◌∙◌, Option, some}
use mygo_microservices.Go.{Exec}
use mygo_microservices.Go.Frame.{Keeps, Keeps-bind, keeps_rules}
use mygo_microservices.Redis.{client}
use mygo_microservices.Cache.Bloom.{BitsLaws, bloom_add, bloom_exists}
use mygo_microservices.Cache.Bloom.Laws.{IsMember, IsMember-add, exists_keeps}
use mygo_microservices.Cache.Local.{local_cache}
use mygo_microservices.Trip.Domain.{TripModel, Driver}
use mygo_microservices.Trip.Repository
use mygo_microservices.Trip.Repository.Reads.{
  get_trip_by_id_keeps, get_trip_by_id-IsUp, update_trip-IsUp, update_trip_old,
}
use mygo_microservices.Trip.Service.{
  Stores, Service, on_redis, on_bitmap, on_trips, set_local, del_local, trip_bloom_filter_key,
  trip_cache_ttl, get_trip_by_id, update_trip,
}
use mygo_microservices.Trip.Service.Steps.{ReadSteps, read-Keeping}
use mygo_microservices.Trip.Service.Coherent.{StoresLaws}

-- The database's trips for an identifier.
abbrev pub trips_of : (env : Stores) → Service env → String → Option TripModel
trips_of env w id = env.db.lookup w.trips id

module _ (env : Stores) (laws : StoresLaws env) (bits_laws : BitsLaws env.bits) where
  open laws use {kv_laws, ristretto_laws, db_laws, json_laws}

  -- Redis and the database answer, and the filter has every trip that the database holds.
  pub record IsReady (w : Service env) : Type 0 where
    pub redis_up : env.kv.IsUp w.redis
    pub db_up : env.db.IsUp w.trips
    pub known :
        (id : String) (t : TripModel)
        → env.db.lookup w.trips id ≡ some t
        → IsMember env.bits bits_laws trip_bloom_filter_key id w.bitmap

  abbrev Kept : {A : Type 0} → Exec (Service env) A → Type 0
  Kept m = Keeps IsReady m

  get_redis-Kept : (k : String) → Kept (on_redis env (env.kv.get k))
  get_redis-Kept k = record {
    after = λ w r. record {
      redis_up = kv_laws.get-IsUp k w.redis r.redis_up;
      db_up = r.db_up;
      known = r.known;
    };
  }

  set_redis-Kept : (k v : String) → Kept (on_redis env (env.kv.set k v trip_cache_ttl))
  set_redis-Kept k v = record {
    after = λ w r. record {
      redis_up = kv_laws.set-IsUp k v trip_cache_ttl w.redis r.redis_up;
      db_up = r.db_up;
      known = r.known;
    };
  }

  del_redis-Kept : (k : String) → Kept (on_redis env (env.kv.del k))
  del_redis-Kept k = record {
    after = λ w r. record {
      redis_up = kv_laws.del-IsUp k w.redis r.redis_up;
      db_up = r.db_up;
      known = r.known;
    };
  }

  bloom_add-Kept :
      (id : String) → Kept (on_bitmap env (bloom_add env.bits client trip_bloom_filter_key id))
  bloom_add-Kept id = record {
    after = λ w r. record {
      redis_up = r.redis_up;
      db_up = r.db_up;
      known = λ j t e.
          IsMember-add env.bits bits_laws trip_bloom_filter_key j trip_bloom_filter_key id w.bitmap
            (r.known j t e);
    };
  }

  bloom_exists-Kept :
      (id : String) → Kept (on_bitmap env (bloom_exists env.bits client trip_bloom_filter_key id))
  bloom_exists-Kept id = record {
    after = λ w r. record {
      redis_up = r.redis_up;
      db_up = r.db_up;
      known = λ j t e.
          exists_keeps env.bits bits_laws trip_bloom_filter_key j trip_bloom_filter_key id w.bitmap
            (r.known j t e);
    };
  }

  find-Kept : (id : String) → Kept (on_trips env (Repository.get_trip_by_id env.db id))
  find-Kept id = record {
    after = λ w r. record {
      redis_up = r.redis_up;
      db_up = get_trip_by_id-IsUp env.db db_laws id w.trips r.db_up;
      known = λ j t e. r.known j t (sym (get_trip_by_id_keeps env.db db_laws id j w.trips) ∙ e);
    };
  }

  set_local-Kept : (k v : String) → Kept (set_local env local_cache k v)
  unfolding set_local
  set_local-Kept k v = record {
    after = λ w r. record { redis_up = r.redis_up; db_up = r.db_up; known = r.known };
  }

  del_local-Kept : (k : String) → Kept (del_local env local_cache k)
  unfolding del_local
  del_local-Kept k = record {
    after = λ w r. record { redis_up = r.redis_up; db_up = r.db_up; known = r.known };
  }

  IsReady-steps : ReadSteps env IsReady
  IsReady-steps = record {
    get_redis-Keeping = get_redis-Kept;
    set_redis-Keeping = set_redis-Kept;
    del_redis-Keeping = del_redis-Kept;
    bloom_add-Keeping = bloom_add-Kept;
    bloom_exists-Keeping = bloom_exists-Kept;
    find-Keeping = find-Kept;
    set_local-Keeping = set_local-Kept;
    del_local-Keeping = del_local-Kept;
  }

  pub get_trip_by_id-IsReady :
      (id : String) (w : Service env)
      → IsReady w
      → IsReady (get_trip_by_id env client local_cache id w).1
  get_trip_by_id-IsReady id w = (read-Keeping env IsReady IsReady-steps id).after w

  module _ (id : String) where
    written_trip :
        (status : String) (d : Option Driver)
        → Kept (on_trips env (Repository.update_trip env.db id status d))
    written_trip status d = record {
      after = λ w r. record {
        redis_up = r.redis_up;
        db_up = update_trip-IsUp env.db db_laws id status d w.trips r.db_up;
        known = λ j t e.
            let (t', old) = update_trip_old env.db db_laws id status d j t w.trips r.db_up e in
            r.known j t' old;
      };
    }

    pub update_trip-IsReady :
        (status : String) (d : Option Driver) (w : Service env)
        → IsReady w
        → IsReady (update_trip env client local_cache id status d w).1
    unfolding update_trip
    update_trip-IsReady status d w r =
        (Keeps-bind (on_trips env (Repository.update_trip env.db id status d)) _
            (written_trip status d)
            (λ u. search (keeps_rules, del_redis-Kept, del_local-Kept))).after
          w r
