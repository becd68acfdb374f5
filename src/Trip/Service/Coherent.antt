-- ===== src/Trip/Service/Coherent.antt =====
-- Coherence of Redis and of one process's local cache with the database, and that a read keeps it: what
-- it answers is the database's trip. Other processes' local caches are not in the model.
use mygo_microservices.Prelude.{String, ◌≡◌, sym, ◌∙◌, Option, some, ◌⊎◌, inl, inr, arith, eq_iff}
use text.Mathlib.TextLemmas.{append_cancel_left}
use mygo_microservices.Go.{Result, ok, Exec, CodecLaws}
use mygo_microservices.Go.Triple.{Triple, Any, Answers}
use mygo_microservices.Redis.{KvLaws}
use mygo_microservices.Cache.Local.{
  RistrettoLaws, LocalCache, nil_cache, local_cache, local_get, local_set, local_del,
}
use mygo_microservices.Trip.Domain.{TripModel}
use mygo_microservices.Trip.Repository
use mygo_microservices.Trip.Repository.{CollectionLaws}
use mygo_microservices.Trip.Repository.Reads.{get_trip_by_id_keeps, get_trip_by_id_ok}
use mygo_microservices.Trip.Service.{
  Stores, Service, on_redis, on_bitmap, on_trips, set_local, del_local, get_local, trip_cache_key,
  trip_cache_ttl, local_cache_ttl,
}

pub record StoresLaws (env : Stores) : Type 0 where
  pub kv_laws : KvLaws env.kv
  pub ristretto_laws : RistrettoLaws env.ristretto
  pub db_laws : CollectionLaws env.db
  pub json_laws : CodecLaws env.trip_json

pub trip_cache_key_inj : (id j : String) → trip_cache_key id ≡ trip_cache_key j → id ≡ j
trip_cache_key_inj id j e = append_cancel_left "trip:" id j e

module _ (env : Stores) (view : String → Option TripModel) where
  -- A text that, cached under an identifier, does no harm.
  abbrev pub Fits : String → String → Type 0
  Fits id v = (t : TripModel) → env.trip_json.decode v ≡ ok t → view id ≡ some t

  -- The database holds the trips of `view`, and a cached text that is a trip is the one of its key.
  pub record Coherent (w : Service env) : Type 0 where
    pub stored : (id : String) → env.db.lookup w.trips id ≡ view id
    pub redis : (id v : String) → env.kv.lookup w.redis (trip_cache_key id) ≡ some v → Fits id v
    pub memory :
        (id v : String) → env.ristretto.cell w.memory (trip_cache_key id) ≡ some v → Fits id v

module _ (env : Stores) (laws : StoresLaws env) (view : String → Option TripModel) where
  open laws use {kv_laws, ristretto_laws, db_laws, json_laws}

  abbrev pub Hoare : {A : Type 0} → Exec (Service env) A → (Result A → Type 0) → Type 0
  Hoare m Q = Triple (Coherent env view) m Q

  pub bitmap-Any : {A : Type 0} (m : Exec env.bits.State A) → Hoare (on_bitmap env m) Any
  bitmap-Any m = record {
    after = λ w c. (record { stored = c.stored; redis = c.redis; memory = c.memory }, tt);
  }

  pub get_redis :
      (id : String)
      → Hoare (on_redis env (env.kv.get (trip_cache_key id))) (Answers (Fits env view id))
  get_redis id = record {
    after = λ w c.
        let k : String = trip_cache_key id in
        (
          record {
            stored = c.stored;
            redis = λ j v e. c.redis j v (sym (kv_laws.get_keeps k (trip_cache_key j) w.redis) ∙ e);
            memory = c.memory;
          },
          λ v e. c.redis id v (kv_laws.get_hit k w.redis v e),
        );
  }

  -- A new entry fits if the one written does.
  or_fits :
      (id v j u : String)
      → Fits env view id v
      → {A : Type 0} → (A → Fits env view j u)
      → A ⊎ ((id ≡ j) × (v ≡ u))
      → Fits env view j u
  or_fits id v j u fits old (inl a) t d = old a t d
  or_fits id v j u fits old (inr (i, e)) t d = ground (arith, i, e, d, fits t)

  set_redis_sound :
      (id v j u : String) (s : env.kv.State)
      → env.kv.lookup (env.kv.set (trip_cache_key id) v trip_cache_ttl s).1 (trip_cache_key j)
        ≡ some u
      → (env.kv.lookup s (trip_cache_key j) ≡ some u) ⊎ ((id ≡ j) × (v ≡ u))
  set_redis_sound id v j u s e =
      let k : String = trip_cache_key id in
      ground (
        arith,
        e,
        eq_iff k (trip_cache_key j),
        trip_cache_key_inj id j,
        kv_laws.set_cases k v trip_cache_ttl s,
        kv_laws.set_keeps k v trip_cache_ttl (trip_cache_key j) s,
      )

  pub set_redis :
      (id v : String)
      → Fits env view id v
      → Hoare (on_redis env (env.kv.set (trip_cache_key id) v trip_cache_ttl)) Any
  set_redis id v fits = record {
    after = λ w c.
        let k : String = trip_cache_key id in
        (
          record {
            stored = c.stored;
            redis =
                λ j u e. or_fits id v j u fits (c.redis j u) (set_redis_sound id v j u w.redis e);
            memory = c.memory;
          },
          tt,
        );
  }

  pub del_redis : (id : String) → Hoare (on_redis env (env.kv.del (trip_cache_key id))) Any
  del_redis id = record {
    after = λ w c.
        let k : String = trip_cache_key id in
        (
          record {
            stored = c.stored;
            redis = λ j u e. ground (
              arith,
              eq_iff k (trip_cache_key j),
              kv_laws.del_cases k w.redis,
              kv_laws.del_keeps k (trip_cache_key j) w.redis,
              c.redis j u,
            );
            memory = c.memory;
          },
          tt,
        );
  }

  pub get_memory :
      (lc : LocalCache) (id : String)
      → Hoare
          (get_local env lc (trip_cache_key id))
          (Answers (λ o. (v : String) → o ≡ some v → Fits env view id v))
  unfolding get_local local_get
  get_memory nil_cache id = record { after = λ w c. (c, λ o e v p. absurd (ground arith)) }
  get_memory local_cache id = record {
    after = λ w c. (
      c,
      λ o e v p.
          c.memory id v
            (ristretto_laws.get_hit (trip_cache_key id) v w.memory (ground (arith, e, p))),
    );
  }

  pub set_memory :
      (lc : LocalCache) (id v : String)
      → Fits env view id v
      → Hoare (set_local env lc (trip_cache_key id) v) Any
  unfolding set_local local_set
  set_memory nil_cache id v fits = record { after = λ w c. (c, tt) }
  set_memory local_cache id v fits = record {
    after = λ w c. (
      record {
        stored = c.stored;
        redis = c.redis;
        memory = λ j u e.
            elim (ristretto_laws.set_sound (trip_cache_key id) v _ local_cache_ttl
              (trip_cache_key j) u w.memory e) [
                | inl old ↦ c.memory j u old
                | inr (k, same) ↦
                    or_fits id v j u fits (c.memory j u) (inr (trip_cache_key_inj id j k, same))
              ];
      },
      tt,
    );
  }

  pub del_memory :
      (lc : LocalCache) (id : String) → Hoare (del_local env lc (trip_cache_key id)) Any
  unfolding del_local local_del
  del_memory nil_cache id = record { after = λ w c. (c, tt) }
  del_memory local_cache id = record {
    after = λ w c. (
      record {
        stored = c.stored;
        redis = c.redis;
        memory = λ j u e.
            c.memory j u
              (ristretto_laws.del_sound (trip_cache_key id) (trip_cache_key j) u w.memory e).0;
      },
      tt,
    );
  }

  -- The answer of a read.
  abbrev pub Reads : String → Result (Option TripModel) → Type 0
  Reads id = Answers (λ o. o ≡ view id)

  -- An identifier that is the text of an ObjectID is in the form that the database gives it.
  abbrev pub Canonical : String → Type 0
  Canonical id = (c : String) → env.db.object_id_from_hex id ≡ ok c → c ≡ id

  pub find :
      (id : String)
      → Canonical id
      → Hoare (on_trips env (Repository.get_trip_by_id env.db id)) (Reads id)
  find id canonical = record {
    after = λ w c. (
      record {
        stored = λ j. get_trip_by_id_keeps env.db db_laws id j w.trips ∙ c.stored j;
        redis = c.redis;
        memory = c.memory;
      },
      λ o e. get_trip_by_id_ok env.db db_laws id w.trips canonical o e ∙ c.stored id,
    );
  }
