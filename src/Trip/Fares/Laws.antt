-- ===== src/Trip/Fares/Laws.antt =====
-- A fare goes to its owner only, and comes back as it was stored.
use mygo_microservices.Prelude.{
  ℕ, suc, String, ◌≡◌, false, some, List, [], ◌∷◌, ◌==◌, if◌then◌else◌, arith, eq_iff, eq_refl, inl,
  inr, is_empty,
}
use mygo_microservices.Go.{message, ok, err, Exec, Result-cases, CodecLaws}
use mygo_microservices.Go.Triple.{Triple, Any, Answers, Triple-bind, Triple-attempt}
use mygo_microservices.Redis.{KvLaws, Client, client}
use mygo_microservices.Trip.Domain.{RideFareModel, OsrmApiResponse}
use mygo_microservices.Trip.Fares.{
  FareStores, FareState, fare_cache_key, fare_cache_ttl, wrapped, store_fare, store_fares,
  first_error, generate_trip_fares, fare_of, cached_fare, check_owner, or_repository,
  get_and_validate_fare,
}

module _ (env : FareStores) (user_id : String) where
  check_owner_ok :
      (f : RideFareModel) (w : FareState env) (g : RideFareModel)
      → (check_owner env user_id f w).0 ≡ ok g
      → g.user_id ≡ user_id
  unfolding check_owner
  check_owner_ok f w g h = ground (arith, h, eq_iff user_id f.user_id)

  anything : {A : Type 0} (m : Exec (FareState env) A) → Triple (λ v. Unit) m Any
  anything m = record { after = λ w u. (tt, tt) }

  owner_checked :
      (g : RideFareModel)
      → Triple (λ v. Unit) (check_owner env user_id g) (Answers (λ g'. g'.user_id ≡ user_id))
  owner_checked g = record { after = λ w u. (tt, λ g' e. check_owner_ok g w g' e) }

  -- Whatever Redis and the database answer, with or without Redis, a fare that
  -- `GetAndValidateFare` returns belongs to the user who asks.
  pub fare_owner :
      (rdb : Client) (fare_id : String) (w : FareState env) (f : RideFareModel)
      → (get_and_validate_fare env rdb fare_id user_id w).0 ≡ ok f
      → f.user_id ≡ user_id
  unfolding get_and_validate_fare
  fare_owner rdb fare_id w f h =
      let owned : Triple (λ v. Unit) (get_and_validate_fare env rdb fare_id user_id)
          (Answers (λ g. g.user_id ≡ user_id)) =
        Triple-attempt _ _ (anything _) (λ raw u.
          Triple-bind _ _ (anything (or_repository env fare_id (cached_fare env raw)))
            (λ g u. owner_checked g)) in
      (owned.after w tt).1 f h

module _ (env : FareStores) (laws : KvLaws env.kv) (json : CodecLaws env.fare_json) where
  -- With Redis up, a fare that a goroutine of `GenerateTripFares` has stored is given back unchanged
  -- to its owner, and refused to every other user, where the fare's JSON is not empty.
  pub fare_roundtrip :
      (fare : RideFareModel) (text user_id : String) (w : FareState env)
      → env.kv.IsUp w.redis
      → env.fare_json.encode fare ≡ ok text
      → is_empty text ≡ false
      → let w' = (store_fare env client fare w).1 in
        (get_and_validate_fare env client fare.id user_id w').0 ≡ (
          if user_id == fare.user_id
          then ok fare
          else err (message "fare does not belong to the user"))
  unfolding get_and_validate_fare store_fare wrapped cached_fare fare_of or_repository check_owner
  fare_roundtrip fare text user_id w up e filled =
      let s : env.kv.State = (env.kv.set (fare_cache_key fare.id) text fare_cache_ttl w.redis).1 in
      ground (
        arith,
        e,
        json.decode-encode fare text e,
        laws.up_set (fare_cache_key fare.id) text fare_cache_ttl w.redis up,
        laws.set_done (fare_cache_key fare.id) text fare_cache_ttl (fare_cache_key fare.id) w.redis,
        laws.set-IsUp (fare_cache_key fare.id) text fare_cache_ttl w.redis up,
        laws.up_get (fare_cache_key fare.id) s,
        eq_refl (fare_cache_key fare.id),
      )

module _ (new_id : ℕ → String) (user_id : String) (route : OsrmApiResponse) where
  -- The fares that come of a list of packages from the index `i` on.
  unfoldable pub priced : ℕ → List RideFareModel → List RideFareModel
  priced i [] = []
  priced i (f ∷ fs) =
      record {
        id = new_id i;
        user_id = user_id;
        package_slug = f.package_slug;
        total_price_in_cents = f.total_price_in_cents;
        route = some route;
      }
      ∷ priced (suc i) fs

module _ (env : FareStores) (new_id : ℕ → String) (user_id : String) (route : OsrmApiResponse) where
  store_fare_ok :
      (f g : RideFareModel) (w : FareState env) → (store_fare env client f w).0 ≡ ok g → g ≡ f
  unfolding store_fare wrapped
  store_fare_ok f g w h = elim (Result-cases (env.fare_json.encode f)) [
    | inr (e, p) ↦ absurd (ground (arith, p, h))
    | inl (b, p) ↦
        elim (Result-cases (env.kv.set (fare_cache_key f.id) b fare_cache_ttl w.redis).0) [
          | inr (e, q) ↦ absurd (ground (arith, p, q, h))
          | inl (u, q) ↦ ground (arith, p, q, h)
        ]
  ]

  stored_fares :
      (i : ℕ) (ride_fares fares : List RideFareModel) (w : FareState env)
      → first_error env (store_fares env client new_id user_id route i ride_fares w).0 ≡ ok fares
      → fares ≡ priced new_id user_id route i ride_fares
  unfolding store_fares first_error priced
  stored_fares i [] fares w h = ground (arith, h)
  stored_fares i (f ∷ fs) fares w h =
      let g : RideFareModel = record {
        id = new_id i;
        user_id = user_id;
        package_slug = f.package_slug;
        total_price_in_cents = f.total_price_in_cents;
        route = some route;
      } in
      let v : FareState env = (store_fare env client g w).1 in
      elim (Result-cases (store_fare env client g w).0) [
        | inr (e, p) ↦ absurd (ground (arith, p, h))
        | inl (g', p) ↦
            elim (Result-cases
              (first_error env (store_fares env client new_id user_id route (suc i) fs v).0)) [
                | inr (e, q) ↦ absurd (ground (arith, p, q, h))
                | inl (rest, q) ↦
                    ground
                      (arith, p, q, h, store_fare_ok g g' w p, stored_fares (suc i) fs rest v q)
              ]
      ]

  -- With a Redis client, fares that `GenerateTripFares` returns without error are one for each
  -- package, in order, with the package's slug and price, the asking user and the route.
  pub generated_fares :
      (ride_fares fares : List RideFareModel) (w : FareState env)
      → (generate_trip_fares env client new_id ride_fares user_id route w).0 ≡ ok fares
      → fares ≡ priced new_id user_id route 0 ride_fares
  unfolding generate_trip_fares
  generated_fares ride_fares fares w h = stored_fares 0 ride_fares fares w h
