-- ===== src/Drivers/Find/Cleaning.antt =====
-- The nearby search removes those of the candidates it looks at that have no record any more.
use mygo_microservices.Prelude.{
  ℕ, suc, String, ◌≡◌, refl, sym, subst, ap, ◌∙◌, true, false, Option, none, is_some, List, [], ◌∷◌,
  ◌++◌, inl, inr, length, All, arith, Bool-cases, Option-cases, ◌≢◌, if◌then◌else◌, length-append,
  ◌=ℕ=◌, is_empty,
}
use mygo_microservices.Go.{ok}
use mygo_microservices.Trip.Domain.{Float64}
use mygo_microservices.Drivers.Fleet.{Hash, Fleet, FleetLaws}
use mygo_microservices.Drivers.Find.{
  driver_info_key, drivers_geo_key, find_result_limit, collect, clean_both, find_nearby_drivers,
  nearby,
}
use mygo_microservices.Drivers.Find.Laws.{Agrees, exists-Agrees, clean_both-Agrees, clean_both-IsUp}
use mygo_microservices.Drivers.Find.Gone.{IsGone, IsGone-clean_both, collect-IsGone}

-- The candidates that the loop looks at, with `n` drivers found so far: up to the fifth with a record.
unfoldable pub examined : (String → Option Hash) → List String → ℕ → List String
examined hash [] n = []
examined hash (id ∷ ids) n =
    let here = examined hash ids n in
    let next = examined hash ids (suc n) in
    id
    ∷ (if is_some (hash (driver_info_key id))
        then (if suc n =ℕ= find_result_limit then [] else next)
        else here)

examined_none : (hash : String → Option Hash) (n : ℕ) → examined hash [] n ≡ []
unfolding examined
examined_none hash n = refl

module _ (fleet : Fleet) (laws : FleetLaws fleet) (package_type : String) where
  open fleet use {State, IsUp, keys}

  -- One round of the loop, in each case.
  module _ (x : String) (xs matched : List String) (s : State) (up : IsUp s) where
    looked : State
    looked = (fleet.exists_key (driver_info_key x) s).1

    round_dead :
        (keys s).hash (driver_info_key x) ≡ none
        → collect fleet (clean_both fleet package_type) (x ∷ xs) matched s
          ≡ collect fleet
              (clean_both fleet package_type)
              xs
              matched
              (clean_both fleet package_type x looked).1
    unfolding collect looked
    round_dead e = ground (arith, laws.up_exists (driver_info_key x) s up, e)

    round_full :
        is_some ((keys s).hash (driver_info_key x)) ≡ true
        → suc (length matched) ≡ find_result_limit
        → collect fleet (clean_both fleet package_type) (x ∷ xs) matched s
          ≡ (ok (matched ++ x ∷ []), looked)
    unfolding collect looked
    round_full e n =
        ground
          (arith, laws.up_exists (driver_info_key x) s up, e, n, length-append matched (x ∷ []))

    round_room :
        is_some ((keys s).hash (driver_info_key x)) ≡ true
        → suc (length matched) ≢ find_result_limit
        → collect fleet (clean_both fleet package_type) (x ∷ xs) matched s
          ≡ collect fleet (clean_both fleet package_type) xs (matched ++ x ∷ []) looked
    unfolding collect looked
    round_room e n =
        ground
          (arith, laws.up_exists (driver_info_key x) s up, e, n, length-append matched (x ∷ []))

  module _ (hash : String → Option Hash) where
    abbrev Cleaned : List String → State → Type 0
    Cleaned ids s =
        All (λ id. hash (driver_info_key id) ≡ none → IsGone fleet laws package_type id s) ids

    Cleaned-same :
        (ids js : List String) (s t : State) → ids ≡ js → s ≡ t → Cleaned js t → Cleaned ids s
    Cleaned-same ids js s t e f c =
        subst (λ z. Cleaned ids z) (sym f) (subst (λ z. Cleaned z t) (sym e) c)

    module _ (x : String) (xs : List String) (n : ℕ) where
      examined_dead :
          hash (driver_info_key x) ≡ none → examined hash (x ∷ xs) n ≡ x ∷ examined hash xs n
      unfolding examined
      examined_dead e = ground (arith, e)

      examined_full :
          is_some (hash (driver_info_key x)) ≡ true
          → suc n ≡ find_result_limit
          → examined hash (x ∷ xs) n ≡ x ∷ []
      unfolding examined
      examined_full e m = ground (arith, e, m)

      examined_room :
          is_some (hash (driver_info_key x)) ≡ true
          → suc n ≢ find_result_limit
          → examined hash (x ∷ xs) n ≡ x ∷ examined hash xs (suc n)
      unfolding examined
      examined_room e m = ground (arith, e, m)

    collect-Cleaned :
        (ids matched : List String) (n : ℕ) (s : State)
        → IsUp s
        → Agrees fleet laws hash s
        → length matched ≡ n
        → Cleaned
            (examined hash ids n)
            (collect fleet (clean_both fleet package_type) ids matched s).1
    unfolding looked
    collect-Cleaned [] matched n s up agrees e =
        subst (λ z. Cleaned z (collect fleet (clean_both fleet package_type) [] matched s).1)
          (sym (examined_none hash n)) tt
    collect-Cleaned (x ∷ xs) matched n s up agrees e =
        let k = driver_info_key x in
        let run = λ (m : List String) (z : State).
          (collect fleet (clean_both fleet package_type) xs m z).1 in
        let now = (collect fleet (clean_both fleet package_type) (x ∷ xs) matched s).1 in
        let s' = (fleet.exists_key k s).1 in
        let up' = laws.exists-IsUp k s up in
        let agrees' = exists-Agrees fleet laws hash k s agrees in
        elim (Option-cases (hash k)) [
          | inl dead ↦
              let t = (clean_both fleet package_type x s').1 in
              let up'' = clean_both-IsUp fleet laws package_type x s' up' in
              Cleaned-same (examined hash (x ∷ xs) n) (x ∷ examined hash xs n) now (run matched t)
                (examined_dead x xs n dead)
                (ap (λ r. r.1) (round_dead x xs matched s up (agrees k ∙ dead)))
                (
                  λ h.
                      collect-IsGone fleet laws package_type xs matched x t up''
                        (IsGone-clean_both fleet laws package_type x s' up'),
                  collect-Cleaned xs matched n t up''
                      (clean_both-Agrees fleet laws package_type hash x s' agrees') e,
                )
          | inr (h, alive) ↦
              let held : is_some ((keys s).hash k) ≡ true = ground (arith, alive, agrees k) in
              let kept : is_some (hash k) ≡ true = ground (arith, alive) in
              elim (Bool-cases (suc n =ℕ= find_result_limit)) [
                | inl full ↦
                    Cleaned-same (examined hash (x ∷ xs) n) (x ∷ []) now s'
                      (examined_full x xs n kept (ground (arith, full)))
                      (ap (λ r. r.1) (round_full x xs matched s up held (ground (arith, full, e))))
                      (λ g. absurd (ground (arith, alive, g)), tt)
                | inr room ↦
                    Cleaned-same (examined hash (x ∷ xs) n) (x ∷ examined hash xs (suc n)) now
                      (run (matched ++ x ∷ []) s')
                      (examined_room x xs n kept (ground (arith, room)))
                      (ap (λ r. r.1) (round_room x xs matched s up held (ground (arith, room, e))))
                      (
                        λ g. absurd (ground (arith, alive, g)),
                        collect-Cleaned xs (matched ++ x ∷ []) (suc n) s' up' agrees'
                            (ground (arith, e, length-append matched (x ∷ []))),
                      )
              ]
        ]

  find_run :
      (lat lng radius_km : Float64) (s : State) (nearest : List String)
      → is_empty package_type ≡ false
      → (fleet.geo_radius (drivers_geo_key package_type) (nearby lat lng radius_km) s).0
        ≡ ok nearest
      → find_nearby_drivers fleet lat lng radius_km package_type s
        ≡ collect fleet
            (clean_both fleet package_type)
            nearest
            []
            (fleet.geo_radius (drivers_geo_key package_type) (nearby lat lng radius_km) s).1
  unfolding find_nearby_drivers
  find_run lat lng radius_km s nearest named p = ground (arith, named, p)

  -- While Redis is up, of the nearest candidates that `FindNearbyDrivers` looks at, up to the fifth
  -- with a record, those without one are in neither the package's online set nor its index afterwards.
  pub find_nearby_drivers-Cleaned :
      (lat lng radius_km : Float64) (s : State)
      → is_empty package_type ≡ false
      → IsUp s
      → let hash = (keys s).hash in
        (nearest : List String) × ((fleet.geo_radius
            (drivers_geo_key package_type)
            (nearby lat lng radius_km)
            s).0
          ≡ ok nearest)
        × All
            (λ id.
              hash (driver_info_key id) ≡ none
              → IsGone fleet laws package_type id
                  (find_nearby_drivers fleet lat lng radius_km package_type s).1)
            (examined hash nearest 0)
  find_nearby_drivers-Cleaned lat lng radius_km s named up =
      let key = drivers_geo_key package_type in
      let q = nearby lat lng radius_km in
      let s' = (fleet.geo_radius key q s).1 in
      let (nearest, p) = laws.up_geo_radius key q s up in
      let hash = (keys s).hash in
      let agrees : Agrees fleet laws hash s' = λ k. ground (arith, laws.geo_radius_keeps key q s) in
      (
        nearest,
        p,
        Cleaned-same hash (examined hash nearest 0) (examined hash nearest 0)
            (find_nearby_drivers fleet lat lng radius_km package_type s).1
            (collect fleet (clean_both fleet package_type) nearest [] s').1 refl
            (ap (λ r. r.1) (find_run lat lng radius_km s nearest named p))
            (collect-Cleaned hash nearest [] 0 s' (laws.geo_radius-IsUp key q s up) agrees refl),
      )
