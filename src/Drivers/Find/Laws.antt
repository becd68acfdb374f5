-- ===== src/Drivers/Find/Laws.antt =====
-- What the searches for drivers find.
use mathlib.Core.List.{append-nil, append_assoc}
use mygo_microservices.Prelude.{
  ℕ, zero, suc, ◌+◌, String, ◌≡◌, refl, ◌∙◌, ◌⊎◌, false, Option, is_some, List, [], ◌∷◌, ◌++◌, inl,
  inr, length, take, arith, Bool-cases, if◌then◌else◌, length-append, ◌=ℕ=◌, is_empty,
}
use mygo_microservices.Go.{ok, Exec, Result-cases}
use mygo_microservices.Trip.Domain.{Float64}
use mygo_microservices.Drivers.Fleet.{Hash, Fleet, FleetLaws, srem, zrem, writes_hash}
use mygo_microservices.Drivers.Find.{
  driver_info_key, drivers_online_key, drivers_geo_key, find_candidate_count, find_result_limit,
  collect, clean_set, clean_both, find_available_drivers, find_nearby_drivers, nearby,
}

-- The candidates that have a record, in order.
unfoldable pub live : (String → Option Hash) → List String → List String
live hash [] = []
live hash (id ∷ ids) =
    let rest = live hash ids in if is_some (hash (driver_info_key id)) then id ∷ rest else rest

ℕ-cases : (n : ℕ) → (n ≡ 0) ⊎ ((m : ℕ) × (n ≡ suc m))
ℕ-cases zero = inl refl
ℕ-cases (suc m) = inr (m, refl)

module _ (fleet : Fleet) (laws : FleetLaws fleet) where
  open fleet use {State, IsUp, keys}

  module _ (hash : String → Option Hash) where
    -- The hashes are what `hash` says.
    abbrev pub Agrees : State → Type 0
    Agrees s = (k : String) → (keys s).hash k ≡ hash k

    pub exists-Agrees : (k : String) (s : State) → Agrees s → Agrees (fleet.exists_key k s).1
    exists-Agrees k s agrees j = ground (arith, laws.exists_keeps k s, agrees j)

    module _ (clean : String → Exec State (Unit {0}))
        (clean-Agrees : (id : String) (s : State) → Agrees s → Agrees (clean id s).1) where
      pub collect_lem :
          (ids matched : List String) (b : ℕ) (s : State) (found : List String)
          → Agrees s
          → length matched + suc b ≡ find_result_limit
          → (collect fleet clean ids matched s).0 ≡ ok found
          → found ≡ matched ++ take (suc b) (live hash ids)
      unfolding collect live
      collect_lem [] matched b s found agrees e h = ground (arith, append-nil matched)
      collect_lem (id ∷ ids) matched b s found agrees e h =
          let k = driver_info_key id in
          let s' = (fleet.exists_key k s).1 in
          elim (Result-cases (fleet.exists_key k s).0) [
            | inr (x, p) ↦ absurd (ground (arith, p))
            | inl (n, p) ↦ elim (Bool-cases (is_some (hash k))) [
              | inr dead ↦ ground (
                arith,
                laws.exists_ok k s n p,
                agrees k,
                collect_lem ids matched b (clean id s').1 found
                    (clean-Agrees id s' (exists-Agrees k s agrees)) e,
              )
              | inl alive ↦ elim (ℕ-cases b) [
                | inl q ↦
                    ground
                      (arith, q, laws.exists_ok k s n p, agrees k, length-append matched (id ∷ []))
                | inr (c, q) ↦ ground (
                  arith,
                  q,
                  laws.exists_ok k s n p,
                  agrees k,
                  length-append matched (id ∷ []),
                  append_assoc matched (id ∷ []) (take (suc c) (live hash ids)),
                  collect_lem ids (matched ++ id ∷ []) c s' found (exists-Agrees k s agrees),
                )
              ]
            ]
          ]

      pub collect_answers :
          (ids matched : List String) (s : State)
          → ((id : String) (t : State) → IsUp t → IsUp (clean id t).1)
          → IsUp s
          → (found : List String) × ((collect fleet clean ids matched s).0 ≡ ok found)
      unfolding collect
      collect_answers [] matched s clean-IsUp up = (matched, refl)
      collect_answers (id ∷ ids) matched s clean-IsUp up =
          let k = driver_info_key id in
          let s' = (fleet.exists_key k s).1 in
          let up' : IsUp s' = laws.exists-IsUp k s up in
          let p = laws.up_exists k s up in
          let more = matched ++ id ∷ [] in
          elim (Bool-cases (is_some ((keys s).hash k))) [
            | inr dead ↦
                let (found, q) =
                  collect_answers ids matched (clean id s').1 clean-IsUp (clean-IsUp id s' up') in
                (found, ground (arith, p, q))
            | inl alive ↦ elim (Bool-cases (length more =ℕ= find_result_limit)) [
              | inl full ↦ (more, ground (arith, p))
              | inr room ↦
                  let (found, q) = collect_answers ids more s' clean-IsUp up' in
                  (found, ground (arith, p, q))
            ]
          ]

  module _ (package_type : String) where
    clean_set-Agrees :
        (hash : String → Option Hash) (id : String) (s : State)
        → Agrees hash s
        → Agrees hash (clean_set fleet package_type id s).1
    unfolding clean_set writes_hash
    clean_set-Agrees hash id s agrees k =
        laws.exec_keeps (srem (drivers_online_key package_type) id ∷ []) k s refl ∙ agrees k

    pub clean_both-Agrees :
        (hash : String → Option Hash) (id : String) (s : State)
        → Agrees hash s
        → Agrees hash (clean_both fleet package_type id s).1
    unfolding clean_both writes_hash
    clean_both-Agrees hash id s agrees k =
        let c = srem (drivers_online_key package_type) id ∷ [] in
        laws.exec_keeps (zrem (drivers_geo_key package_type) id ∷ []) k (fleet.exec c s).1 refl
        ∙ laws.exec_keeps c k s refl
        ∙ agrees k

    clean_set-IsUp : (id : String) (s : State) → IsUp s → IsUp (clean_set fleet package_type id s).1
    unfolding clean_set writes_hash
    clean_set-IsUp id s up = laws.exec-IsUp (srem (drivers_online_key package_type) id ∷ []) s up

    pub clean_both-IsUp :
        (id : String) (s : State) → IsUp s → IsUp (clean_both fleet package_type id s).1
    unfolding clean_both writes_hash
    clean_both-IsUp id s up =
        let c = srem (drivers_online_key package_type) id ∷ [] in
        laws.exec-IsUp (zrem (drivers_geo_key package_type) id ∷ []) (fleet.exec c s).1
          (laws.exec-IsUp c s up)

    -- While Redis is up, `FindAvailableDrivers` for a package answers the first five of its sample of
    -- the package's online set that have a record, in order.
    pub find_available_drivers_lem :
        (s : State)
        → is_empty package_type ≡ false
        → IsUp s
        → (sample : List String) × ((fleet.srandmember
              (drivers_online_key package_type)
              find_candidate_count
              s).0
            ≡ ok sample)
          × ((find_available_drivers fleet package_type s).0
              ≡ ok (take find_result_limit (live (keys s).hash sample)))
    unfolding find_available_drivers
    find_available_drivers_lem s named up =
        let key = drivers_online_key package_type in
        let s' = (fleet.srandmember key find_candidate_count s).1 in
        let (sample, p) = laws.up_srandmember key find_candidate_count s up in
        let hash = (keys s).hash in
        let agrees : Agrees hash s' =
          λ k. ground (arith, laws.srandmember_keeps key find_candidate_count s) in
        let clean = clean_set fleet package_type in
        let (found, q) =
          collect_answers hash clean (clean_set-Agrees hash) sample [] s' clean_set-IsUp
            (laws.srandmember-IsUp key find_candidate_count s up) in
        (
          sample,
          p,
          ground (
            arith,
            named,
            p,
            q,
            collect_lem hash clean (clean_set-Agrees hash) sample [] 4 s' found agrees (omega arith)
                q,
          ),
        )

    -- While Redis is up, `FindNearbyDrivers` for a package answers the first five of the nearest
    -- candidates within the radius that have a record, nearest first. A radius that is not positive
    -- counts as the default one.
    pub find_nearby_drivers_lem :
        (lat lng radius_km : Float64) (s : State)
        → is_empty package_type ≡ false
        → IsUp s
        → (nearest : List String) × ((fleet.geo_radius
              (drivers_geo_key package_type)
              (nearby lat lng radius_km)
              s).0
            ≡ ok nearest)
          × ((find_nearby_drivers fleet lat lng radius_km package_type s).0
              ≡ ok (take find_result_limit (live (keys s).hash nearest)))
    unfolding find_nearby_drivers
    find_nearby_drivers_lem lat lng radius_km s named up =
        let key = drivers_geo_key package_type in
        let q = nearby lat lng radius_km in
        let s' = (fleet.geo_radius key q s).1 in
        let (nearest, p) = laws.up_geo_radius key q s up in
        let hash = (keys s).hash in
        let agrees : Agrees hash s' = λ k. ground (arith, laws.geo_radius_keeps key q s) in
        let clean = clean_both fleet package_type in
        let (found, r) =
          collect_answers hash clean (clean_both-Agrees hash) nearest [] s' clean_both-IsUp
            (laws.geo_radius-IsUp key q s up) in
        (
          nearest,
          p,
          ground (
            arith,
            named,
            p,
            r,
            collect_lem hash clean (clean_both-Agrees hash) nearest [] 4 s' found agrees
                (omega arith) r,
          ),
        )
