-- ===== src/Drivers/Service/Leaving.antt =====
-- Leaving, and not being found any more.
use mygo_microservices.Prelude.{
  ℕ, zero, suc, String, ◌≡◌, ◌≢◌, ap, false, Option, none, is_some, List, [], ◌∷◌, inl, inr, arith,
  eq_refl, is_empty, All, take, Bool-cases,
}
use mygo_microservices.Go.{ok}
use mygo_microservices.Trip.Domain.{Float64}
use mygo_microservices.Drivers.Fleet.{
  Hash, Fleet, FleetLaws, hash_run, member_run, point_run, hash_after, member_after, point_after,
}
use mygo_microservices.Drivers.Movement.{stop_driver_movement}
use mygo_microservices.Drivers.Find.{
  driver_info_key, drivers_online_key, drivers_geo_key, find_result_limit, find_available_drivers,
  find_nearby_drivers,
}
use mygo_microservices.Drivers.Find.Laws.{live, find_available_drivers_lem, find_nearby_drivers_lem}
use mygo_microservices.Drivers.Service.{World, stop_task, unregister_commands, unregister_driver}

module _ (fleet : Fleet) (laws : FleetLaws fleet) where
  open fleet use {State, IsUp, keys}

  -- While Redis is up, a driver who leaves a package has no record, and is not in the package's set or
  -- index; the movement was stopped before that.
  pub unregister_driver_lem :
      (driver_id package_slug : String) (w : World fleet)
      → is_empty driver_id ≡ false
      → is_empty package_slug ≡ false
      → IsUp w.redis
      → let (answer, w') = unregister_driver fleet driver_id package_slug w in
        (answer ≡ ok tt)
        × ((keys w'.redis).hash (driver_info_key driver_id) ≡ none)
        × ((keys w'.redis).member (drivers_online_key package_slug) driver_id ≡ false)
        × ((keys w'.redis).point (drivers_geo_key package_slug) driver_id ≡ none)
        × (w'.movements ≡ (stop_driver_movement driver_id w.movements).1)
        × IsUp w'.redis
  unfolding unregister_driver unregister_commands stop_task hash_run member_run point_run hash_after
      member_after point_after
  unregister_driver_lem driver_id package_slug w named typed up =
      let cs = unregister_commands driver_id package_slug in
      let e = laws.up_exec cs w.redis up in
      let k = driver_info_key driver_id in
      let o = drivers_online_key package_slug in
      let g = drivers_geo_key package_slug in
      (
        ground (arith, named, e),
        ground (arith, named, typed, laws.exec_hash cs k w.redis e, eq_refl k),
        ground (
          arith,
          named,
          typed,
          laws.exec_member cs o driver_id w.redis e,
          eq_refl o,
          eq_refl driver_id,
        ),
        ground (
          arith,
          named,
          typed,
          laws.exec_point cs g driver_id w.redis e,
          eq_refl g,
          eq_refl driver_id,
        ),
        ground (arith, named),
        ground (arith, named, laws.exec-IsUp cs w.redis up),
      )

  -- A driver without a record is not among those that a search answers.
  live-absent :
      (hash : String → Option Hash) (driver_id : String) (n : ℕ) (ids : List String)
      → hash (driver_info_key driver_id) ≡ none
      → All (λ id. id ≢ driver_id) (take n (live hash ids))
  unfolding live
  live-absent hash driver_id zero ids h = tt
  live-absent hash driver_id (suc n) [] h = tt
  live-absent hash driver_id (suc n) (x ∷ xs) h =
      elim (Bool-cases (is_some (hash (driver_info_key x)))) [
        | inl q ↦ rw q (
          λ e. absurd (ground (arith, q, h, ap (λ z. hash (driver_info_key z)) e)),
          live-absent hash driver_id n xs h,
        )
        | inr q ↦ rw q (live-absent hash driver_id (suc n) xs h)
      ]

  -- While Redis is up, once `UnregisterDriver` has run for a named driver and package, the next search
  -- of any package, at random or nearby, answers, and does not find the driver.
  pub unregister-find :
      (driver_id package_slug package_type : String) (lat lng radius_km : Float64) (w : World fleet)
      → is_empty driver_id ≡ false
      → is_empty package_slug ≡ false
      → is_empty package_type ≡ false
      → IsUp w.redis
      → let s = (unregister_driver fleet driver_id package_slug w).1.redis in
        ((found : List String) × ((find_available_drivers fleet package_type s).0 ≡ ok found)
          × All (λ id. id ≢ driver_id) found)
        × ((found : List String) × ((find_nearby_drivers fleet lat lng radius_km package_type s).0
              ≡ ok found)
            × All (λ id. id ≢ driver_id) found)
  unregister-find driver_id package_slug package_type lat lng radius_km w named typed asked up =
      let s = (unregister_driver fleet driver_id package_slug w).1.redis in
      let hash = (keys s).hash in
      let (_, gone, _, _, _, up') = unregister_driver_lem driver_id package_slug w named typed up in
      let (sample, _, p) = find_available_drivers_lem fleet laws package_type s asked up' in
      let (nearest, _, q) =
        find_nearby_drivers_lem fleet laws package_type lat lng radius_km s asked up' in
      (
        (
          take find_result_limit (live hash sample),
          p,
          live-absent hash driver_id find_result_limit sample gone,
        ),
        (
          take find_result_limit (live hash nearest),
          q,
          live-absent hash driver_id find_result_limit nearest gone,
        ),
      )
