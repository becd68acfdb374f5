-- ===== src/Drivers/Find/Gone.antt =====
-- What the clean-up of a candidate removes, and that it stays removed.
use mygo_microservices.Prelude.{
  String, ◌≡◌, false, none, is_some, List, [], ◌∷◌, ◌++◌, inl, inr, length, arith, eq_refl,
  Bool-cases, ◌=ℕ=◌,
}
use mygo_microservices.Drivers.Fleet.{
  Fleet, FleetLaws, srem, zrem, member_run, member_after, point_run, point_after,
}
use mygo_microservices.Drivers.Find.{
  driver_info_key, drivers_online_key, drivers_geo_key, find_result_limit, collect, clean_both,
}
use mygo_microservices.Drivers.Find.Laws.{clean_both-IsUp}

module _ (fleet : Fleet) (laws : FleetLaws fleet) (package_type : String) where
  open fleet use {State, IsUp, keys}

  -- The driver is in neither the online set nor the index of the package.
  pub record IsGone (id : String) (s : State) : Type 0 where
    pub offline : (keys s).member (drivers_online_key package_type) id ≡ false
    pub nowhere : (keys s).point (drivers_geo_key package_type) id ≡ none

  pub IsGone-clean_both :
      (id : String) (s : State) → IsUp s → IsGone id (clean_both fleet package_type id s).1
  unfolding clean_both member_run member_after point_run point_after
  IsGone-clean_both id s up =
      let o = drivers_online_key package_type in
      let i = drivers_geo_key package_type in
      let c = srem o id ∷ [] in
      let d = zrem i id ∷ [] in
      let s' = (fleet.exec c s).1 in
      let p = laws.up_exec c s up in
      let q = laws.up_exec d s' (laws.exec-IsUp c s up) in
      record {
        offline = ground (
          arith,
          laws.exec_member d o id s' q,
          laws.exec_member c o id s p,
          eq_refl o,
          eq_refl id,
        );
        nowhere = ground (arith, laws.exec_point d i id s' q, eq_refl i, eq_refl id);
      }

  clean_both-IsGone :
      (x id : String) (s : State)
      → IsUp s
      → IsGone id s
      → IsGone id (clean_both fleet package_type x s).1
  unfolding clean_both member_run member_after point_run point_after
  clean_both-IsGone x id s up g =
      let o = drivers_online_key package_type in
      let i = drivers_geo_key package_type in
      let c = srem o x ∷ [] in
      let d = zrem i x ∷ [] in
      let s' = (fleet.exec c s).1 in
      let p = laws.up_exec c s up in
      let q = laws.up_exec d s' (laws.exec-IsUp c s up) in
      record {
        offline =
            ground (arith, laws.exec_member d o id s' q, laws.exec_member c o id s p, g.offline);
        nowhere =
            ground (arith, laws.exec_point d i id s' q, laws.exec_point c i id s p, g.nowhere);
      }

  exists-IsGone : (k id : String) (s : State) → IsGone id s → IsGone id (fleet.exists_key k s).1
  exists-IsGone k id s g = record {
    offline = ground (arith, laws.exists_keeps k s, g.offline);
    nowhere = ground (arith, laws.exists_keeps k s, g.nowhere);
  }

  -- What is gone stays gone while the loop goes on.
  pub collect-IsGone :
      (ids matched : List String) (id : String) (s : State)
      → IsUp s
      → IsGone id s
      → IsGone id (collect fleet (clean_both fleet package_type) ids matched s).1
  unfolding collect
  collect-IsGone [] matched id s up g = g
  collect-IsGone (x ∷ xs) matched id s up g =
      let clean = clean_both fleet package_type in
      let k = driver_info_key x in
      let s' = (fleet.exists_key k s).1 in
      let p = laws.up_exists k s up in
      let up' = laws.exists-IsUp k s up in
      let g' = exists-IsGone k id s g in
      let more = matched ++ x ∷ [] in
      elim (Bool-cases (is_some ((keys s).hash k))) [
        | inr dead ↦
            let after =
              collect-IsGone xs matched id (clean x s').1
                (clean_both-IsUp fleet laws package_type x s' up')
                (clean_both-IsGone x id s' up' g') in
            record {
              offline = ground (arith, p, dead, after.offline);
              nowhere = ground (arith, p, dead, after.nowhere);
            }
        | inl alive ↦ elim (Bool-cases (length more =ℕ= find_result_limit)) [
          | inl full ↦ record {
            offline = ground (arith, p, alive, full, g'.offline);
            nowhere = ground (arith, p, alive, full, g'.nowhere);
          }
          | inr room ↦
              let after = collect-IsGone xs more id s' up' g' in
              record {
                offline = ground (arith, p, alive, room, after.offline);
                nowhere = ground (arith, p, alive, room, after.nowhere);
              }
        ]
      ]
