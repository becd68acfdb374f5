-- ===== src/Drivers/Service/Laws.antt =====
-- Coming on line.
use mygo_microservices.Prelude.{
  ℕ, String, ◌≡◌, ◌==◌, if◌then◌else◌, eq_iff, refl, sym, subst, ◌∙◌, true, false, Option, none,
  some, List, [], ◌∷◌, inl, inr, arith, eq_refl, is_empty, Option-cases,
}
use mygo_microservices.Go.{Result, ok, err}
use mygo_microservices.Trip.Domain.{Float64}
use mygo_microservices.Drivers.Fleet.{
  Fields, Hash, Keys, put_field, put_fields, hset, Fleet, FleetLaws, hash_run, member_run,
  point_run, hash_after, member_after, point_after, expiring, written_hash,
}
use mygo_microservices.Drivers.Movement.{start_driver_movement}
use mygo_microservices.Drivers.Find.{
  driver_info_key, drivers_online_key, drivers_geo_key, driver_info_ttl,
}
use mygo_microservices.Drivers.Service.{
  OnlineDriver, info_fields, Draws, random_route, new_driver, World, store_geohash, with_geohash,
  register_commands, start_task, register_driver,
}

-- The time that a record has left.
abbrev pub ttl_of : Option Hash → Option ℕ
ttl_of none = none
ttl_of (some h) = h.ttl

abbrev pub fields_of : Option Hash → Fields
fields_of none = []
fields_of (some h) = h.fields

-- HGET
pub field : String → Fields → Option String
field f [] = none
field f ((g, v) ∷ fs) = if g == f then some v else field f fs

-- What is stored about a driver, in the fields that the reader of a record expects.
pub record Describes (fs : Fields) (d : OnlineDriver) (float_text : Float64 → String) : Type 0 where
  pub id : field "id" fs ≡ some d.id
  pub name : field "name" fs ≡ some d.name
  pub profile_picture : field "profilePicture" fs ≡ some d.profile_picture
  pub car_plate : field "carPlate" fs ≡ some d.car_plate
  pub package_slug : field "packageSlug" fs ≡ some d.package_slug
  pub lat : field "lat" fs ≡ some (float_text d.location.latitude)
  pub lng : field "lng" fs ≡ some (float_text d.location.longitude)

field-put_field :
    (f g v : String) (fs : Fields)
    → field g (put_field f v fs) ≡ (if f == g then some v else field g fs)
unfolding field put_field
field-put_field f g v [] = refl
field-put_field f g v ((h, w) ∷ fs) =
    ground (arith, eq_iff f g, eq_iff h f, eq_iff h g, field-put_field f g v fs)

-- A registration overwrites whatever record there was.
info-Describes :
    (float_text : Float64 → String) (d : OnlineDriver) (o : Option Hash)
    → Describes (written_hash (info_fields float_text d) o).fields d float_text
unfolding written_hash put_fields
info-Describes float_text d none = record {
  id = simp field-put_field;
  name = simp field-put_field;
  profile_picture = simp field-put_field;
  car_plate = simp field-put_field;
  package_slug = simp field-put_field;
  lat = simp field-put_field;
  lng = simp field-put_field;
}
info-Describes float_text d (some h) = record {
  id = simp field-put_field;
  name = simp field-put_field;
  profile_picture = simp field-put_field;
  car_plate = simp field-put_field;
  package_slug = simp field-put_field;
  lat = simp field-put_field;
  lng = simp field-put_field;
}

geohash-Describes :
    (float_text : Float64 → String) (d : OnlineDriver) (g : String) (fs : Fields)
    → Describes fs d float_text
    → Describes (put_field "geohash" g fs) d float_text
geohash-Describes float_text d g fs r = record {
  id = simp (field-put_field, r.id);
  name = simp (field-put_field, r.name);
  profile_picture = simp (field-put_field, r.profile_picture);
  car_plate = simp (field-put_field, r.car_plate);
  package_slug = simp (field-put_field, r.package_slug);
  lat = simp (field-put_field, r.lat);
  lng = simp (field-put_field, r.lng);
}

-- What the searches read of a driver, and the record.
pub record IsOnline (v : Keys) (d : OnlineDriver) (float_text : Float64 → String) : Type 0 where
  pub stored : Describes (fields_of (v.hash (driver_info_key d.id))) d float_text
  pub info : ttl_of (v.hash (driver_info_key d.id)) ≡ some driver_info_ttl
  pub online : v.member (drivers_online_key d.package_slug) d.id ≡ true
  pub place :
      v.point (drivers_geo_key d.package_slug) d.id
      ≡ some (d.location.latitude, d.location.longitude)

with_geohash_lem :
    (d : OnlineDriver) (r : Result (List String))
    → with_geohash d r ≡ record d { geohash = (with_geohash d r).geohash }
unfolding with_geohash
with_geohash_lem d (ok []) = refl
with_geohash_lem d (ok (g ∷ gs)) = refl
with_geohash_lem d (err e) = refl

module _ (fleet : Fleet) (laws : FleetLaws fleet) (float_text : Float64 → String) where
  open fleet use {State, IsUp, keys}

  commands-fields :
      (d : OnlineDriver) (s : State)
      → IsUp s
      → fields_of
          ((keys (fleet.exec (register_commands float_text d) s).1).hash (driver_info_key d.id))
        ≡ (written_hash (info_fields float_text d) ((keys s).hash (driver_info_key d.id))).fields
  unfolding register_commands hash_run hash_after expiring
  commands-fields d s up =
      let cs = register_commands float_text d in
      let k = driver_info_key d.id in
      ground (arith, laws.exec_hash cs k s (laws.up_exec cs s up), eq_refl k)

  commands-IsOnline :
      (d : OnlineDriver) (s : State)
      → IsUp s
      → IsOnline (keys (fleet.exec (register_commands float_text d) s).1) d float_text
  unfolding register_commands hash_run member_run point_run hash_after member_after point_after
      expiring
  commands-IsOnline d s up =
      let cs = register_commands float_text d in
      let e = laws.up_exec cs s up in
      let k = driver_info_key d.id in
      let o = drivers_online_key d.package_slug in
      let g = drivers_geo_key d.package_slug in
      record {
        stored =
            subst (λ fs. Describes fs d float_text) (sym (commands-fields d s up))
              (info-Describes float_text d ((keys s).hash k));
        info = ground (arith, laws.exec_hash cs k s e, eq_refl k);
        online = ground (arith, laws.exec_member cs o d.id s e, eq_refl o, eq_refl d.id);
        place = ground (arith, laws.exec_point cs g d.id s e, eq_refl g, eq_refl d.id);
      }

  geohash-IsOnline :
      (d : OnlineDriver) (r : Result (List String)) (s : State)
      → IsUp s
      → IsOnline (keys s) d float_text
      → IsOnline (keys (store_geohash fleet d.id r s).1) d float_text
  unfolding store_geohash hash_run member_run point_run hash_after member_after point_after
      written_hash put_fields
  geohash-IsOnline d (ok []) s up on = on
  geohash-IsOnline d (err e) s up on = on
  geohash-IsOnline d (ok (g ∷ gs)) s up on =
      let k = driver_info_key d.id in
      let cs = hset k (("geohash", g) ∷ []) ∷ [] in
      let e = laws.up_exec cs s up in
      record {
        stored = elim (Option-cases ((keys s).hash k)) [
          | inl gone ↦ absurd (ground (arith, on.info, gone))
          | inr (h, q) ↦
              let before = subst (λ o. Describes (fields_of o) d float_text) q on.stored in
              subst (λ fs. Describes fs d float_text)
                (ground (arith, laws.exec_hash cs k s e, eq_refl k, q))
                (geohash-Describes float_text d g h.fields before)
        ];
        info = elim (Option-cases ((keys s).hash k)) [
          | inl gone ↦ absurd (ground (arith, on.info, gone))
          | inr (h, q) ↦ ground (arith, laws.exec_hash cs k s e, eq_refl k, on.info, q)
        ];
        online = laws.exec_member cs (drivers_online_key d.package_slug) d.id s e ∙ on.online;
        place = laws.exec_point cs (drivers_geo_key d.package_slug) d.id s e ∙ on.place;
      }

  store_geohash-ok :
      (id : String) (r : Result (List String)) (s : State) → (store_geohash fleet id r s).0 ≡ ok tt
  unfolding store_geohash
  store_geohash-ok id (ok []) s = refl
  store_geohash-ok id (ok (g ∷ gs)) s = refl
  store_geohash-ok id (err e) s = refl

  -- How a registration runs while Redis is up.
  registered :
      (r : Draws) (driver_id package_slug : String) (w : World fleet)
      → is_empty driver_id ≡ false
      → is_empty package_slug ≡ false
      → IsUp w.redis
      → let d = new_driver r driver_id package_slug in
        let s₁ = (fleet.exec (register_commands float_text d) w.redis).1 in
        let (g, s₂) = fleet.geo_hash (drivers_geo_key package_slug) driver_id s₁ in
        register_driver fleet float_text r driver_id package_slug w ≡ (
          ok (with_geohash d g),
          record {
            redis = (store_geohash fleet driver_id g s₂).1;
            movements = start_driver_movement driver_id package_slug (random_route r) w.movements;
          },
        )
  unfolding register_driver start_task
  registered r driver_id package_slug w named typed up =
      let d = new_driver r driver_id package_slug in
      let cs = register_commands float_text d in
      let (a, s₁) = fleet.exec cs w.redis in
      let (g, s₂) = fleet.geo_hash (drivers_geo_key package_slug) driver_id s₁ in
      ground (arith, named, typed, laws.up_exec cs w.redis up, store_geohash-ok driver_id g s₂)

  -- While Redis is up, a registration with a name and a package answers the driver; then the record
  -- holds the driver's identifier, name, picture, plate, package and position, and lives for five
  -- minutes, the driver is in the package's online set and, at the start of the route
  -- drawn, in its index, and the movement along that route has been started.
  pub register_driver_lem :
      (r : Draws) (driver_id package_slug : String) (w : World fleet)
      → is_empty driver_id ≡ false
      → is_empty package_slug ≡ false
      → IsUp w.redis
      → let (answer, w') = register_driver fleet float_text r driver_id package_slug w in
        let d₀ = new_driver r driver_id package_slug in
        ((d : OnlineDriver) × (answer ≡ ok d) × (d ≡ record d₀ { geohash = d.geohash }))
        × IsOnline (keys w'.redis) d₀ float_text
        × (w'.movements ≡ start_driver_movement driver_id package_slug (random_route r) w.movements)
  unfolding new_driver
  register_driver_lem r driver_id package_slug w named typed up =
      let d = new_driver r driver_id package_slug in
      let cs = register_commands float_text d in
      let key = drivers_geo_key package_slug in
      let s₁ = (fleet.exec cs w.redis).1 in
      let (g, s₂) = fleet.geo_hash key driver_id s₁ in
      let on =
        subst (λ v. IsOnline v d float_text) (sym (laws.geo_hash_keeps key driver_id s₁))
          (commands-IsOnline d w.redis up) in
      let up₂ = laws.geo_hash-IsUp key driver_id s₁ (laws.exec-IsUp cs w.redis up) in
      rw (registered r driver_id package_slug w named typed up)
        ((with_geohash d g, refl, with_geohash_lem d g), geohash-IsOnline d g s₂ up₂ on, refl)
