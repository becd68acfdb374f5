-- ===== src/Examples/Service.antt =====
-- The trip service and its fares at concrete inputs.
use mygo_microservices.Prelude.{
  ◌≢◌, String, ◌≡◌, refl, true, false, Option, none, some, List, [], ◌∷◌, ◌==◌, if◌then◌else◌,
  arith, trim_space,
}
use mygo_microservices.Go.{message, Result, ok, err}
use mygo_microservices.Redis.{client}
use mygo_microservices.Cache.Local.{local_cache, local_get, local_del}
use mygo_microservices.Cache.Bloom.{bloom_exists, bloom_add, replies}
use mygo_microservices.Fake.Broker.{join}
use mygo_microservices.Trip.Repository
use mygo_microservices.Trip.Repository.{matches}
use mygo_microservices.Fake.Bitmap.{bitmap, bitmap_laws, replica}
use mygo_microservices.Fake.Memory.{stores, stores_laws, fare_stores, fare_codec_laws, join3}
use mygo_microservices.Fake.RedisTable.{table_laws}
use mygo_microservices.Trip.Domain.{
  TripServiceLaws, RideFareModel, TripModel, OsrmApiResponse, pending, payed, movable,
}
use mygo_microservices.Trip.Service.{
  trip_bloom_filter_key, Service, trip_not_found, create_trip, get_trip_by_id, update_trip,
  del_local,
}
use mygo_microservices.Trip.Service.Coherent.{Coherent}
use mygo_microservices.Trip.Service.Reads.{read-Coherent}
use mygo_microservices.Trip.Service.Updates.{with_update, update-Coherent}
use mygo_microservices.Trip.Service.Available.{read_available}
use mygo_microservices.Trip.Service.Hidden.{new_trip, created_trip_hidden}
use mygo_microservices.Trip.Service.Refinement.{trip_service, trip_service-TripServiceLaws}
use mygo_microservices.Trip.Fares.{
  FareStores, FareState, store_fares, store_fare, wrapped, first_error, get_and_validate_fare,
  generate_trip_fares,
}
use mygo_microservices.Trip.Fares.Laws.{fare_roundtrip, priced, generated_fares}

abbrev fare : RideFareModel
fare = record {
  id = "f-1";
  user_id = "rider-1";
  package_slug = "van";
  total_price_in_cents = 0;
  route = none;
}

abbrev waiting : TripModel
waiting = record {
  id = "a1";
  user_id = "rider-1";
  status = pending;
  ride_fare = some fare;
  driver = none;
}

abbrev view : String → Option TripModel
view id = if id == "a1" then some waiting else none

abbrev service : Service (stores bitmap)
service = record {
  redis = record { cell = λ k. none; left = λ k. none; up = true };
  bitmap = record { maps = λ k i. true; up = true };
  memory = λ k. none;
  trips = record { document = view; up = true };
}

service-Coherent : Coherent (stores bitmap) view service
service-Coherent = record {
  stored = λ id. refl;
  redis = λ id v e. absurd (ground (arith, e));
  memory = λ id v e. absurd (ground (arith, e));
}

abbrev read : Result (Option TripModel) × Service (stores bitmap)
read = get_trip_by_id (stores bitmap) client local_cache "a1" service

read-Coherent_example :
    Coherent (stores bitmap) view read.1 × ((o : Option TripModel) → read.0 ≡ ok o → o ≡ view "a1")
read-Coherent_example =
    read-Coherent (stores bitmap) (stores_laws bitmap) client local_cache "a1" view service
      (λ c p. ground (arith, p)) service-Coherent

abbrev payment : Result (Unit {0}) × Service (stores bitmap)
payment = update_trip (stores bitmap) client local_cache "a1" payed none service

payment_ok : payment.0 ≡ ok tt
unfolding update_trip Repository.update_trip matches del_local local_del
payment_ok = refl

update-Coherent_example :
    (movable payed (view "a1") ≡ true)
    × Coherent (stores bitmap) (with_update "a1" payed none view) payment.1
update-Coherent_example =
    update-Coherent (stores bitmap) (stores_laws bitmap) "a1" payed none view service refl refl
      service-Coherent payment_ok

-- Redis does not answer.
abbrev outage : Service (stores bitmap)
outage = record {
  redis = record { cell = λ k. none; left = λ k. none; up = false };
  bitmap = record { maps = λ k i. false; up = false };
  memory = λ k. none;
  trips = record { document = view; up = true };
}

outage-Coherent : Coherent (stores bitmap) view outage
outage-Coherent = record {
  stored = λ id. refl;
  redis = λ id v e. absurd (ground (arith, e));
  memory = λ id v e. absurd (ground (arith, e));
}

unanswered : (bloom_exists bitmap client trip_bloom_filter_key "a1" outage.bitmap).0 ≢ ok false
unfolding bloom_exists trim_space
unanswered e = ground (arith, e)

read_available_example :
    (get_trip_by_id (stores bitmap) client local_cache "a1" outage).0 ≡ ok (some waiting)
read_available_example =
    read_available (stores bitmap) (stores_laws bitmap) client local_cache "a1" waiting refl view
      outage outage-Coherent refl refl unanswered

abbrev behind_replica : Service (stores replica)
behind_replica = record {
  redis = record { cell = λ k. none; left = λ k. none; up = true };
  bitmap = record { maps = λ k i. false; up = true };
  memory = λ k. none;
  trips = record { document = λ id. none; up = true };
}

created_trip_hidden_example :
    let (r, w') = create_trip (stores replica) client "b2" fare behind_replica in
    (r ≡ ok (new_trip "b2" fare))
    × (w'.trips ≡ ((stores replica).db.insert_one (new_trip "b2" fare) behind_replica.trips).1)
    × ((get_trip_by_id (stores replica) client local_cache "b2" w').0 ≡ err (trip_not_found "b2"))
unfolding local_get bloom_exists trim_space bloom_add replies
created_trip_hidden_example =
    created_trip_hidden (stores replica) fare "b2" "b2" local_cache behind_replica refl refl refl
      refl

abbrev no_fares_yet : FareState fare_stores
no_fares_yet = record {
  redis = record { cell = λ k. none; left = λ k. none; up = true };
  fares = tt;
}

fare_roundtrip_example :
    (get_and_validate_fare fare_stores client "f-1" "rider-1"
      (store_fare fare_stores client fare no_fares_yet).1).0
    ≡ (if "rider-1" == "rider-1" then ok fare else err (message "fare does not belong to the user"))
unfolding join
fare_roundtrip_example =
    fare_roundtrip fare_stores table_laws fare_codec_laws fare (join3 "f-1" "rider-1" "van")
      "rider-1" no_fares_yet refl refl refl

-- Stores that encode every fare as its identifier.
abbrev routed_stores : FareStores
routed_stores = record fare_stores {
  fare_json = record { encode = λ f. ok f.id; decode = λ text. err (message "not a fare") };
}

abbrev no_fares_kept : FareState routed_stores
no_fares_kept = record {
  redis = record { cell = λ k. none; left = λ k. none; up = true };
  fares = tt;
}

abbrev fares_of : Result (List RideFareModel) → List RideFareModel
fares_of (ok fs) = fs
fares_of (err e) = []

abbrev route : OsrmApiResponse
route = record { distance = 0; duration = 0; coordinates = [] } ∷ []

generated_fares_example :
    fares_of
      (generate_trip_fares routed_stores client
        (λ i. "f-1")
        (fare ∷ [])
        "rider-1"
        route
        no_fares_kept).0
    ≡ priced (λ i. "f-1") "rider-1" route 0 (fare ∷ [])
unfolding generate_trip_fares store_fares store_fare wrapped first_error
generated_fares_example =
    generated_fares routed_stores (λ i. "f-1") "rider-1" route (fare ∷ []) _ no_fares_kept refl

trip_service-TripServiceLaws_example :
    TripServiceLaws (trip_service (stores bitmap) (stores_laws bitmap) bitmap_laws)
trip_service-TripServiceLaws_example =
    trip_service-TripServiceLaws (stores bitmap) (stores_laws bitmap) bitmap_laws
