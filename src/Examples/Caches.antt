-- ===== src/Examples/Caches.antt =====
-- The Bloom filter, the rate limiter and the conditional update of a trip, at concrete inputs.
use mygo_microservices.Prelude.{
  bytes, ◌≤◌, String, ◌≡◌, refl, true, false, none, some, List, [], ◌∷◌, ◌==◌, if◌then◌else◌,
  trim_space, arith,
}
use mygo_microservices.Fake.Bitmap.{Store, bitmap, bitmap_laws}
use mygo_microservices.Fake.SortedSet.{Sets, sorted_set, sorted_set_laws}
use mygo_microservices.Fake.Documents.{Trips, documents, documents_laws}
use mygo_microservices.Cache.Bloom.{
  bloom_add, bloom_exists, bloom_hash1, bloom_hash2, both_set, replies, effect,
}
use mygo_microservices.Cache.Bloom.Laws.{no_false_negative, add_all}
use mygo_microservices.Cache.RateLimit.{Entry}
use mygo_microservices.Cache.RateLimit.Window.{count_in}
use mygo_microservices.Cache.RateLimit.Laws.{accept_all, window_bound}
use mygo_microservices.Trip.Domain.{RideFareModel, TripModel, Driver, pending}
use mygo_microservices.Trip.Repository.Laws.{winners, at_most_one_winner}

abbrev no_bits : Store
no_bits = record { maps = λ k i. false; up = true }

abbrev adds : List (String × String)
adds = ("bloom:trips", "b2") ∷ ("bloom:users", "c3") ∷ []

no_false_negative_example : true ≡ true
unfolding bloom_add trim_space add_all bloom_exists both_set replies effect bloom_hash1 bloom_hash2
    bytes
no_false_negative_example =
    no_false_negative bitmap bitmap_laws "bloom:trips" "a1" adds no_bits true refl refl

abbrev no_entries : Sets
no_entries k = []

abbrev requests : List Entry
requests = (10, "a") ∷ (12, "b") ∷ (15, "c") ∷ []

window_bound_example :
    count_in 100 20
      (accept_all sorted_set sorted_set_laws "user" 100 2 (omega arith) requests [] no_entries)
    ≤ 2
window_bound_example =
    window_bound sorted_set sorted_set_laws "user" 100 2 (omega arith) requests 20 no_entries
      (omega arith, (omega arith, (omega arith, tt))) (tt, ((refl, tt), ((refl, (refl, tt)), tt)))
      refl

abbrev full_set : Sets
full_set k = (5, "old") ∷ (4, "older") ∷ []

abbrev fare : RideFareModel
fare = record {
  id = "f-1";
  user_id = "rider-1";
  package_slug = "van";
  total_price_in_cents = 0;
  route = none;
}

abbrev waiting : TripModel
waiting = record {
  id = "a1";
  user_id = "rider-1";
  status = pending;
  ride_fare = some fare;
  driver = none;
}

abbrev one_trip : Trips
one_trip = record { document = λ id. if id == "a1" then some waiting else none; up = true }

abbrev driver_named : String → Driver
driver_named id = record { id = id; name = "D"; profile_picture = ""; car_plate = "P" }

abbrev racers : List (Driver × (Trips → Trips))
racers = (driver_named "d1", λ s. s) ∷ (driver_named "d2", λ s. s) ∷ []

at_most_one_winner_example : winners documents documents_laws "a1" refl racers one_trip ≤ 1
at_most_one_winner_example =
    at_most_one_winner documents documents_laws "a1" refl racers one_trip (λ s h. h, (λ s h. h, tt))
