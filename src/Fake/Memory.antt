-- ===== src/Fake/Memory.antt =====
-- The stores of the trip service: a local cache that keeps everything, encodings of fares and trips
-- that are undone, and the whole of the stores. Only a fare at no price, without a route, and a trip
-- without a driver have an encoding.
use mygo_microservices.Prelude.{
  String, ◌≡◌, refl, true, Option, none, some, List, ◌==◌, ◌=ℕ=◌, if◌then◌else◌, arith, eq_iff, ap,
  ◌∙◌,
}
use mygo_microservices.Go.{message, Result, ok, err, Codec, CodecLaws}
use mygo_microservices.Contracts.{AmqpMessage}
use mygo_microservices.Cache.Local.{Ristretto, RistrettoLaws}
use mygo_microservices.Cache.Bloom.{Bits}
use mygo_microservices.Trip.Domain.{OsrmRoute, RideFareModel, TripDriver, TripModel}
use mygo_microservices.Trip.Service.{Stores}
use mygo_microservices.Trip.Service.Coherent.{StoresLaws}
use mygo_microservices.Trip.Fares.{FareCollection, FareStores}
use mygo_microservices.Fake.RedisTable.{table_kv, table_laws}
use mygo_microservices.Fake.Documents.{documents, documents_laws}
use mygo_microservices.Fake.Broker.{join, split, split-join}

abbrev pub Cells : Type 0
Cells = String → Option String

abbrev pub memory : Ristretto
memory = record {
  State = Cells;
  cell = λ s. s;
  get = λ k s. s k;
  set_with_ttl = λ k v cost ttl s j. if k == j then some v else s j;
  del = λ k s j. if k == j then none else s j;
}

pub memory_laws : RistrettoLaws memory
memory_laws = record {
  get_hit = λ k v s e. e;
  set_sound = λ k v cost ttl j u s. ground (arith, eq_iff k j);
  del_sound = λ k j u s. ground arith;
}

-- Three texts as one.
abbrev pub join3 : String → String → String → String
join3 a b c = join a (join b c)

abbrev pub Parts : Type 0
Parts = Option (String × String × String)

abbrev pub last_part : String → Option AmqpMessage → Parts
last_part a none = none
last_part a (some m) = some (a, m.owner_id, m.content)

abbrev pub next_part : Option AmqpMessage → Parts
next_part none = none
next_part (some m) = last_part m.owner_id (split true m.content)

abbrev pub split3 : String → Parts
split3 text = next_part (split true text)

split3-join3 : (a b c : String) → split3 (join3 a b c) ≡ some (a, b, c)
split3-join3 a b c = ap next_part (split-join a (join b c)) ∙ ap (last_part a) (split-join b c)

abbrev pub fare_of_parts : Parts → Result RideFareModel
fare_of_parts none = err (message "not a fare")
fare_of_parts (some (a, b, c)) =
    ok (record { id = a; user_id = b; package_slug = c; total_price_in_cents = 0; route = none })

abbrev plain_fare : Option (List OsrmRoute) → RideFareModel → Result String
plain_fare none f =
    if f.total_price_in_cents =ℕ= 0
    then ok (join3 f.id f.user_id f.package_slug)
    else err (message "a fare at a price")
plain_fare (some r) f = err (message "a fare with a route")

abbrev pub encode_fare : RideFareModel → Result String
encode_fare f = plain_fare f.route f

abbrev pub fare_codec : Codec RideFareModel
fare_codec = record { encode = encode_fare; decode = λ text. fare_of_parts (split3 text) }

plain_fare_ok :
    (f : RideFareModel) (r : Option (List OsrmRoute)) (t : String)
    → f.route ≡ r
    → plain_fare r f ≡ ok t
    → fare_of_parts (split3 t) ≡ ok f
plain_fare_ok f none t p e =
    ground (arith, p, e, ap fare_of_parts (split3-join3 f.id f.user_id f.package_slug))
plain_fare_ok f (some r) t p e = absurd (ground (arith, e))

pub fare_codec_laws : CodecLaws fare_codec
fare_codec_laws = record { decode-encode = λ f t e. plain_fare_ok f f.route t refl e }

abbrev trip_of_parts : RideFareModel → Parts → Result TripModel
trip_of_parts f none = err (message "not a trip")
trip_of_parts f (some (a, b, c)) =
    ok (record { id = a; user_id = b; status = c; ride_fare = some f; driver = none })

abbrev trip_with : Result RideFareModel → String → Result TripModel
trip_with (err e) text = err e
trip_with (ok f) text = trip_of_parts f (split3 text)

abbrev trip_of_halves : Option AmqpMessage → Result TripModel
trip_of_halves none = err (message "not a trip")
trip_of_halves (some m) = trip_with (fare_of_parts (split3 m.owner_id)) m.content

abbrev encode_present : Option RideFareModel → Result String
encode_present none = err (message "a trip without a fare")
encode_present (some f) = encode_fare f

abbrev trip_after : Option TripDriver → Result String → TripModel → Result String
trip_after none (ok f) t = ok (join f (join3 t.id t.user_id t.status))
trip_after none (err e) t = err e
trip_after (some d) r t = err (message "a trip with a driver")

abbrev pub trip_codec : Codec TripModel
trip_codec = record {
  encode = λ t. trip_after t.driver (encode_present t.ride_fare) t;
  decode = λ text. trip_of_halves (split true text);
}

trip_after_ok :
    (t : TripModel) (d : Option TripDriver) (o : Option RideFareModel) (r : Result String)
    (text : String)
    → t.driver ≡ d
    → t.ride_fare ≡ o
    → encode_present o ≡ r
    → trip_after d r t ≡ ok text
    → trip_of_halves (split true text) ≡ ok t
trip_after_ok t none none (ok f) text p o q e = absurd (ground (arith, q))
trip_after_ok t none (some g) (ok f) text p o q e = ground (
  arith,
  p,
  o,
  e,
  split-join f (join3 t.id t.user_id t.status),
  fare_codec_laws.decode-encode g f q,
  split3-join3 t.id t.user_id t.status,
)
trip_after_ok t none o (err x) text p present q e = absurd (ground (arith, e))
trip_after_ok t (some d) o r text p present q e = absurd (ground (arith, e))

pub trip_codec_laws : CodecLaws trip_codec
trip_codec_laws = record {
  decode-encode = λ t text e.
      trip_after_ok t t.driver t.ride_fare (encode_present t.ride_fare) text refl refl refl e;
}

abbrev pub stores : Bits → Stores
stores bits = record {
  kv = table_kv;
  bits = bits;
  ristretto = memory;
  db = documents;
  trip_json = trip_codec;
}

pub stores_laws : (bits : Bits) → StoresLaws (stores bits)
stores_laws bits = record {
  kv_laws = table_laws;
  ristretto_laws = memory_laws;
  db_laws = documents_laws;
  json_laws = trip_codec_laws;
}

abbrev no_fares : FareCollection
no_fares = record {
  State = Unit;
  object_id_from_hex = λ id. ok id;
  insert_one = λ f s. (ok f.id, s);
  find_one = λ id s. (err (message "mongo: no documents in result"), s);
}

abbrev pub fare_stores : FareStores
fare_stores = record {
  kv = table_kv;
  db = no_fares;
  fare_json = fare_codec;
  library = λ e. "i/o timeout";
}
