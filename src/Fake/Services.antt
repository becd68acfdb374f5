-- ===== src/Fake/Services.antt =====
-- The world of the driver consumer: a Redis table, trips in memory, and a list of messages.
use mygo_microservices.Prelude.{
  String, ◌≡◌, refl, Bool, true, Option, none, List, [], ◌∷◌, ◌++◌, ◌==◌, if◌then◌else◌, arith,
  eq_refl,
}
use mygo_microservices.Go.{external, message, ok, err, Exec}
use mygo_microservices.Contracts.{AmqpMessage}
use mygo_microservices.Messaging.Publish.{Publisher, PublisherLaws}
use mygo_microservices.Trip.Domain.{
  TripModel, Driver, TripService, TripServiceLaws, movable, updated,
}
use mygo_microservices.Trip.World.{Deps, DepsLaws}
use mygo_microservices.Fake.RedisTable.{table_kv, table_laws}

abbrev pub Trips : Type 0
Trips = String → Option TripModel

abbrev update : String → String → Option Driver → Exec Trips (Unit {0})
update id status d s =
    if movable status (s id)
    then (ok tt, λ j. if id == j then updated status d (s id) else s j)
    else (err (message "trip already accepted or not found"), s)

abbrev pub trips_in_memory : TripService
trips_in_memory = record {
  State = Trips;
  view = λ s. s;
  IsCoherent = λ s. Unit;
  IsUp = λ s. Unit;
  IsId = λ id. Unit;
  get_trip_by_id = λ id s. (ok (s id), s);
  update_trip = update;
}

pub trips_in_memory_laws : TripServiceLaws trips_in_memory
trips_in_memory_laws = record {
  view-IsId = λ id s t e. tt;
  get_ok = λ id s o. ground arith;
  get_keeps = λ id j s. refl;
  get-IsCoherent = λ id s i c. tt;
  update_ok = λ id status d s. ground (arith, eq_refl id);
  update_err = λ id status d s e. ground arith;
  up_get = λ id s t. ground arith;
  up_update = λ id status d s. ground arith;
  get-IsUp = λ id s u. tt;
  update-IsUp = λ id status d s u. tt;
  update-IsCoherent = λ id status d s i u c. tt;
}

pub record Outbox : Type 0 where
  pub messages : List (String × AmqpMessage)
  pub up : Bool

abbrev pub outbox : Publisher
outbox = record {
  State = Outbox;
  IsUp = λ s. s.up ≡ true;
  sent = λ s. s.messages;
  publish = λ k m s.
      if s.up
      then (ok tt, record s { messages = s.messages ++ (k, m) ∷ [] })
      else (err (external "channel closed"), s);
}

pub outbox_laws : PublisherLaws outbox
outbox_laws = record {
  publish_ok = λ k m s. ground arith;
  publish_err = λ k m s e. ground arith;
  up_publish_ok = λ k m s. ground arith;
  up_publish = λ k m s. ground arith;
}

-- Messages whose text is the content, and whose owner is always the same driver.
abbrev pub deps : Deps
deps = record {
  kv = table_kv;
  svc = trips_in_memory;
  bus = outbox;
  digest = λ text. text;
  amqp_json = record {
    encode = λ m. ok m.content;
    decode = λ text. ok (record { owner_id = "driver-1"; content = text });
  };
  trip_json = record { encode = λ t. ok t.id; decode = λ text. err (message "not a trip") };
  event_json = record { encode = λ t. ok t.id; decode = λ text. err (message "not a trip") };
  response_json = record {
    encode = λ r. ok r.trip_id;
    decode = λ text. ok (record { driver = none; trip_id = text; rider_id = "rider-1" });
  };
  payment_json = record {
    encode = λ p. ok p.trip_id;
    decode = λ text. err (message "not a payment");
  };
  status_json = record {
    encode = λ p. ok p.trip_id;
    decode = λ text. err (message "not a status");
  };
}

pub deps_laws : DepsLaws deps
deps_laws = record { kv_laws = table_laws; svc_laws = trips_in_memory_laws; bus_laws = outbox_laws }
