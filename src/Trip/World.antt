-- ===== src/Trip/World.antt =====
-- What the message consumers of the trip service are built over: Redis (the keys of the accept lock
-- and of the idempotency states), the trip service with the stores behind it, and the broker.
-- The service's own Redis keys are part of its state: they differ from the consumers'.
use mygo_microservices.Prelude.{String, Option, List}
use mygo_microservices.Go.{Exec, Codec}
use mygo_microservices.Redis.{Kv, KvLaws}
use mygo_microservices.Contracts.{AmqpMessage}
use mygo_microservices.Messaging.Publish.{Publisher, PublisherLaws}
use mygo_microservices.Trip.Domain.{Float64, TripModel, Driver, TripService, TripServiceLaws}

-- shared/messaging/event.go
pub record DriverTripResponseData : Type 0 where
  pub driver : Option Driver
  pub trip_id : String
  pub rider_id : String

pub record PaymentTripResponseData : Type 0 where
  pub trip_id : String
  pub user_id : String
  pub driver_id : String
  pub amount : Float64
  pub currency : String

pub record PaymentStatusUpdateData : Type 0 where
  pub trip_id : String
  pub user_id : String
  pub driver_id : String

pub record Deps : Type 1 where
  pub kv : Kv
  pub svc : TripService
  pub bus : Publisher
  -- the hexadecimal SHA-256 sum
  pub digest : String → String
  pub amqp_json : Codec AmqpMessage
  pub trip_json : Codec TripModel
  -- a `TripEventData`, which holds the trip's protobuf message
  pub event_json : Codec TripModel
  pub response_json : Codec DriverTripResponseData
  pub payment_json : Codec PaymentTripResponseData
  pub status_json : Codec PaymentStatusUpdateData

pub record DepsLaws (env : Deps) : Type 0 where
  pub kv_laws : KvLaws env.kv
  pub svc_laws : TripServiceLaws env.svc
  pub bus_laws : PublisherLaws env.bus

module _ (env : Deps) where
  pub record World : Type 0 where
    pub redis : env.kv.State
    pub trips : env.svc.State
    pub broker : env.bus.State

  abbrev pub on_redis : {A : Type 0} → Exec env.kv.State A → Exec World A
  on_redis m w = let (r, s) = m w.redis in (r, record w { redis = s })

  abbrev pub on_trips : {A : Type 0} → Exec env.svc.State A → Exec World A
  on_trips m w = let (r, s) = m w.trips in (r, record w { trips = s })

  abbrev pub on_broker : {A : Type 0} → Exec env.bus.State A → Exec World A
  on_broker m w = let (r, s) = m w.broker in (r, record w { broker = s })

  -- The database's trip, and the messages sent.
  abbrev pub trip_at : World → String → Option TripModel
  trip_at w = env.svc.view w.trips

  abbrev pub sent : World → List (String × AmqpMessage)
  sent w = env.bus.sent w.broker

  -- Every external service answers, and the caches agree with the database.
  pub record IsLive (w : World) : Type 0 where
    pub redis_up : env.kv.IsUp w.redis
    pub trips_up : env.svc.IsUp w.trips
    pub coherent : env.svc.IsCoherent w.trips
    pub broker_up : env.bus.IsUp w.broker
