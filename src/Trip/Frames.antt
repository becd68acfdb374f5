-- ===== src/Trip/Frames.antt =====
-- Steps of the world that leave one of its parts alone.
use mygo_microservices.Prelude.{◌≡◌}
use mygo_microservices.Go.{Exec}
use mygo_microservices.Go.Frame.{Keeps}
use mygo_microservices.Trip.World.{Deps, World, on_redis, on_trips, on_broker}

module _ (env : Deps) where
  abbrev pub RedisIs : env.kv.State → World env → Type 0
  RedisIs r w = w.redis ≡ r

  abbrev pub TripsAre : env.svc.State → World env → Type 0
  TripsAre t w = w.trips ≡ t

  abbrev pub BrokerIs : env.bus.State → World env → Type 0
  BrokerIs b w = w.broker ≡ b

  module _ {A : Type 0} where
    pub on_trips-RedisIs :
        (r : env.kv.State) (m : Exec env.svc.State A) → Keeps (RedisIs r) (on_trips env m)
    on_trips-RedisIs r m = record { after = λ w h. h }

    pub on_broker-RedisIs :
        (r : env.kv.State) (m : Exec env.bus.State A) → Keeps (RedisIs r) (on_broker env m)
    on_broker-RedisIs r m = record { after = λ w h. h }

    pub on_redis-TripsAre :
        (t : env.svc.State) (m : Exec env.kv.State A) → Keeps (TripsAre t) (on_redis env m)
    on_redis-TripsAre t m = record { after = λ w h. h }

    pub on_broker-TripsAre :
        (t : env.svc.State) (m : Exec env.bus.State A) → Keeps (TripsAre t) (on_broker env m)
    on_broker-TripsAre t m = record { after = λ w h. h }

    pub on_redis-BrokerIs :
        (b : env.bus.State) (m : Exec env.kv.State A) → Keeps (BrokerIs b) (on_redis env m)
    on_redis-BrokerIs b m = record { after = λ w h. h }

    pub on_trips-BrokerIs :
        (b : env.bus.State) (m : Exec env.svc.State A) → Keeps (BrokerIs b) (on_trips env m)
    on_trips-BrokerIs b m = record { after = λ w h. h }

pub ruleset frame_rules = (
  on_trips-RedisIs, on_broker-RedisIs, on_redis-TripsAre, on_broker-TripsAre, on_redis-BrokerIs,
  on_trips-BrokerIs,
)
