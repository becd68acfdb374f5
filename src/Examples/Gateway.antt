-- ===== src/Examples/Gateway.antt =====
-- The gateway's queue consumer and the broker's topology at concrete inputs.
use mygo_microservices.Prelude.{
  ℕ, ◌≤◌, String, ◌≡◌, refl, none, some, [], ◌∷◌, All, ◌==◌, ◌=ℕ=◌, if◌then◌else◌, arith,
}
use mygo_microservices.Go.{Result, ok}
use mygo_microservices.Contracts.{driver_cmd_trip_request}
use mygo_microservices.Fake.Gateway.{sockets, channel, channel_laws, nothing_declared}
use mygo_microservices.Messaging.Sockets.{Incoming, Delivery, Gateway, written, handle_delivery}
use mygo_microservices.Messaging.Sockets.Laws.{attempts, handle_delivery-once, handle_delivery-late}
use mygo_microservices.Messaging.Topology.{
  setup_exchanges_and_queues, setup_dead_letter_exchange, declare_queues, declare_and_bind_queue,
  bind_keys, reporting, or_report,
}
use mygo_microservices.Messaging.Topology.Laws.{
  IsRouted, routes, setup_exchanges_and_queues-IsDeclared,
}

abbrev decode : String → Result Incoming
decode body = ok (record { owner_id = "driver-1"; content = some body })

abbrev json_value : String → Result String
json_value bytes = ok bytes

abbrev gateway : Gateway sockets decode json_value
gateway = record { connections = λ id. none; sockets = []; acks = 0 }

-- The driver connects while the code waits for the first time.
abbrev meanwhile : ℕ → Gateway sockets decode json_value → Gateway sockets decode json_value
meanwhile n w =
    if n =ℕ= 1
    then record w { connections = λ id. if id == "driver-1" then some "socket-1" else none }
    else w

meanwhile-alone : (n : ℕ) (w : Gateway sockets decode json_value) → (meanwhile n w).acks ≡ w.acks
meanwhile-alone n w = ground arith

abbrev request : Delivery
request = record { routing_key = driver_cmd_trip_request; body = "{}" }

handle_delivery-once_example :
    let (o, w) = handle_delivery sockets decode json_value meanwhile request gateway in
    (w.acks ≡ 1) × (attempts o ≤ 3)
handle_delivery-once_example =
    handle_delivery-once sockets decode json_value meanwhile meanwhile-alone request gateway

handle_delivery-late_example :
    let (o, w) = handle_delivery sockets decode json_value meanwhile request gateway in
    (o ≡ written 2)
    × (w.sockets
        ≡ ("socket-1", record { kind = driver_cmd_trip_request; content = some "{}" }) ∷ [])
handle_delivery-late_example =
    handle_delivery-late sockets decode json_value meanwhile request gateway
      (record { owner_id = "driver-1"; content = some "{}" }) (some "{}") "socket-1" refl refl refl
      refl refl

setup_exchanges_and_queues-IsDeclared_example :
    All
      (λ route.
        IsRouted channel channel_laws route (setup_exchanges_and_queues channel nothing_declared).1)
      routes
unfolding setup_exchanges_and_queues setup_dead_letter_exchange declare_queues
    declare_and_bind_queue bind_keys reporting or_report
setup_exchanges_and_queues-IsDeclared_example =
    setup_exchanges_and_queues-IsDeclared channel channel_laws nothing_declared refl
