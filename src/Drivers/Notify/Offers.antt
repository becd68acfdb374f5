-- ===== src/Drivers/Notify/Offers.antt =====
-- While every server is up, the nearest drivers with a record are offered the trip.
use mygo_microservices.Prelude.{String, List, [], ◌∷◌}
use mygo_microservices.Contracts.{AmqpMessage}
use mygo_microservices.Drivers.Fleet.{Fleet}

-- The messages about one event, given the candidates with a record, nearest first.
abbrev pub messages_for : String → String → List String → List (String × AmqpMessage)
messages_for event rider [] =
    ("trip.event.no_drivers_found", record { owner_id = rider; content = "" }) ∷ []
messages_for event rider (d ∷ []) =
    ("driver.cmd.trip_request", record { owner_id = d; content = event }) ∷ []
messages_for event rider (d ∷ e ∷ ds) =
    ("driver.cmd.trip_request", record { owner_id = d; content = event })
    ∷ ("driver.cmd.trip_request", record { owner_id = e; content = event })
    ∷ []
