-- ===== src/Contracts.antt =====
-- shared/contracts: the messages that cross RabbitMQ and the web sockets, and the routing keys.
use mygo_microservices.Prelude.{String, Option}

-- The field `Data` is bytes; a text stands for them.
pub record AmqpMessage : Type 0 where
  pub owner_id : String
  pub content : String

-- A message to a web-socket client; `content` is the JSON value, absent where it is null.
pub record WsMessage : Type 0 where
  pub kind : String
  pub content : Option String

abbrev pub trip_event_created : String
trip_event_created = "trip.event.created"

abbrev pub trip_event_driver_assigned : String
trip_event_driver_assigned = "trip.event.driver_assigned"

abbrev pub trip_event_no_drivers_found : String
trip_event_no_drivers_found = "trip.event.no_drivers_found"

abbrev pub trip_event_driver_not_interested : String
trip_event_driver_not_interested = "trip.event.driver_not_interested"

abbrev pub driver_cmd_trip_request : String
driver_cmd_trip_request = "driver.cmd.trip_request"

abbrev pub driver_cmd_trip_accept : String
driver_cmd_trip_accept = "driver.cmd.trip_accept"

abbrev pub driver_cmd_trip_decline : String
driver_cmd_trip_decline = "driver.cmd.trip_decline"

abbrev pub driver_cmd_location : String
driver_cmd_location = "driver.cmd.location"

abbrev pub driver_cmd_register : String
driver_cmd_register = "driver.cmd.register"

abbrev pub payment_event_session_created : String
payment_event_session_created = "payment.event.session_created"

abbrev pub payment_event_success : String
payment_event_success = "payment.event.success"

abbrev pub payment_event_failed : String
payment_event_failed = "payment.event.failed"

abbrev pub payment_event_cancelled : String
payment_event_cancelled = "payment.event.cancelled"

abbrev pub payment_cmd_create_session : String
payment_cmd_create_session = "payment.cmd.create_session"
