-- ===== src/Messaging/Topology.antt =====
-- The exchanges and queues that shared/messaging/rabbitmq.go declares when a service connects, over
-- the channel of github.com/rabbitmq/amqp091-go.
pub mod Laws
use mygo_microservices.Prelude.{String, ◌≡◌, ◌<>◌, Bool, true, Option, none, some, List, [], ◌∷◌}
use mygo_microservices.Go.{Error, message, Result, ok, err, Exec, pure, fail, attempt, ◌>>=◌, ◌>>◌}
use mygo_microservices.Contracts
use mygo_microservices.Messaging.Publish.{trip_exchange}

abbrev pub dead_letter_exchange : String
dead_letter_exchange = "dlx"

abbrev pub find_available_drivers_queue : String
find_available_drivers_queue = "find_available_drivers"

abbrev pub driver_cmd_trip_request_queue : String
driver_cmd_trip_request_queue = "driver_cmd_trip_request"

abbrev pub driver_trip_response_queue : String
driver_trip_response_queue = "driver_trip_response"

abbrev pub notify_driver_no_drivers_found_queue : String
notify_driver_no_drivers_found_queue = "notify_driver_no_drivers_found"

abbrev pub notify_driver_assign_queue : String
notify_driver_assign_queue = "notify_driver_assign"

abbrev pub payment_trip_response_queue : String
payment_trip_response_queue = "payment_trip_response"

abbrev pub notify_payment_session_created_queue : String
notify_payment_session_created_queue = "notify_payment_session_created"

abbrev pub notify_payment_success_queue : String
notify_payment_success_queue = "payment_success"

abbrev pub dead_letter_queue : String
dead_letter_queue = "dead_letter_queue"

-- The calls of `declareAndBindQueue`, in order.
abbrev pub queues : List (String × List String)
queues =
    (
      find_available_drivers_queue,
      Contracts.trip_event_created ∷ Contracts.trip_event_driver_not_interested ∷ [],
    )
    ∷ (driver_cmd_trip_request_queue, Contracts.driver_cmd_trip_request ∷ [])
    ∷ (
      driver_trip_response_queue,
      Contracts.driver_cmd_trip_accept ∷ Contracts.driver_cmd_trip_decline ∷ [],
    )
    ∷ (notify_driver_no_drivers_found_queue, Contracts.trip_event_no_drivers_found ∷ [])
    ∷ (notify_driver_assign_queue, Contracts.trip_event_driver_assigned ∷ [])
    ∷ (payment_trip_response_queue, Contracts.payment_cmd_create_session ∷ [])
    ∷ (notify_payment_session_created_queue, Contracts.payment_event_session_created ∷ [])
    ∷ (notify_payment_success_queue, Contracts.payment_event_success ∷ [])
    ∷ []

-- Durable topic exchanges and durable queues, as the source always asks for; a queue is declared with
-- the exchange for its dead letters, or without one.
pub record Channel : Type 1 where
  pub State : Type 0
  pub IsUp : State → Type 0
  pub is_exchange : State → String → Bool
  pub dead_letters : State → String → Option String
  pub bound : State → String → String → String → Bool
  pub exchange_declare : String → Exec State (Unit {0})
  pub queue_declare : String → Option String → Exec State (Unit {0})
  pub queue_bind : String → String → String → Exec State (Unit {0})

module _ (ch : Channel) where
  open ch use {
    State, IsUp, is_exchange, dead_letters, bound, exchange_declare, queue_declare, queue_bind,
  }

  -- A call that answers has happened, and no call takes back what another has declared; a queue
  -- cannot be declared again with other arguments.
  pub record ChannelLaws : Type 0 where
    pub queue_declare_done :
        (q x : String) (s : State)
        → (queue_declare q (some x) s).0 ≡ ok tt
        → dead_letters (queue_declare q (some x) s).1 q ≡ some x
    pub queue_declare_keeps :
        (q p x : String) (o : Option String) (s : State)
        → dead_letters s p ≡ some x
        → dead_letters (queue_declare q o s).1 p ≡ some x
    pub queue_declare_bound :
        (q x k p : String) (o : Option String) (s : State)
        → bound s x k p ≡ true
        → bound (queue_declare q o s).1 x k p ≡ true
    pub queue_bind_done :
        (q k x : String) (s : State)
        → (queue_bind q k x s).0 ≡ ok tt
        → bound (queue_bind q k x s).1 x k q ≡ true
    pub queue_bind_bound :
        (q k x p j y : String) (s : State)
        → bound s y j p ≡ true
        → bound (queue_bind q k x s).1 y j p ≡ true
    pub queue_bind_keeps :
        (q k x p y : String) (s : State)
        → dead_letters s p ≡ some y
        → dead_letters (queue_bind q k x s).1 p ≡ some y
    pub exchange_declare_bound :
        (n x k p : String) (s : State)
        → bound s x k p ≡ true
        → bound (exchange_declare n s).1 x k p ≡ true

  -- `fmt.Errorf` around an error; the error's own text is left out.
  unfoldable pub or_report : String → Result (Unit {0}) → Exec State (Unit {0})
  or_report text (ok u) = pure tt
  or_report text (err e) = fail (message text)

  unfoldable pub reporting : String → Exec State (Unit {0}) → Exec State (Unit {0})
  reporting text m = attempt m >>= or_report text

  unfoldable pub setup_dead_letter_exchange : Exec State (Unit {0})
  setup_dead_letter_exchange =
      reporting "failed to declare dead letter exchange" (exchange_declare dead_letter_exchange)
      >> (reporting "failed to declare dead letter queue" (queue_declare dead_letter_queue none)
          >> reporting "failed to bind dead letter queue"
              (queue_bind dead_letter_queue "#" dead_letter_exchange))

  unfoldable pub bind_keys : String → List String → String → Exec State (Unit {0})
  bind_keys queue_name [] exchange = pure tt
  bind_keys queue_name (k ∷ ks) exchange =
      reporting ("failed to bind queue to " <> queue_name) (queue_bind queue_name k exchange)
      >> bind_keys queue_name ks exchange

  -- Where the queue cannot be declared, `log.Fatal` ends the process; here that is an error.
  unfoldable pub declare_and_bind_queue : String → List String → String → Exec State (Unit {0})
  declare_and_bind_queue queue_name message_types exchange =
      queue_declare queue_name (some dead_letter_exchange)
      >> bind_keys queue_name message_types exchange

  unfoldable pub declare_queues : List (String × List String) → Exec State (Unit {0})
  declare_queues [] = pure tt
  declare_queues ((q, ks) ∷ rows) = declare_and_bind_queue q ks trip_exchange >> declare_queues rows

  unfoldable pub setup_exchanges_and_queues : Exec State (Unit {0})
  setup_exchanges_and_queues =
      setup_dead_letter_exchange
      >> (reporting "failed to declare exchange: trip" (exchange_declare trip_exchange)
          >> declare_queues queues)
