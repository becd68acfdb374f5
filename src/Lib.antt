-- ===== src/Lib.antt =====
-- A verification of the services of the ride-sharing back end: trips, their drivers and payments.
--
-- The program. Riders ask for a trip, drivers nearby are offered it, one accepts, and a payment follows.
-- The services talk through RabbitMQ (shared/messaging), keep trips in MongoDB, and use Redis for the
-- drivers on line, locks, idempotency keys, sessions, a Bloom filter, a rate limiter and a cache
-- (shared/cache). The gateway checks who calls, and passes messages on to web sockets.
--
-- Which file models which part:
--   * Go.antt: Go's `(value, error)` over a state; Go/Frame.antt and Go/Triple.antt reason about it;
--   * Redis.antt: the string keys of a Redis server, with the documented behaviour as laws;
--   * Retry.antt: shared/retry/retry.go, `WithBackoff`;
--   * Contracts.antt: shared/contracts, messages and routing keys;
--   * Messaging/Idempotency.antt: shared/messaging/idempotency.go, claim, mark and release;
--   * Messaging/Publish.antt and Messaging/Consume.antt: shared/messaging/rabbitmq.go,
--     `PublishMessage` and what `ConsumeMessages` does with one delivery;
--   * Messaging/Topology.antt: rabbitmq.go, the exchanges and queues that a connection declares;
--   * Messaging/Sockets.antt: connection_messager.go and queue_consumer.go in shared/messaging;
--   * Cache/Bloom.antt, Cache/RateLimit.antt, Cache/Local.antt: bloom.go, ratelimit.go, local.go;
--   * Trip/Domain.antt and Trip/World.antt: services/trip-service/internal/domain, the interface
--     `TripService` with its laws, and what the consumers are built over;
--   * Trip/Repository.antt and Trip/Inmem.antt: the repositories in
--     services/trip-service/internal/infrastructure/repository, and trip_publisher.go;
--   * Trip/DriverConsumer.antt and Trip/PaymentConsumer.antt: driver_consumer.go and
--     payment_consumer.go in services/trip-service/internal/infrastructure/events;
--   * Trip/Service.antt and Trip/Fares.antt: services/trip-service/internal/service/service.go;
--   * Payments.antt: services/payment-service, the session and its consumer;
--   * Drivers/Fleet.antt: what services/driver-service uses of Redis: hashes, sets, geo indexes;
--   * Drivers/Nearest.antt: what a geo query with a limit answers;
--   * Drivers/Routes.antt, Drivers/Find.antt, Drivers/Movement.antt, Drivers/Service.antt: utils.go and
--     service.go there; a goroutine that moves a driver is a task, and starts, stops and ticks are the
--     steps of a relation; Drivers/Notify.antt: trip_consumer.go there;
--   * Auth/Tokens.antt: jwt.go and claims.go in shared/auth; Auth/Middleware.antt, Auth/Handlers.antt and
--     Auth/Handlers/Sessions.antt: auth_middleware.go, auth_handler.go and user_repo.go in
--     services/api-gateway, and shared/auth/password.go;
--   * Webhook.antt: the Stripe webhook in services/api-gateway/http.go;
--   * Fake and Examples: small concrete services, and results with conditions at concrete inputs.
-- A file `X/Laws.antt` holds theorems about `X.antt`; so do the other files in the folder `X`.
--
-- How code becomes definitions. A method is a function from a state to a result and the state after
-- it; what was written before an error stays written. A loop is structural recursion: retries on the
-- number that is left, lists on the list. The texts of numbers have fuel for 20 digits, the most of
-- a 64-bit number. Numbers are natural, with the wrap-around of 32-bit hashes and of the 64-bit
-- counter written out; a float64 is its 64 bits, and its arithmetic is a parameter.
--
-- What is a parameter: Redis, MongoDB, RabbitMQ, ristretto, Stripe, web sockets, JSON, JWT, bcrypt,
-- SHA-256, UUIDs, clocks. Any call may fail; a record of laws states what the documentation says of
-- each, for instance that a read that answers tells the truth, and that while a server is up its calls
-- answer.
--
-- A nil pointer that is followed is the way out `panic`, which only deferred calls see. In Redis.antt a
-- clock lets keys expire between two runs; the theorems on logout and refresh use it.
--
-- What is not modelled: expiry of keys elsewhere, trace spans, metrics, logging, start-up
-- code, the call to OSRM, the gRPC handlers, and the rest of the API gateway. Of concurrent
-- reads that `singleflight` merges, the one that runs is modelled; drivers who compete for a
-- trip are sequences of steps in Trip/Repository/Laws.antt, and what other goroutines do while the
-- queue consumer waits is a function of the model.
pub mod Prelude
pub mod Go
pub mod Redis
pub mod Fake
pub mod Contracts
pub mod Retry
pub mod Cache
pub mod Messaging
pub mod Trip
pub mod Examples
pub mod Payments
pub mod Webhook
pub mod Drivers
pub mod Auth
