-- ===== src/Trip/PaymentConsumer.antt =====
-- services/trip-service/internal/infrastructure/events/payment_consumer.go: a successful payment
-- moves its trip to `payed`, once per message.
pub mod Laws
use mygo_microservices.Prelude.{ℕ, ◌*◌, String, Bool, true, false, none, if◌then◌else◌}
use mygo_microservices.Go.{Error, Result, ok, err, Exec, pure, lift, ◌>>=◌, ◌>>◌}
use mygo_microservices.Redis.{Client}
use mygo_microservices.Messaging.Idempotency.{
  Delivery, MessageProcessClaim, claim_message_for_processing, mark_message_processed,
}
use mygo_microservices.Trip.Domain.{payed}
use mygo_microservices.Trip.World.{Deps, World, on_redis, on_trips}
use mygo_microservices.Trip.DriverConsumer.{or_release}

-- 10 * time.Minute
abbrev pub payment_consumer_processed_message_ttl : ℕ
payment_consumer_processed_message_ttl = 600 * 1000000000

module _ (env : Deps) where
  -- Both `json.Unmarshal` calls and the update.
  unfoldable pub handle_message : Delivery → Exec (World env) (Unit {0})
  handle_message msg = do
    m ← lift (env.amqp_json.decode msg.body)
    payload ← lift (env.status_json.decode m.content)
    on_trips env (env.svc.update_trip payload.trip_id payed none)

  unfoldable pub consume_claimed :
      Client → Delivery → MessageProcessClaim → Exec (World env) (Unit {0})
  consume_claimed redis msg claim = if claim.already_processed then pure tt else do
    or_release env redis claim.key (handle_message msg)
    on_redis env
        (mark_message_processed env.kv redis claim.key payment_consumer_processed_message_ttl)

  -- The handler that `Listen` passes to `ConsumeMessages`.
  unfoldable pub handle_delivery : Client → Delivery → Exec (World env) (Unit {0})
  handle_delivery redis msg = do
    claim ← on_redis env (
        claim_message_for_processing env.kv env.digest redis "trip-service:payment-consumer" msg
          payment_consumer_processed_message_ttl)
    consume_claimed redis msg claim
