-- ===== src/Messaging/Idempotency.antt =====
-- shared/messaging/idempotency.go: a message is claimed, and then marked done or released.
pub mod Laws
use mygo_microservices.Prelude.{
  ℕ, String, ◌<>◌, ◌≡◌, refl, Bool, true, false, not, ◌==◌, ◌=ℕ=◌, if◌then◌else◌, is_empty,
  trim_space,
}
use mygo_microservices.Go.{
  Error, nil_reply, message, Result, ok, err, Exec, pure, fail, attempt, ◌>>=◌, ◌>>◌,
}
use mygo_microservices.Redis.{Kv, Client, is_nil}

-- amqp.Delivery, as far as the source reads it. A body is the text of its bytes.
pub record Delivery : Type 0 where
  pub message_id : String
  pub routing_key : String
  pub body : String

pub record MessageProcessClaim : Type 0 where
  pub key : String
  pub already_processed : Bool

abbrev pub idempotency_state_processing : String
idempotency_state_processing = "processing"

abbrev pub idempotency_state_done : String
idempotency_state_done = "done"

unfoldable pub build_processed_message_key : String → String → String
build_processed_message_key namespace message_id =
    "idem:" <> (trim_space namespace <> (":" <> trim_space message_id))

module _ (digest : String → String) where
  -- `digest` is the hexadecimal SHA-256 sum of crypto/sha256 and encoding/hex.
  unfoldable pub resolve_message_id : Delivery → String
  resolve_message_id msg =
      if not (is_empty (trim_space msg.message_id))
      then msg.message_id
      else "fallback:" <> digest (msg.routing_key <> msg.body)

  unfoldable pub message_key : String → Delivery → String
  message_key namespace msg = build_processed_message_key namespace (resolve_message_id msg)

module _ (kv : Kv) where
  -- the answer to GET, where SETNX found the key taken
  judge : String → Result String → Exec kv.State MessageProcessClaim
  judge key (ok state) =
      if state == idempotency_state_done
      then pure (record { key = key; already_processed = true })
      else fail (message ("message is still processing, key=" <> key))
  judge key (err nil_reply) = fail (message ("idempotency key disappeared: " <> key))
  judge key (err e) = fail e

  pub claim_key : String → ℕ → Exec kv.State MessageProcessClaim
  claim_key key ttl = do
    won ← kv.set_nx key idempotency_state_processing ttl
    if won
        then pure (record { key = key; already_processed = false })
        else (attempt (kv.get key) >>= judge key)

  unfoldable pub claim_message_for_processing :
      (String → String) → Client → String → Delivery → ℕ → Exec kv.State MessageProcessClaim
  claim_message_for_processing digest rdb namespace msg ttl =
      if is_nil rdb
      then fail (message "redis client is required for message idempotency")
      else if is_empty namespace
      then fail (message "namespace is required for message idempotency")
      else if ttl =ℕ= 0
      then fail (message "ttl must be greater than zero")
      else claim_key (message_key digest namespace msg) ttl

  unfoldable pub mark_message_processed : Client → String → ℕ → Exec kv.State (Unit {0})
  mark_message_processed rdb key ttl =
      if is_nil rdb
      then fail (message "redis client is required for marking processed message")
      else if is_empty key
      then fail (message "idempotency key is required")
      else kv.set key idempotency_state_done ttl

  unfoldable pub release_message_processing : Client → String → Exec kv.State (Unit {0})
  release_message_processing rdb key =
      if is_nil rdb
      then fail (message "redis client is required for releasing message processing")
      else if is_empty key
      then fail (message "idempotency key is required")
      else kv.del key
