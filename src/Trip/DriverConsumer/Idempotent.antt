-- ===== src/Trip/DriverConsumer/Idempotent.antt =====
-- The handler that `Listen` installs, against the idempotency key of its message.
use mygo_microservices.Prelude.{
  String, ◌<>◌, ◌≡◌, ◌≢◌, refl, sym, ap, subst, ◌∙◌, not, Bool-cases, inl, inr, trim_space, false,
  none, some, Option, ◌==◌, if◌then◌else◌, arith, eq_iff, eq_refl,
}
use Prim.Native.Char.{code}
use text.Mathlib.TextLemmas.{cons-append, head-eq_of_cons-eq}
use mygo_microservices.Go.{
  Error, nil_reply, no_documents, duplicate_key, connection_not_found, panic, message, external,
  Result, ok, err, Exec,
}
use mygo_microservices.Go.Frame.{Keeps, Keeps-bind, Keeps-if, Keeps-pure, Keeps-defer, keeps_rules}
use mygo_microservices.Redis.{client}
use mygo_microservices.Messaging.Idempotency.{
  Delivery, idempotency_state_done, idempotency_state_processing, message_key,
  build_processed_message_key, resolve_message_id, claim_message_for_processing,
  mark_message_processed, release_message_processing,
}
use mygo_microservices.Messaging.Idempotency.Laws.{claim-verdict, claim_sound, claim-IsUp, keyed}
use mygo_microservices.Trip.Domain.{TripModel, Driver}
use mygo_microservices.Trip.World.{Deps, DepsLaws, World, on_redis, on_trips, on_broker}
use mygo_microservices.Trip.DriverConsumer.{
  trip_accept_lock_key, trip_accept_lock_ttl, try_acquire_trip_accept_lock,
  release_trip_accept_lock, compare_and_delete, trip_accept_unlock_script, handle_trip_accepted,
  handle_trip_declined, offer_again, decline_found, accept_locked, is_panic, dispatch, get_id,
  consume_claimed, handle_delivery, handle_message, or_release,
  driver_consumer_processed_message_ttl,
}
use mygo_microservices.Trip.DriverConsumer.Accept.{accept_locked-RedisIs}

abbrev pub consumer_namespace : String
consumer_namespace = "trip-service:driver-consumer"

lock_key-ne-message_key :
    (digest : String → String) (trip_id namespace : String) (msg : Delivery)
    → (trip_accept_lock_key trip_id == message_key digest namespace msg) ≡ false
unfolding message_key build_processed_message_key
lock_key-ne-message_key digest trip_id namespace msg =
    elim (Bool-cases (trip_accept_lock_key trip_id == message_key digest namespace msg)) [
      | inr differ ↦ differ
      | inl same ↦
          let e : code "t" ≡ code "i" = ap code (
            head-eq_of_cons-eq (
              sym (cons-append "t" "rip:lock:" trip_id)
              ∙ (eq_iff _ _).0 same
              ∙ cons-append "i" "dem:"
                  (trim_space namespace <> (":" <> trim_space (resolve_message_id digest msg))))) in
          absurd (omega (arith, e))
    ]

-- The key holds `v`, and the server answers.
pub record Holds (env : Deps) (key : String) (v : Option String) (w : World env) : Type 0 where
  pub held : env.kv.lookup w.redis key ≡ v
  pub up : env.kv.IsUp w.redis

module _ (env : Deps) (laws : DepsLaws env) (key : String) (v : Option String) where
  open laws use {kv_laws}

  Holds-on_trips :
      {A : Type 0} (m : Exec env.svc.State A) → Keeps (Holds env key v) (on_trips env m)
  Holds-on_trips m = record { after = λ w h. record { held = h.held; up = h.up } }

  Holds-on_broker :
      {A : Type 0} (m : Exec env.bus.State A) → Keeps (Holds env key v) (on_broker env m)
  Holds-on_broker m = record { after = λ w h. record { held = h.held; up = h.up } }

  module _ (trip_id driver_id : String)
      (apart : (trip_accept_lock_key trip_id == key) ≡ false) where
    Holds-acquire :
        Keeps
          (Holds env key v)
          (on_redis env (try_acquire_trip_accept_lock env client trip_id driver_id))
    unfolding try_acquire_trip_accept_lock
    Holds-acquire = record {
      after = λ w h. ground (
        arith,
        kv_laws.set_nx_keeps (trip_accept_lock_key trip_id) driver_id trip_accept_lock_ttl key
            w.redis,
        kv_laws.set_nx-IsUp (trip_accept_lock_key trip_id) driver_id trip_accept_lock_ttl w.redis,
      );
    }

    Holds-compare_and_delete :
        (r : Result String) (s : env.kv.State)
        → env.kv.lookup s key ≡ v
        → env.kv.IsUp s
        → let s' = (compare_and_delete env (trip_accept_lock_key trip_id) driver_id r s).1 in
          (env.kv.lookup s' key ≡ v) × env.kv.IsUp s'
    unfolding compare_and_delete
    Holds-compare_and_delete (ok x) s h up = ground (
      arith,
      kv_laws.del_keeps (trip_accept_lock_key trip_id) key s,
      kv_laws.del-IsUp (trip_accept_lock_key trip_id) s,
    )
    Holds-compare_and_delete (err nil_reply) s h up = (h, up)
    Holds-compare_and_delete (err e) s h up = (h, up)

    Holds-release :
        Keeps
          (Holds env key v)
          (on_redis env (release_trip_accept_lock env client trip_id driver_id))
    unfolding release_trip_accept_lock trip_accept_unlock_script
    Holds-release = record {
      after = λ w h.
          let k : String = trip_accept_lock_key trip_id in
          ground (
            arith,
            kv_laws.get_keeps k key w.redis,
            kv_laws.get-IsUp k w.redis,
            Holds-compare_and_delete (env.kv.get k w.redis).0 (env.kv.get k w.redis).1,
          );
    }

    Holds-accept_locked :
        (d : Option Driver) → Keeps (Holds env key v) (accept_locked env trip_id d)
    Holds-accept_locked d = record {
      after = λ w h.
          let same = (accept_locked-RedisIs env laws w.redis trip_id d).after w refl in
          record {
            held = ap (λ s. env.kv.lookup s key) same ∙ h.held;
            up = subst env.kv.IsUp (sym same) h.up;
          };
    }

  module _ (apart : (trip_id : String) → (trip_accept_lock_key trip_id == key) ≡ false) where
    Holds-accepted :
        (trip_id : String) (d : Option Driver)
        → Keeps (Holds env key v) (handle_trip_accepted env client trip_id d)
    unfolding handle_trip_accepted
    Holds-accepted trip_id d =
        Keeps-bind (on_redis env (try_acquire_trip_accept_lock env client trip_id (get_id d))) _
          (Holds-acquire trip_id (get_id d) (apart trip_id))
          (λ acquired. Keeps-if (not acquired) _ _ (Keeps-pure tt) (
            Keeps-defer (on_redis env (release_trip_accept_lock env client trip_id (get_id d)))
              (accept_locked env trip_id d)
              (Holds-accept_locked trip_id (get_id d) (apart trip_id) d)
              (Holds-release trip_id (get_id d) (apart trip_id))))

    Holds-offer_again :
        (rider_id : String) (t : TripModel) → Keeps (Holds env key v) (offer_again env rider_id t)
    unfolding offer_again
    Holds-offer_again rider_id t = search (keeps_rules, Holds-on_broker)

    Holds-decline_found :
        (rider_id : String) (o : Option TripModel)
        → Keeps (Holds env key v) (decline_found env rider_id o)
    unfolding decline_found
    Holds-decline_found rider_id none = search keeps_rules
    Holds-decline_found rider_id (some t) = Holds-offer_again rider_id t

    Holds-declined :
        (trip_id rider_id : String)
        → Keeps (Holds env key v) (handle_trip_declined env trip_id rider_id)
    unfolding handle_trip_declined
    Holds-declined trip_id rider_id = search (keeps_rules, Holds-on_trips, Holds-decline_found)

    -- Handling a message leaves its idempotency key alone.
    Holds-handle_message :
        (msg : Delivery) → Keeps (Holds env key v) (handle_message env client msg)
    unfolding handle_message dispatch
    Holds-handle_message msg = search (keeps_rules, Holds-accepted, Holds-declined)

module _ (env : Deps) (laws : DepsLaws env) (msg : Delivery) (w : World env)
    (up : env.kv.IsUp w.redis) where
  open laws use {kv_laws}

  abbrev pub idempotency_key : String
  idempotency_key = message_key env.digest consumer_namespace msg

  -- With Redis up, a message whose key says done returns no error, with no effect on trips or broker.
  pub duplicate_delivery_skipped :
      env.kv.lookup w.redis idempotency_key ≡ some idempotency_state_done
      → let r = handle_delivery env client msg w in
        (r.0 ≡ ok tt) × (r.1.trips ≡ w.trips) × (r.1.broker ≡ w.broker)
  unfolding handle_delivery consume_claimed
  duplicate_delivery_skipped done = ground (
    arith,
    claim-verdict env.kv kv_laws env.digest consumer_namespace msg
        driver_consumer_processed_message_ttl w.redis up refl (omega arith),
  )

  -- The handler after a fresh claim.
  consume_fresh :
      (v : World env)
      → Holds env idempotency_key (some idempotency_state_processing) v
      → let r =
          consume_claimed env client msg
            (record { key = idempotency_key; already_processed = false })
            v in
        (r.0 ≡ ok tt → env.kv.lookup r.1.redis idempotency_key ≡ some idempotency_state_done)
        × ((e : Error)
            → r.0 ≡ err e
            → env.kv.lookup r.1.redis idempotency_key
              ≡ (if is_panic e then some idempotency_state_processing else none))
  unfolding consume_claimed or_release mark_message_processed release_message_processing
  consume_fresh v h =
      let u : World env = (handle_message env client msg v).1 in
      let h' : Holds env idempotency_key (some idempotency_state_processing) u =
        (Holds-handle_message env laws idempotency_key (some idempotency_state_processing)
            (λ trip_id. lock_key-ne-message_key env.digest trip_id consumer_namespace msg)
            msg).after
          v h in
      let marked =
        kv_laws.up_set idempotency_key idempotency_state_done driver_consumer_processed_message_ttl
          u.redis h'.up in
      let done =
        kv_laws.set_done idempotency_key idempotency_state_done
          driver_consumer_processed_message_ttl idempotency_key u.redis in
      let released = kv_laws.up_del idempotency_key u.redis h'.up in
      let gone = kv_laws.del_done idempotency_key idempotency_key u.redis in
      let nonempty = keyed env.digest consumer_namespace msg in
      let self = eq_refl idempotency_key in (ground arith, λ e. ground arith)

  settled :
      env.kv.lookup w.redis idempotency_key ≡ none
      → let r = handle_delivery env client msg w in
        (r.0 ≡ ok tt → env.kv.lookup r.1.redis idempotency_key ≡ some idempotency_state_done)
        × ((e : Error)
            → r.0 ≡ err e
            → env.kv.lookup r.1.redis idempotency_key
              ≡ (if is_panic e then some idempotency_state_processing else none))
  unfolding handle_delivery
  settled fresh =
      let c =
        claim-verdict env.kv kv_laws env.digest consumer_namespace msg
          driver_consumer_processed_message_ttl w.redis up refl (omega arith) in
      let s : env.kv.State =
        (claim_message_for_processing env.kv env.digest client consumer_namespace msg
          driver_consumer_processed_message_ttl w.redis).1 in
      let sound =
        claim_sound env.kv kv_laws env.digest consumer_namespace msg
          driver_consumer_processed_message_ttl w.redis
          (record { key = idempotency_key; already_processed = false }) in
      let holds : Holds env idempotency_key (some idempotency_state_processing)
          (record w { redis = s }) =
        record {
          held = ground (arith);
          up =
              claim-IsUp env.kv kv_laws env.digest consumer_namespace msg
                driver_consumer_processed_message_ttl w.redis up;
        } in
      let rest = consume_fresh (record w { redis = s }) holds in
      (ground arith, λ e. ground (arith, rest.1 e))

  error-released :
      (e : Error) {v : Option String}
      → e ≢ panic
      → v ≡ (if is_panic e then some idempotency_state_processing else none)
      → v ≡ none
  error-released panic h q = absurd (h refl)
  error-released nil_reply h q = q
  error-released no_documents h q = q
  error-released duplicate_key h q = q
  error-released connection_not_found h q = q
  error-released (message m) h q = q
  error-released (external m) h q = q

  -- A first delivery, with Redis up, leaves the key saying done if the handler returns no error,
  -- absent, ready for the retry, if it returns one, and still saying processing if it panics.
  pub delivery_settles_key :
      env.kv.lookup w.redis idempotency_key ≡ none
      → let r = handle_delivery env client msg w in
        (r.0 ≡ ok tt → env.kv.lookup r.1.redis idempotency_key ≡ some idempotency_state_done)
        × ((e : Error) → e ≢ panic → r.0 ≡ err e → env.kv.lookup r.1.redis idempotency_key ≡ none)
        × (r.0 ≡ err panic
            → env.kv.lookup r.1.redis idempotency_key ≡ some idempotency_state_processing)
  delivery_settles_key fresh =
      let (done, failed) = settled fresh in
      (done, λ e other h. error-released e other (failed e h), λ h. failed panic h)
