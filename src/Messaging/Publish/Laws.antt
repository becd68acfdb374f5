-- ===== src/Messaging/Publish/Laws.antt =====
-- `PublishMessage` fills the interface that the services publish through.
use mygo_microservices.Prelude.{String, ◌≡◌, refl, ap, ◌∙◌, true, List, [], ◌∷◌, ◌++◌, arith}
use mygo_microservices.Go.{Error, Result, ok, err, Codec, CodecLaws, Encodes}
use mygo_microservices.Contracts.{AmqpMessage}
use mygo_microservices.Messaging.Publish.{
  Published, Bus, BusLaws, trip_exchange, publish_json, publish_message, is_sent, sent_of,
  PublisherLaws, rabbit_publisher, new_persistent_json_message,
}

sent_of-append :
    (amqp : Codec AmqpMessage) (ps : List Published) (p : Published) (m : AmqpMessage)
    → is_sent p ≡ true
    → amqp.decode p.publishing.body ≡ ok m
    → sent_of amqp (ps ++ p ∷ []) ≡ sent_of amqp ps ++ (p.routing_key, m) ∷ []
unfolding sent_of
sent_of-append amqp [] p m h e = ground (arith, h, e)
sent_of-append amqp (q ∷ ps) p m h e = ground (arith, sent_of-append amqp ps p m h e)

module _ (bus : Bus) (laws : BusLaws bus) (amqp : Codec AmqpMessage) (json : CodecLaws amqp) where
  open bus use {State}

  publish_ok :
      (k : String) (m : AmqpMessage) (r : Result String) (s : State)
      → amqp.encode m ≡ r
      → (publish_json bus amqp r k s).0 ≡ ok tt
      → sent_of amqp (bus.published (publish_json bus amqp r k s).1)
        ≡ sent_of amqp (bus.published s) ++ (k, m) ∷ []
  unfolding publish_json
  publish_ok k m (ok body) s e h =
      ap (sent_of amqp)
        (laws.publish_done trip_exchange k (new_persistent_json_message (bus.new_uuid s) body) s h)
      ∙ sent_of-append amqp (bus.published s) _ m (ground (arith, laws.uuid_named s))
          (json.decode-encode m body e)
  publish_ok k m (err x) s e h = cc

  publish_err :
      (k : String) (r : Result String) (s : State) (x : Error)
      → (publish_json bus amqp r k s).0 ≡ err x
      → bus.published (publish_json bus amqp r k s).1 ≡ bus.published s
  unfolding publish_json
  publish_err k (ok body) s x h = laws.publish_failed trip_exchange k _ s x h
  publish_err k (err y) s x h = refl

  -- Over a channel that keeps its contract, and where every message can be encoded, a
  -- `PublishMessage` that returns no error has sent exactly the given message, once: as persistent JSON, to the
  -- exchange "trip", with an identifier that is not empty. One that returns an error has sent
  -- nothing, and while the channel is up none is returned.
  pub rabbit_publisher-PublisherLaws : Encodes amqp → PublisherLaws (rabbit_publisher bus amqp)
  unfolding publish_message publish_json
  rabbit_publisher-PublisherLaws total = record {
    publish_ok = λ k m s h. publish_ok k m (amqp.encode m) s refl h;
    publish_err = λ k m s x h. ap (sent_of amqp) (publish_err k (amqp.encode m) s x h);
    up_publish_ok = λ k m s up. ground (
      arith,
      total.encode-text m,
      laws.up_publish trip_exchange k (new_persistent_json_message (bus.new_uuid s) (total.text m))
          s up,
    );
    up_publish = λ k m s up. ground (
      arith,
      total.encode-text m,
      laws.publish-IsUp trip_exchange k
          (new_persistent_json_message (bus.new_uuid s) (total.text m)) s up,
    );
  }
