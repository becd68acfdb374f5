-- ===== src/Drivers/Notify/Laws.antt =====
-- Whom a trip is offered to.
use mathlib.Core.List.{append-nil, append_assoc}
use mygo_microservices.Prelude.{
  ℕ, zero, suc, ◌+◌, ◌≤◌, String, ◌≡◌, ◌↔◌, ◌⊎◌, refl, sym, ◌∙◌, Bool, true, false, ltb, Option,
  none, some, List, [], ◌∷◌, ◌++◌, map, length, take, inl, inr, arith, Option-cases,
}
use mygo_microservices.Go.{Result, ok, err, Codec, Result-cases}
use mygo_microservices.Contracts.{AmqpMessage}
use mygo_microservices.Messaging.Publish.{Publisher, PublisherLaws}
use mygo_microservices.Drivers.Fleet.{Fleet}
use mygo_microservices.Drivers.Notify.{
  TripEventData, EventTrip, Consumer, max_fanout_candidates, extract_pickup_location, find_drivers,
  no_drivers, offer, publish_offers, check_count, notify, find_and_notify, fare_of,
  handle_find_and_notify_drivers,
}

abbrev pub Message : Type 0
Message = String × AmqpMessage

-- Some of the messages, in their order.
pub data IsSublist : List Message → List Message → Type 0 where
  done : IsSublist [] []
  keep : {x : Message} {xs ys : List Message} → IsSublist xs ys → IsSublist (x ∷ xs) (x ∷ ys)
  skip : {y : Message} {xs ys : List Message} → IsSublist xs ys → IsSublist xs (y ∷ ys)

length-IsSublist : {xs ys : List Message} → IsSublist xs ys → length xs ≤ length ys
length-IsSublist done = omega arith
length-IsSublist (keep s) = omega (arith, length-IsSublist s)
length-IsSublist (skip s) = omega (arith, length-IsSublist s)

-- What there is to send: that nobody was found, or the offers to the first two.
abbrev pub announcements : Result String → String → List String → List Message
announcements event user_id [] = no_drivers user_id ∷ []
announcements (ok event) user_id (d ∷ ds) = map (offer event) (take max_fanout_candidates (d ∷ ds))
announcements (err e) user_id (d ∷ ds) = []

abbrev pub is_ok : Result (Unit {0}) → Bool
is_ok (ok u) = true
is_ok (err e) = false

abbrev pub succeeded : Option (Result (Unit {0})) → Bool
succeeded none = false
succeeded (some r) = is_ok r

length-map-take :
    (event : String) (n : ℕ) (ds : List String) → length (map (offer event) (take n ds)) ≤ n
length-map-take event zero ds = omega arith
length-map-take event (suc n) [] = omega arith
length-map-take event (suc n) (d ∷ ds) = omega (arith, length-map-take event n ds)

module _ (bus : Publisher) (bus_laws : PublisherLaws bus) where
  open bus use {sent}

  -- What the loop over the candidates leaves behind.
  record Offered (event : String) (ds : List String) (n : ℕ) (s : bus.State) : Type 0 where
    messages : List Message
    sent_more : sent (publish_offers bus event ds n s).1 ≡ sent s ++ messages
    counted : (publish_offers bus event ds n s).0 ≡ ok (n + length messages)
    among : IsSublist messages (map (offer event) ds)

  offered : (event : String) (ds : List String) (n : ℕ) (s : bus.State) → Offered event ds n s
  unfolding publish_offers
  offered event [] n s = record {
    messages = [];
    sent_more = sym (append-nil (sent s));
    counted = ground arith;
    among = done;
  }
  offered event (d ∷ ds) n s =
      let m = offer event d in
      let (r, s') = bus.publish m.0 m.1 s in
      elim (Result-cases r) [
        | inl (u, p) ↦
            let rest = offered event ds (suc n) s' in
            record {
              messages = m ∷ rest.messages;
              sent_more = ground (
                arith,
                p,
                rest.sent_more,
                bus_laws.publish_ok m.0 m.1 s,
                append_assoc (sent s) (m ∷ []) rest.messages,
              );
              counted = ground (arith, p, rest.counted);
              among = keep rest.among;
            }
        | inr (e, p) ↦
            let rest = offered event ds n s' in
            record {
              messages = rest.messages;
              sent_more = ground (arith, p, rest.sent_more, bus_laws.publish_err m.0 m.1 s e p);
              counted = ground (arith, p, rest.counted);
              among = skip rest.among;
            }
      ]

  module _ (event_json : Codec TripEventData) (payload : TripEventData) (trip : EventTrip) where
    -- The messages that the second half of the handler sends.
    pub record Notified (ids : List String) (s : bus.State) : Type 0 where
      pub messages : List Message
      pub sent_more : sent (notify bus event_json payload trip ids s).1 ≡ sent s ++ messages
      pub among : IsSublist messages (announcements (event_json.encode payload) trip.user_id ids)
      pub few : length messages ≤ max_fanout_candidates
      pub answered : is_ok (notify bus event_json payload trip ids s).0 ≡ ltb 0 (length messages)

    offers-Notified :
        (d : String) (ds : List String) (s : bus.State) (r : Result String)
        → event_json.encode payload ≡ r
        → Notified (d ∷ ds) s
    unfolding notify check_count
    offers-Notified d ds s (err e) q = record {
      messages = [];
      sent_more = ground (arith, q, append-nil (sent s));
      among = rw q done;
      few = omega arith;
      answered = ground (arith, q);
    }
    offers-Notified d ds s (ok event) q =
        let o = offered event (take max_fanout_candidates (d ∷ ds)) 0 s in
        record {
          messages = o.messages;
          sent_more = ground (arith, q, o.sent_more, o.counted);
          among = rw q o.among;
          few = omega (
            arith,
            length-IsSublist o.among,
            length-map-take event max_fanout_candidates (d ∷ ds),
          );
          answered = ground (arith, q, o.counted);
        }

    notify-Notified : (ids : List String) (s : bus.State) → Notified ids s
    unfolding notify
    notify-Notified (d ∷ ds) s = offers-Notified d ds s (event_json.encode payload) refl
    notify-Notified [] s =
        let m = no_drivers trip.user_id in
        elim (Result-cases (bus.publish m.0 m.1 s).0) [
          | inl (u, p) ↦ record {
            messages = m ∷ [];
            sent_more = bus_laws.publish_ok m.0 m.1 s p;
            among = keep done;
            few = omega arith;
            answered = ground (arith, p);
          }
          | inr (e, p) ↦ record {
            messages = [];
            sent_more = bus_laws.publish_err m.0 m.1 s e p ∙ sym (append-nil (sent s));
            among = skip done;
            few = omega arith;
            answered = ground (arith, p);
          }
        ]

  module _ (fleet : Fleet) (event_json : Codec TripEventData) (amqp_json : Codec AmqpMessage) where
    abbrev pub handled :
        TripEventData
        → Consumer fleet bus event_json amqp_json
        → Option (Result (Unit {0})) × Consumer fleet bus event_json amqp_json
    handled = handle_find_and_notify_drivers fleet bus event_json amqp_json

    -- Whatever fails, one event leads to two messages at most, and the handler reports success
    -- exactly where it sent one at least: after an error or a panic nothing was sent, so a retry repeats
    -- nothing.
    pub handle_find_and_notify_drivers-sent :
        (payload : TripEventData) (w : Consumer fleet bus event_json amqp_json)
        → (messages : List Message) × (sent (handled payload w).1.rabbit
            ≡ sent w.rabbit ++ messages)
          × (length messages ≤ max_fanout_candidates)
          × (succeeded (handled payload w).0 ≡ ltb 0 (length messages))
    unfolding handle_find_and_notify_drivers find_and_notify
    handle_find_and_notify_drivers-sent payload w = elim (Option-cases (fare_of payload)) [
      | inl e ↦ ([], ground (arith, e, append-nil (sent w.rabbit)), omega arith, ground (arith, e))
      | inr ((t, f), e) ↦
          let (r, s) =
            find_drivers fleet (extract_pickup_location payload) f.package_slug w.redis in
          elim (Result-cases r) [
            | inr (x, p) ↦ (
              [],
              ground (arith, e, p, append-nil (sent w.rabbit)),
              omega arith,
              ground (arith, e, p),
            )
            | inl (ids, p) ↦
                let n = notify-Notified event_json payload t ids w.rabbit in
                (
                  n.messages,
                  ground (arith, e, p, n.sent_more),
                  n.few,
                  ground (arith, e, p, n.answered),
                )
          ]
    ]

    -- The handler panics exactly where the event has no trip, or has one without a fare.
    pub handle_find_and_notify_drivers-panic :
        (payload : TripEventData) (w : Consumer fleet bus event_json amqp_json)
        → ((handled payload w).0 ≡ none) ↔ (
            (payload.trip ≡ none)
            ⊎ ((t : EventTrip) × (payload.trip ≡ some t) × (t.selected_fare ≡ none)))
    unfolding handle_find_and_notify_drivers
    handle_find_and_notify_drivers-panic payload w = elim (Option-cases payload.trip) [
      | inl no_trip ↦ (λ h. inl no_trip, λ e. ground (arith, no_trip))
      | inr (t, there) ↦ elim (Option-cases t.selected_fare) [
        | inl no_fare ↦ (λ h. inr (t, there, no_fare), λ e. ground (arith, there, no_fare))
        | inr (f, fare) ↦ (
          λ h. absurd (ground (arith, there, fare, h)),
          λ e. elim e [
            | inl gone ↦ absurd (ground (arith, there, gone))
            | inr (u, same, none_left) ↦ absurd (ground (arith, there, fare, same, none_left))
          ],
        )
      ]
    ]
