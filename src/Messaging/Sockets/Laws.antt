-- ===== src/Messaging/Sockets/Laws.antt =====
-- A delivery is settled once, after few attempts.
use mygo_microservices.Prelude.{
  ℕ, zero, suc, ◌+◌, ◌≤◌, String, ◌≡◌, refl, Option, none, some, inl, inr, arith, Option-cases,
}
use mygo_microservices.Go.{Result, ok, err}
use mygo_microservices.Contracts.{WsMessage}
use mygo_microservices.Messaging.Sockets.{
  Sockets, Incoming, Delivery, qc_send_retries, Outcome, unreadable, written, panicked, dropped,
  Gateway, send_message, ack, after_send, send_retrying, with_payload, payload_of, with_body,
  handle_delivery,
}

-- The attempts that were made to send.
abbrev pub attempts : Outcome → ℕ
attempts unreadable = 0
attempts (written n) = n
attempts (panicked n) = n
attempts (dropped n) = n

module _ (ws : Sockets) (decode : String → Result Incoming) (json_value : String → Result String)
    (meanwhile : ℕ → Gateway ws decode json_value → Gateway ws decode json_value) where
  abbrev pub World : Type 0
  World = Gateway ws decode json_value

  module _ (id : String) (m : WsMessage) where
    send_message-acks : (w : World) → (send_message ws decode json_value id m w).1.acks ≡ w.acks
    unfolding send_message
    send_message-acks w = elim (Option-cases (w.connections id)) [
      | inl e ↦ ground (arith, e)
      | inr (c, e) ↦ ground (arith, e)
    ]

  -- Whatever is done meanwhile, nobody else acknowledges this delivery.
  module _ (alone : (n : ℕ) (w : World) → (meanwhile n w).acks ≡ w.acks) where
    record Settled (start left : ℕ) (w : World) (o : Outcome × World) : Type 0 where
      acked : o.1.acks ≡ suc w.acks
      bounded : attempts o.0 ≤ start + left

    after_send-Settled :
        (start left : ℕ) (w w' : World) (r : Option (Result (Unit {0}))) (rest : Outcome × World)
        → w'.acks ≡ w.acks
        → Settled start left w rest
        → Settled start left w (after_send ws decode json_value meanwhile start r w' rest)
    unfolding after_send
    after_send-Settled start left w w' none rest e s = record {
      acked = ground (arith, e);
      bounded = omega arith;
    }
    after_send-Settled start left w w' (some (ok u)) rest e s = record {
      acked = ground (arith, e);
      bounded = omega arith;
    }
    after_send-Settled start left w w' (some (err x)) rest e s = s

    retrying-Settled :
        (left start : ℕ) (id : String) (m : WsMessage) (w : World)
        → Settled start left w (send_retrying ws decode json_value meanwhile left start id m w)
    unfolding send_retrying
    retrying-Settled zero start id m w =
        let (r, w') = send_message ws decode json_value id m w in
        let e = send_message-acks id m w in
        after_send-Settled start 0 w w' r (dropped start, ack ws decode json_value w') e
          (record { acked = ground (arith, e); bounded = omega arith })
    retrying-Settled (suc left) start id m w =
        let (r, w') = send_message ws decode json_value id m w in
        let e = send_message-acks id m w in
        let w'' = meanwhile start w' in
        let rest = retrying-Settled left (suc start) id m w'' in
        after_send-Settled start (suc left) w w' r
          (send_retrying ws decode json_value meanwhile left (suc start) id m w'') e
          (record {
            acked = ground (arith, e, rest.acked, alone start w');
            bounded = omega (arith, rest.bounded);
          })

    payload-Settled :
        (key id : String) (p : Result (Option String)) (w : World)
        → Settled 1 qc_send_retries w (with_payload ws decode json_value meanwhile key id p w)
    unfolding with_payload
    payload-Settled key id (err e) w = record { acked = refl; bounded = omega arith }
    payload-Settled key id (ok c) w =
        retrying-Settled qc_send_retries 1 id (record { kind = key; content = c }) w

    body-Settled :
        (key : String) (b : Result Incoming) (w : World)
        → Settled 1 qc_send_retries w (with_body ws decode json_value meanwhile key b w)
    unfolding with_body
    body-Settled key (err e) w = record { acked = refl; bounded = omega arith }
    body-Settled key (ok b) w = payload-Settled key b.owner_id (payload_of json_value b.content) w

    -- Whatever the message holds, whether the user is connected or not, and also where a send panics,
    -- a delivery is acknowledged exactly once, and sending it is tried three times at most.
    pub handle_delivery-once :
        (d : Delivery) (w : World)
        → let (o, w') = handle_delivery ws decode json_value meanwhile d w in
          (w'.acks ≡ suc w.acks) × (attempts o ≤ 3)
    unfolding handle_delivery
    handle_delivery-once d w =
        let s = body-Settled d.routing_key (decode d.body) w in (s.acked, s.bounded)

  -- A user who is not connected when the message comes, but is after the first wait, still gets it: a
  -- message that can be read and written to the new connection is written at the second attempt.
  pub handle_delivery-late :
      (d : Delivery) (w : World) (b : Incoming) (content : Option String) (c : ws.Conn)
      → decode d.body ≡ ok b
      → payload_of json_value b.content ≡ ok content
      → w.connections b.owner_id ≡ none
      → (meanwhile 1 w).connections b.owner_id ≡ some c
      → (ws.write_json c
          (record { kind = d.routing_key; content = content })
          (meanwhile 1 w).sockets).0
        ≡ some (ok tt)
      → let (o, w') = handle_delivery ws decode json_value meanwhile d w in
        (o ≡ written 2)
        × (w'.sockets
            ≡ (ws.write_json c
                (record { kind = d.routing_key; content = content })
                (meanwhile 1 w).sockets).1)
  unfolding handle_delivery with_body with_payload send_retrying after_send send_message
  handle_delivery-late d w b content c e p absent present sent =
      (ground (arith, e, p, absent, present, sent), ground (arith, e, p, absent, present, sent))
