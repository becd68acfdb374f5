-- ===== src/Messaging/Topology/Laws.antt =====
-- What is declared, and that it stays so.
use mygo_microservices.Prelude.{
  String, ◌<>◌, ◌≡◌, sym, subst, ◌∙◌, true, Option, some, List, [], ◌∷◌, inl, inr, arith, All,
}
use mygo_microservices.Go.{Result, ok, err, Exec, attempt, ◌>>◌, Result-cases}
use mygo_microservices.Go.Frame.{Keeps, Keeps-attempt, Keeps-bind, keeps_rules}
use mygo_microservices.Messaging.Publish.{trip_exchange}
use mygo_microservices.Messaging.Topology.{
  Channel, ChannelLaws, dead_letter_exchange, queues, or_report, reporting,
  setup_dead_letter_exchange, bind_keys, declare_and_bind_queue, declare_queues,
  setup_exchanges_and_queues,
}

-- What the services publish, and the queue that each consumer reads it from.
abbrev pub routes : List (String × String)
routes =
    ("trip.event.created", "find_available_drivers")
    ∷ ("trip.event.driver_not_interested", "find_available_drivers")
    ∷ ("driver.cmd.trip_request", "driver_cmd_trip_request")
    ∷ ("driver.cmd.trip_accept", "driver_trip_response")
    ∷ ("driver.cmd.trip_decline", "driver_trip_response")
    ∷ ("trip.event.no_drivers_found", "notify_driver_no_drivers_found")
    ∷ ("trip.event.driver_assigned", "notify_driver_assign")
    ∷ ("payment.cmd.create_session", "payment_trip_response")
    ∷ ("payment.event.session_created", "notify_payment_session_created")
    ∷ ("payment.event.success", "payment_success")
    ∷ []

module _ (ch : Channel) (laws : ChannelLaws ch) where
  open ch use {State, bound, dead_letters}

  module _ (P : State → Type 0) where
    report-Keeps : (t : String) (r : Result (Unit {0})) → Keeps P (or_report ch t r)
    unfolding or_report
    report-Keeps t (ok u) = search keeps_rules
    report-Keeps t (err e) = search keeps_rules

    reporting-Keeps :
        (t : String) (m : Exec State (Unit {0})) → Keeps P m → Keeps P (reporting ch t m)
    unfolding reporting
    reporting-Keeps t m k =
        Keeps-bind (attempt m) (or_report ch t) (Keeps-attempt m k) (report-Keeps t)

    module _ (bind_k : (q k x : String) → Keeps P (ch.queue_bind q k x))
        (queue_k : (q : String) (o : Option String) → Keeps P (ch.queue_declare q o)) where
      bind_keys-Keeps : (q : String) (ks : List String) (x : String) → Keeps P (bind_keys ch q ks x)
      unfolding bind_keys
      bind_keys-Keeps q [] x = search keeps_rules
      bind_keys-Keeps q (k ∷ ks) x =
          let t = "failed to bind queue to " <> q in
          Keeps-bind (reporting ch t (ch.queue_bind q k x)) (λ u. bind_keys ch q ks x)
            (reporting-Keeps t (ch.queue_bind q k x) (bind_k q k x)) (λ u. bind_keys-Keeps q ks x)

      declare-Keeps : (rows : List (String × List String)) → Keeps P (declare_queues ch rows)
      unfolding declare_queues declare_and_bind_queue
      declare-Keeps [] = search keeps_rules
      declare-Keeps ((q, ks) ∷ rows) =
          Keeps-bind (declare_and_bind_queue ch q ks trip_exchange) (λ u. declare_queues ch rows)
            (Keeps-bind (ch.queue_declare q (some dead_letter_exchange))
              (λ u. bind_keys ch q ks trip_exchange) (queue_k q (some dead_letter_exchange))
              (λ u. bind_keys-Keeps q ks trip_exchange))
            (λ u. declare-Keeps rows)

  IsBound : String → String → State → Type 0
  IsBound k q s = bound s trip_exchange k q ≡ true

  HasDeadLetters : String → State → Type 0
  HasDeadLetters q s = dead_letters s q ≡ some dead_letter_exchange

  module _ (k q : String) where
    bind-IsBound : (p j x : String) → Keeps (IsBound k q) (ch.queue_bind p j x)
    unfolding IsBound
    bind-IsBound p j x = record { after = λ s. laws.queue_bind_bound p j x q k trip_exchange s }

    queue-IsBound : (p : String) (o : Option String) → Keeps (IsBound k q) (ch.queue_declare p o)
    unfolding IsBound
    queue-IsBound p o = record { after = λ s. laws.queue_declare_bound p trip_exchange k q o s }

  module _ (q : String) where
    bind-HasDeadLetters : (p j x : String) → Keeps (HasDeadLetters q) (ch.queue_bind p j x)
    unfolding HasDeadLetters
    bind-HasDeadLetters p j x = record {
      after = λ s. laws.queue_bind_keeps p j x q dead_letter_exchange s;
    }

    queue-HasDeadLetters :
        (p : String) (o : Option String) → Keeps (HasDeadLetters q) (ch.queue_declare p o)
    unfolding HasDeadLetters
    queue-HasDeadLetters p o = record {
      after = λ s. laws.queue_declare_keeps p q dead_letter_exchange o s;
    }

  -- A step that reports its error answers where the step itself does.
  reporting_done :
      (t : String) (m : Exec State (Unit {0})) (s : State)
      → (reporting ch t m s).0 ≡ ok tt
      → ((m s).0 ≡ ok tt) × ((reporting ch t m s).1 ≡ (m s).1)
  unfolding reporting or_report
  reporting_done t m s h = elim (Result-cases (m s).0) [
    | inl (u, p) ↦ (ground (arith, p), ground (arith, p))
    | inr (e, p) ↦ absurd (ground (arith, p, h))
  ]

  then_done :
      (m n : Exec State (Unit {0})) (s : State)
      → ((m >> n) s).0 ≡ ok tt
      → ((m s).0 ≡ ok tt) × ((n (m s).1).0 ≡ ok tt) × (((m >> n) s).1 ≡ (n (m s).1).1)
  then_done m n s h = elim (Result-cases (m s).0) [
    | inl (u, p) ↦ (ground (arith, p), ground (arith, p, h), ground (arith, p))
    | inr (e, p) ↦ absurd (ground (arith, p, h))
  ]

  bind_keys_done :
      (q : String) (ks : List String) (s : State)
      → (bind_keys ch q ks trip_exchange s).0 ≡ ok tt
      → All (λ k. IsBound k q (bind_keys ch q ks trip_exchange s).1) ks
  unfolding bind_keys IsBound
  bind_keys_done q [] s h = tt
  bind_keys_done q (k ∷ ks) s h =
      let step = reporting ch ("failed to bind queue to " <> q) (ch.queue_bind q k trip_exchange) in
      let rest = bind_keys ch q ks trip_exchange in
      let (a, b, c) = then_done step rest s h in
      let (a', st) =
        reporting_done ("failed to bind queue to " <> q) (ch.queue_bind q k trip_exchange) s a in
      let now = subst (IsBound k q) (sym st) (laws.queue_bind_done q k trip_exchange s a') in
      let kept =
        (bind_keys-Keeps (IsBound k q) (bind-IsBound k q) (queue-IsBound k q) q ks
            trip_exchange).after
          (step s).1 now in
      subst (λ z. All (λ j. IsBound j q z) (k ∷ ks)) (sym c)
        (kept, bind_keys_done q ks (step s).1 b)

  -- Messages of the routing key reach the queue, and go to "dlx" once they are rejected.
  pub record IsRouted (route : String × String) (s : State) : Type 0 where
    pub routed : bound s "trip" route.0 route.1 ≡ true
    pub dead_lettered : dead_letters s route.1 ≡ some "dlx"

  -- A row of the table is declared.
  pub record IsDeclared (row : String × List String) (s : State) : Type 0 where
    pub keys_bound : All (λ k. bound s trip_exchange k row.0 ≡ true) row.1
    pub dead_lettered : dead_letters s row.0 ≡ some dead_letter_exchange

  declare_done :
      (q : String) (ks : List String) (s : State)
      → (declare_and_bind_queue ch q ks trip_exchange s).0 ≡ ok tt
      → IsDeclared (q, ks) (declare_and_bind_queue ch q ks trip_exchange s).1
  unfolding declare_and_bind_queue IsBound HasDeadLetters
  declare_done q ks s h =
      let step = ch.queue_declare q (some dead_letter_exchange) in
      let rest = bind_keys ch q ks trip_exchange in
      let (a, b, c) = then_done step rest s h in
      let now = laws.queue_declare_done q dead_letter_exchange s a in
      let kept =
        (bind_keys-Keeps (HasDeadLetters q) (bind-HasDeadLetters q) (queue-HasDeadLetters q) q ks
            trip_exchange).after
          (step s).1 now in
      subst (IsDeclared (q, ks)) (sym c)
        (record { keys_bound = bind_keys_done q ks (step s).1 b; dead_lettered = kept })

  keys-kept :
      (q : String) (ks : List String) (rows : List (String × List String)) (s : State)
      → All (λ k. bound s trip_exchange k q ≡ true) ks
      → All (λ k. bound (declare_queues ch rows s).1 trip_exchange k q ≡ true) ks
  unfolding IsBound
  keys-kept q [] rows s h = tt
  keys-kept q (k ∷ ks) rows s h = (
    (declare-Keeps (IsBound k q) (bind-IsBound k q) (queue-IsBound k q) rows).after s h.0,
    keys-kept q ks rows s h.1,
  )

  row-kept :
      (row : String × List String) (rows : List (String × List String)) (s : State)
      → IsDeclared row s
      → IsDeclared row (declare_queues ch rows s).1
  unfolding HasDeadLetters
  row-kept (q, ks) rows s d = record {
    keys_bound = keys-kept q ks rows s d.keys_bound;
    dead_lettered =
        (declare-Keeps (HasDeadLetters q) (bind-HasDeadLetters q) (queue-HasDeadLetters q)
            rows).after
          s d.dead_lettered;
  }

  declare_queues_done :
      (rows : List (String × List String)) (s : State)
      → (declare_queues ch rows s).0 ≡ ok tt
      → All (λ row. IsDeclared row (declare_queues ch rows s).1) rows
  unfolding declare_queues
  declare_queues_done [] s h = tt
  declare_queues_done ((q, ks) ∷ rows) s h =
      let step = declare_and_bind_queue ch q ks trip_exchange in
      let (a, b, c) = then_done step (declare_queues ch rows) s h in
      subst (λ z. All (λ row. IsDeclared row z) ((q, ks) ∷ rows)) (sym c)
        (
          row-kept (q, ks) rows (step s).1 (declare_done q ks s a),
          declare_queues_done rows (step s).1 b,
        )

  of_row :
      {k q : String} {s : State}
      → bound s trip_exchange k q ≡ true
      → dead_letters s q ≡ some dead_letter_exchange
      → IsRouted (k, q) s
  of_row b d = record { routed = b; dead_lettered = d }

  declared :
      (s : State)
      → (setup_exchanges_and_queues ch s).0 ≡ ok tt
      → All (λ row. IsDeclared row (setup_exchanges_and_queues ch s).1) queues
  unfolding setup_exchanges_and_queues
  declared s h =
      let first = setup_dead_letter_exchange ch in
      let second =
        reporting ch "failed to declare exchange: trip" (ch.exchange_declare trip_exchange) in
      let third = declare_queues ch queues in
      let (a, b, c) = then_done first (second >> third) s h in
      let (d, e, f) = then_done second third (first s).1 b in
      subst (λ z. All (λ row. IsDeclared row z) queues) (sym (c ∙ f))
        (declare_queues_done queues (second (first s).1).1 e)

  -- Where the set-up of a connection reports no error, each of the ten routing keys that a service
  -- publishes is bound, on the exchange "trip", to the queue that its consumer reads, and that queue
  -- hands its rejected messages to the exchange "dlx".
  pub setup_exchanges_and_queues-IsDeclared :
      (s : State)
      → (setup_exchanges_and_queues ch s).0 ≡ ok tt
      → All (λ route. IsRouted route (setup_exchanges_and_queues ch s).1) routes
  setup_exchanges_and_queues-IsDeclared s h =
      let (a, r1) = declared s h in
      let (b, r2) = r1 in
      let (c, r3) = r2 in
      let (d, r4) = r3 in
      let (e, r5) = r4 in
      let (f, r6) = r5 in
      let (g, r7) = r6 in
      let i = r7.0 in
      (
        of_row a.keys_bound.0 a.dead_lettered,
        (
          of_row a.keys_bound.1.0 a.dead_lettered,
          (
            of_row b.keys_bound.0 b.dead_lettered,
            (
              of_row c.keys_bound.0 c.dead_lettered,
              (
                of_row c.keys_bound.1.0 c.dead_lettered,
                (
                  of_row d.keys_bound.0 d.dead_lettered,
                  (
                    of_row e.keys_bound.0 e.dead_lettered,
                    (
                      of_row f.keys_bound.0 f.dead_lettered,
                      (
                        of_row g.keys_bound.0 g.dead_lettered,
                        (of_row i.keys_bound.0 i.dead_lettered, tt),
                      ),
                    ),
                  ),
                ),
              ),
            ),
          ),
        ),
      )
