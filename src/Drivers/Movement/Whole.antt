-- ===== src/Drivers/Movement/Whole.antt =====
-- Whole calls: where no two calls overlap, each driver on the map has one running task.
use mygo_microservices.Prelude.{
  ℕ, String, ◌≡◌, refl, Bool, true, false, Option, none, some, inl, inr, arith, eq_iff, eq_refl,
  ◌||◌, ◌=ℕ=◌, Option-cases, is_some, is_empty, length, if◌then◌else◌,
}
use mygo_microservices.Drivers.Routes.{Route}
use mygo_microservices.Drivers.Movement.{
  Phase, absent, waiting, finished, running, Movements, lock_start, cancel, spawn, quit, IsDone,
  lock_stop, leave, settle, start_driver_movement, stop_driver_movement, started, cancelling,
  spawned, quitted, stopping, left, Reachable, after,
}
use mygo_microservices.Drivers.Movement.Laws.{
  is_live, IsSound, Reachable-IsSound, Reachable-one_task,
}

abbrev pub is_running : Phase → Bool
is_running absent = false
is_running waiting = false
is_running (running i) = true
is_running finished = false

-- No call is under way: each entry of the map runs, and nobody waits.
pub record IsResting (m : Movements) : Type 0 where
  pub runs : (d : String) (k : ℕ) → m.current d ≡ some k → is_running (m.task k).phase ≡ true
  pub quiet : (n : ℕ) → (m.task n).awaited ≡ false

running_at : (p : Phase) → is_running p ≡ true → (i : ℕ) × (p ≡ running i)
running_at absent h = absurd (ground (arith, h))
running_at waiting h = absurd (ground (arith, h))
running_at (running i) h = (i, refl)
running_at finished h = absurd (ground (arith, h))

IsDone-none : (m : Movements) (o : Option ℕ) → o ≡ none → IsDone m o
IsDone-none m none e = tt
IsDone-none m (some k) e = absurd (ground (arith, e))

IsDone-some :
    (m : Movements) (o : Option ℕ) (k : ℕ) → o ≡ some k → (m.task k).phase ≡ finished → IsDone m o
IsDone-some m none k e h = tt
IsDone-some m (some j) k e h = ground (arith, e, h)

module _ (m : Movements) (r : Reachable m) (rest : IsResting m) where
  sound : IsSound m
  sound = Reachable-IsSound m r

  module _ (d p : String) (route : Route) where
    -- The first task of a driver
    start_new :
        m.current d ≡ none
        → Reachable (spawn m.count (lock_start d p route m))
          × IsResting (spawn m.count (lock_start d p route m))
    unfolding spawn lock_start
    start_new e = (
      after (after r (started d p route)) (
          spawned m.count (ground arith) (
            IsDone-none (lock_start d p route m) ((lock_start d p route m).task m.count).previous
              (ground (arith, e)))),
      record {
        runs = λ f k. ground (arith, rest.runs f k, eq_iff d f, e);
        quiet = λ n. ground (arith, rest.quiet n, e);
      },
    )

    start_again :
        (k : ℕ)
        → m.current d ≡ some k
        → Reachable (spawn m.count (quit k (cancel k (lock_start d p route m))))
          × IsResting (spawn m.count (quit k (cancel k (lock_start d p route m))))
    unfolding spawn lock_start quit cancel
    start_again k e =
        let (i, run) = running_at (m.task k).phase (rest.runs d k e) in
        let known = sound.entry d k e in
        (
          after
              (after (after (after r (started d p route)) (cancelling k (ground (arith, e, known))))
                (quitted k i (ground (arith, run, known)) (ground (arith, known))))
              (spawned m.count (ground (arith, known)) (
                IsDone-some (quit k (cancel k (lock_start d p route m)))
                  ((quit k (cancel k (lock_start d p route m))).task m.count).previous k
                  (ground (arith, known, e)) (ground (arith, known)))),
          record {
            runs = λ f j. ground (arith, rest.runs f j, eq_iff d f, e, known, sound.entry f j);
            quiet = λ n. ground (arith, rest.quiet n, e, known);
          },
        )

    start-Kept :
        (b : Bool) (o : Option ℕ)
        → m.current d ≡ o
        → Reachable (if b then m else spawn m.count (settle o (lock_start d p route m)))
          × IsResting (if b then m else spawn m.count (settle o (lock_start d p route m)))
    unfolding settle
    start-Kept true o e = (r, rest)
    start-Kept false none e = start_new e
    start-Kept false (some k) e = start_again k e

    -- Where no call is under way, a whole `startDriverMovement` is a sequence of possible steps, and
    -- again every task on the map runs and nobody waits.
    pub start_driver_movement-Reachable :
        Reachable (start_driver_movement d p route m)
        × IsResting (start_driver_movement d p route m)
    unfolding start_driver_movement
    start_driver_movement-Reachable =
        start-Kept (is_empty d || is_empty p || (length route =ℕ= 0)) (m.current d) refl

  module _ (d : String) where
    stop_none : m.current d ≡ none → Reachable (lock_stop d m) × IsResting (lock_stop d m)
    unfolding lock_stop
    stop_none e = (
      after r (stopping d),
      record {
        runs = λ f k. ground (arith, rest.runs f k, eq_iff d f, e);
        quiet = λ n. ground (arith, rest.quiet n, e);
      },
    )

    stop_some :
        (k : ℕ)
        → m.current d ≡ some k
        → Reachable (leave k (quit k (cancel k (lock_stop d m))))
          × IsResting (leave k (quit k (cancel k (lock_stop d m))))
    unfolding lock_stop quit cancel leave
    stop_some k e =
        let (i, run) = running_at (m.task k).phase (rest.runs d k e) in
        let known = sound.entry d k e in
        (
          after
              (after (after (after r (stopping d)) (cancelling k (ground (arith, e))))
                (quitted k i (ground (arith, run, e)) (ground (arith, e))))
              (left k (ground (arith, e)) (ground (arith, e))),
          record {
            runs = λ f j. ground (arith, rest.runs f j, eq_iff d f, e, known, sound.entry f j);
            quiet = λ n. ground (arith, rest.quiet n, e);
          },
        )

    run_none :
        is_empty d ≡ false → m.current d ≡ none → stop_driver_movement d m ≡ (false, lock_stop d m)
    unfolding stop_driver_movement
    run_none named e = ground (arith, named, e)

    run_some :
        (k : ℕ)
        → is_empty d ≡ false
        → m.current d ≡ some k
        → stop_driver_movement d m ≡ (true, leave k (quit k (cancel k (lock_stop d m))))
    unfolding stop_driver_movement settle
    run_some k named e = ground (arith, named, e)

    gone : (k : ℕ) → (leave k (quit k (cancel k (lock_stop d m)))).current d ≡ none
    unfolding leave quit cancel lock_stop
    gone k = ground (arith, eq_refl d)

    gone_none : (lock_stop d m).current d ≡ none
    unfolding lock_stop
    gone_none = ground (arith, eq_refl d)

    Stopped : Bool × Movements → Type 0
    Stopped (b, m') =
        (b ≡ is_some (m.current d))
        × Reachable m'
        × IsResting m'
        × ((n : ℕ) → (m'.task n).driver_id ≡ d → is_live (m'.task n).phase ≡ false)

    stopped :
        (b : Bool) (m' : Movements)
        → b ≡ is_some (m.current d)
        → Reachable m' × IsResting m'
        → m'.current d ≡ none
        → Stopped (b, m')
    unfolding Stopped
    stopped b m' e (r', rest') g =
        (e, r', rest', λ n dn. (Reachable-one_task m' d r' (λ k dk. rest'.quiet k)).1 n g dn)

    -- Where no call is under way, a whole `stopDriverMovement` of a named driver is a sequence of
    -- possible steps and tells whether the driver had a task; after it every task on the map runs,
    -- nobody waits, and no goroutine of the driver may write any more.
    pub stop_driver_movement-Reachable :
        is_empty d ≡ false
        → let (b, m') = stop_driver_movement d m in
          (b ≡ is_some (m.current d))
          × Reachable m'
          × IsResting m'
          × ((n : ℕ) → (m'.task n).driver_id ≡ d → is_live (m'.task n).phase ≡ false)
    unfolding Stopped
    stop_driver_movement-Reachable named = elim (Option-cases (m.current d)) [
      | inl e ↦
          rw (run_none named e)
            (stopped false (lock_stop d m) (ground (arith, e)) (stop_none e) gone_none)
      | inr (k, e) ↦ rw (run_some k named e) (
          stopped true (leave k (quit k (cancel k (lock_stop d m)))) (ground (arith, e))
            (stop_some k e) (gone k))
    ]
