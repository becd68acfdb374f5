-- ===== src/Drivers/Movement/Laws.antt =====
-- No task is forgotten: what runs is on the map, or somebody is waiting for its end.
use mygo_microservices.Prelude.{
  ℕ, ◌<◌, String, ◌≡◌, ◌⊎◌, Bool, true, false, Option, none, some, inl, inr, arith, eq_iff, eq_refl,
  Option-cases,
}
use mygo_microservices.Drivers.Routes.{Route}
use mygo_microservices.Drivers.Movement.{
  Phase, absent, waiting, finished, running, Movements, no_movements, lock_start, cancel, spawn,
  quit, tick, lock_stop, leave, IsDone, Step, started, cancelling, spawned, ticked, quitted,
  stopping, left, Reachable, fresh, after,
}

-- A goroutine that may still write.
abbrev pub is_live : Phase → Bool
is_live absent = false
is_live waiting = true
is_live (running i) = true
is_live finished = false

pub record IsSound (m : Movements) : Type 0 where
  pub known : (n : ℕ) → is_live (m.task n).phase ≡ true → n < m.count
  pub owned :
      (n : ℕ)
      → is_live (m.task n).phase ≡ true
      → (m.current (m.task n).driver_id ≡ some n) ⊎ ((m.task n).awaited ≡ true)
  pub entry :
      (d : String) (n : ℕ) → m.current d ≡ some n → (n < m.count) × ((m.task n).driver_id ≡ d)

fresh-IsSound : IsSound no_movements
fresh-IsSound = record {
  known = λ n. ground arith;
  owned = λ n. ground arith;
  entry = λ d n. ground arith;
}

module _ (m : Movements) (s : IsSound m) where
  cancel-IsSound : (k : ℕ) → IsSound (cancel k m)
  unfolding cancel
  cancel-IsSound k = record {
    known = λ n. ground (arith, s.known n);
    owned = λ n. ground (arith, s.owned n);
    entry = λ d n. ground (arith, s.entry d n);
  }

  tick-IsSound : (k i j : ℕ) → (m.task k).phase ≡ running j → IsSound (tick k i m)
  unfolding tick
  tick-IsSound k i j p = record {
    known = λ n. ground (arith, p, s.known n);
    owned = λ n. ground (arith, p, s.owned n);
    entry = λ d n. ground (arith, s.entry d n);
  }

  quit-IsSound : (k : ℕ) → IsSound (quit k m)
  unfolding quit
  quit-IsSound k = record {
    known = λ n. ground (arith, s.known n);
    owned = λ n. ground (arith, s.owned n);
    entry = λ d n. ground (arith, s.entry d n);
  }

  leave-IsSound : (k : ℕ) → (m.task k).phase ≡ finished → IsSound (leave k m)
  unfolding leave
  leave-IsSound k p = record {
    known = λ n. ground (arith, p, s.known n);
    owned = λ n. ground (arith, p, s.owned n);
    entry = λ d n. ground (arith, s.entry d n);
  }

  IsDone-finished : (o : Option ℕ) (q : ℕ) → IsDone m o → o ≡ some q → (m.task q).phase ≡ finished
  IsDone-finished none q done e = absurd (ground (arith, e))
  IsDone-finished (some k) q done e = ground (arith, done, e)

  spawn-IsSound :
      (k : ℕ) → (m.task k).phase ≡ waiting → IsDone m (m.task k).previous → IsSound (spawn k m)
  unfolding spawn
  spawn-IsSound k p done = record {
    known = λ n. ground (arith, p, s.known n, s.known k);
    owned = λ n. elim (Option-cases (m.task k).previous) [
      | inl none_before ↦ ground (arith, none_before, p, s.owned n, s.owned k)
      | inr (q, e) ↦
          ground (arith, e, p, s.owned n, s.owned k, IsDone-finished (m.task k).previous q done e)
    ];
    entry = λ d n. ground (arith, s.entry d n);
  }

  lock_stop-IsSound : (d : String) → IsSound (lock_stop d m)
  unfolding lock_stop
  lock_stop-IsSound d = record {
    known = λ n. ground (arith, s.known n);
    owned = λ n. ground (arith, s.owned n, eq_iff d (m.task n).driver_id);
    entry = λ e n. ground (arith, s.entry e n, eq_iff d e);
  }

  lock_start-IsSound : (d p : String) (r : Route) → IsSound (lock_start d p r m)
  unfolding lock_start
  lock_start-IsSound d p r = record {
    known = λ n. ground (arith, s.known n);
    owned = λ n. ground (arith, s.owned n, s.known n, eq_iff d (m.task n).driver_id, eq_refl d);
    entry = λ e n. ground (arith, s.entry e n, eq_iff d e);
  }

Step-IsSound : (m m' : Movements) → IsSound m → Step m m' → IsSound m'
Step-IsSound m m' s (started d p r) = lock_start-IsSound m s d p r
Step-IsSound m m' s (cancelling k h) = cancel-IsSound m s k
Step-IsSound m m' s (spawned k h done) = spawn-IsSound m s k h done
Step-IsSound m m' s (ticked k i h) = tick-IsSound m s k i i h
Step-IsSound m m' s (quitted k i h c) = quit-IsSound m s k
Step-IsSound m m' s (stopping d) = lock_stop-IsSound m s d
Step-IsSound m m' s (left k a h) = leave-IsSound m s k h

-- Whatever the order of starts, stops and ticks of all drivers, a task whose goroutine may still
-- write is its driver's entry on the map, or a call is waiting for its end.
pub Reachable-IsSound : (m : Movements) → Reachable m → IsSound m
Reachable-IsSound m fresh = fresh-IsSound
Reachable-IsSound m (after r step) = Step-IsSound _ m (Reachable-IsSound _ r) step

-- In every reachable state in which no call waits for a task of the driver, at most one goroutine of
-- the driver may write, and none where the driver has no entry on the map.
pub Reachable-one_task :
    (m : Movements) (d : String)
    → Reachable m
    → ((n : ℕ) → (m.task n).driver_id ≡ d → (m.task n).awaited ≡ false)
    → ((n k : ℕ)
        → (m.task n).driver_id ≡ d
        → (m.task k).driver_id ≡ d
        → is_live (m.task n).phase ≡ true
        → is_live (m.task k).phase ≡ true
        → n ≡ k)
      × ((n : ℕ) → m.current d ≡ none → (m.task n).driver_id ≡ d → is_live (m.task n).phase ≡ false)
Reachable-one_task m d r quiet =
    let s = Reachable-IsSound m r in
    (
      λ n k dn dk ln lk. ground (arith, dn, dk, s.owned n ln, s.owned k lk, quiet n dn, quiet k dk),
      λ n e dn. ground (arith, dn, e, s.owned n, quiet n dn),
    )
