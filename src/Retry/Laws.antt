-- ===== src/Retry/Laws.antt =====
-- How often an operation runs, how long the code waits, and what it returns.
use mygo_microservices.Prelude.{
  ℕ, zero, suc, ◌≤◌, ◌≡◌, refl, Option, none, some, ◌⊎◌, inl, inr, [], ◌∷◌, arith, length, All,
  Option-cases,
}
use mygo_microservices.Go.{Error, ok, err, Exec, Result-cases}
use mygo_microservices.Retry.{Config, Outcome, next_wait, after_wait, retry, with_backoff}

module _ {S : Type 0} (operation : Exec S (Unit {0})) where
  -- `n` runs in a row fail, and lead from `s` to `t`.
  abbrev pub Fails : ℕ → S → S → Type 0
  Fails zero s t = s ≡ t
  Fails (suc n) s t = (e : Error) × ((operation s).0 ≡ err e) × Fails n (operation s).1 t

  -- `n` runs fail and the next one succeeds.
  abbrev pub Succeeds : ℕ → S → S → Type 0
  Succeeds zero s t = ((operation s).0 ≡ ok tt) × (t ≡ (operation s).1)
  Succeeds (suc n) s t = (e : Error) × ((operation s).0 ≡ err e) × Succeeds n (operation s).1 t

  -- `o` stopped at the first success among at most `n` runs from `s`, or failed in all of them.
  abbrev pub Ends : ℕ → S → Outcome S → Type 0
  Ends n s o =
      ((k : ℕ) × (suc k ≤ n) × (o.attempts ≡ suc k) × (o.result ≡ ok tt) × Succeeds k s o.state)
      ⊎ ((e : Error) × (o.attempts ≡ n) × (o.result ≡ err e) × Fails n s o.state)

module _ {S : Type 0} (cancelled : ℕ → Option Error) (operation : Exec S (Unit {0}))
    (cfg : Config) where
  retry_ok :
      (left attempt wait : ℕ) (e : Error) (s : S) {u : Unit {0}}
      → cancelled attempt ≡ none
      → (operation s).0 ≡ ok u
      → retry cancelled operation cfg (suc left) attempt wait e s
        ≡ record { result = ok tt; state = (operation s).1; attempts = 1; waits = wait ∷ [] }
  unfolding retry
  retry_ok left attempt wait e s live p = ground arith

  retry_err :
      (left attempt wait : ℕ) (e : Error) (s : S) {e' : Error}
      → cancelled attempt ≡ none
      → (operation s).0 ≡ err e'
      → retry cancelled operation cfg (suc left) attempt wait e s
        ≡ after_wait wait (
            retry cancelled operation cfg left
              (suc attempt)
              (next_wait cfg wait)
              e'
              (operation s).1)
  unfolding retry
  retry_err left attempt wait e s live p = ground arith

  retry_cancelled :
      (left attempt wait : ℕ) (e c : Error) (s : S)
      → cancelled attempt ≡ some c
      → retry cancelled operation cfg (suc left) attempt wait e s
        ≡ record { result = err c; state = s; attempts = 0; waits = [] }
  unfolding retry
  retry_cancelled left attempt wait e c s p = ground arith

  -- One failed run in front of a row of runs.
  Ends-after_wait :
      (n wait : ℕ) (s : S) (o : Outcome S) {e : Error}
      → (operation s).0 ≡ err e
      → Ends operation n (operation s).1 o
      → Ends operation (suc n) s (after_wait wait o)
  Ends-after_wait n wait s o {e} p (inl (k, small, count, r, run)) =
      inl (suc k, omega arith, omega arith, r, (e, p, run))
  Ends-after_wait n wait s o {e} p (inr (e', count, r, run)) = inr (e', omega arith, r, (e, p, run))

  retry-Ends :
      ((n : ℕ) → cancelled n ≡ none)
      → (left attempt wait : ℕ) (e : Error) (s : S)
      → Ends operation left s (retry cancelled operation cfg left attempt wait e s)
  retry-Ends live zero attempt wait e s = unfold retry in inr (e, refl, refl, refl)
  retry-Ends live (suc left) attempt wait e s = elim (Result-cases (operation s).0) [
    | inl (u, p) ↦
        rw (retry_ok left attempt wait e s (live attempt) p)
          (inl (zero, omega arith, refl, refl, (p, refl)))
    | inr (e', p) ↦
        let o : Outcome S =
          retry cancelled operation cfg left (suc attempt) (next_wait cfg wait) e'
            (operation s).1 in
        rw (retry_err left attempt wait e s (live attempt) p) (
          Ends-after_wait left wait s o p
            (retry-Ends live left (suc attempt) (next_wait cfg wait) e' (operation s).1))
  ]

  with_backoff_ok :
      (s : S) {u : Unit {0}}
      → (operation s).0 ≡ ok u
      → with_backoff cancelled operation cfg s
        ≡ record { result = ok tt; state = (operation s).1; attempts = 1; waits = [] }
  unfolding with_backoff
  with_backoff_ok s p = ground arith

  with_backoff_err :
      (s : S) {e : Error}
      → (operation s).0 ≡ err e
      → let o =
          retry cancelled operation cfg cfg.max_retries 1 cfg.initial_wait e (operation s).1 in
        with_backoff cancelled operation cfg s ≡ record o { attempts = suc o.attempts }
  unfolding with_backoff
  with_backoff_err s p = ground arith

  -- In a context that is never done, `WithBackoff` stops at the first run that succeeds, or returns
  -- an error after exactly `max_retries + 1` runs that all failed.
  pub with_backoff-Ends :
      ((n : ℕ) → cancelled n ≡ none)
      → (s : S) → Ends operation (suc cfg.max_retries) s (with_backoff cancelled operation cfg s)
  with_backoff-Ends live s = elim (Result-cases (operation s).0) [
    | inl (u, p) ↦ rw (with_backoff_ok s p) (inl (zero, omega arith, refl, refl, (p, refl)))
    | inr (e, p) ↦
        let o : Outcome S =
          retry cancelled operation cfg cfg.max_retries 1 cfg.initial_wait e (operation s).1 in
        rw (with_backoff_err s p) (
          Ends-after_wait cfg.max_retries 0 s o p
            (retry-Ends live cfg.max_retries 1 cfg.initial_wait e (operation s).1))
  ]

  abbrev Waits : ℕ → Outcome S → Type 0
  Waits n o =
      (o.attempts ≤ n)
      × (length o.waits ≤ n)
      × (o.attempts ≤ length o.waits)
      × All (λ w. w ≤ cfg.max_wait) o.waits

  next_wait-le : (wait : ℕ) → next_wait cfg wait ≤ cfg.max_wait
  unfolding next_wait
  next_wait-le wait = ground arith

  retry-Waits :
      (left attempt wait : ℕ) (e : Error) (s : S)
      → wait ≤ cfg.max_wait
      → Waits left (retry cancelled operation cfg left attempt wait e s)
  retry-Waits zero attempt wait e s h = unfold retry in (omega arith, omega arith, omega arith, tt)
  retry-Waits (suc left) attempt wait e s h = elim (Option-cases (cancelled attempt)) [
    | inr (c, p) ↦
        rw (retry_cancelled left attempt wait e c s p) (omega arith, omega arith, omega arith, tt)
    | inl live ↦ elim (Result-cases (operation s).0) [
      | inl (u, p) ↦
          rw (retry_ok left attempt wait e s live p)
            (omega arith, omega arith, omega arith, (h, tt))
      | inr (e', p) ↦
          let rest : Waits left (
              retry cancelled operation cfg left (suc attempt) (next_wait cfg wait) e'
                (operation s).1) =
            retry-Waits left (suc attempt) (next_wait cfg wait) e' (operation s).1
              (next_wait-le wait) in
          rw (retry_err left attempt wait e s live p)
            (omega arith, omega arith, omega arith, (h, rest.3))
    ]
  ]

  -- Whether or not the context is done on the way, where the first wait is within the cap, the
  -- operation runs at least once and at most `max_retries + 1` times, the code waits at most
  -- `max_retries` times, and no wait is longer than the cap.
  pub with_backoff_bounds :
      (s : S)
      → cfg.initial_wait ≤ cfg.max_wait
      → let o = with_backoff cancelled operation cfg s in
        (1 ≤ o.attempts)
        × (o.attempts ≤ suc cfg.max_retries)
        × (length o.waits ≤ cfg.max_retries)
        × All (λ w. w ≤ cfg.max_wait) o.waits
  with_backoff_bounds s h = elim (Result-cases (operation s).0) [
    | inl (u, p) ↦ rw (with_backoff_ok s p) (omega arith, omega arith, omega arith, tt)
    | inr (e, p) ↦
        let rest : Waits cfg.max_retries
            (retry cancelled operation cfg cfg.max_retries 1 cfg.initial_wait e (operation s).1) =
          retry-Waits cfg.max_retries 1 cfg.initial_wait e (operation s).1 h in
        rw (with_backoff_err s p) (omega arith, omega arith, rest.1, rest.3)
  ]
