-- ===== src/Retry.antt =====
-- shared/retry/retry.go: exponential backoff. Durations are nanoseconds.
pub mod Laws
use mygo_microservices.Prelude.{
  ℕ, zero, suc, ◌+◌, ◌*◌, String, ◌≡◌, refl, Bool, true, false, List, [], ◌∷◌, Option, none, some,
  ltb, if◌then◌else◌,
}
use mygo_microservices.Go.{Error, Result, ok, err, Exec}

pub record Config : Type 0 where
  pub max_retries : ℕ
  pub initial_wait : ℕ
  pub max_wait : ℕ

abbrev pub second : ℕ
second = 1000000000

abbrev pub default_config : Config
default_config = record { max_retries = 3; initial_wait = 1 * second; max_wait = 10 * second }

-- `wait *= 2`, capped
unfoldable pub next_wait : Config → ℕ → ℕ
next_wait cfg wait =
    let doubled = wait * 2 in if ltb cfg.max_wait doubled then cfg.max_wait else doubled

-- What a call of `WithBackoff` did: its error, its state, how often it ran the operation and how
-- long it waited before each rerun.
pub record Outcome (S : Type 0) : Type 0 where
  pub result : Result (Unit {0})
  pub state : S
  pub attempts : ℕ
  pub waits : List ℕ

abbrev pub after_wait : {S : Type 0} → ℕ → Outcome S → Outcome S
after_wait w o = record o { attempts = suc o.attempts; waits = w ∷ o.waits }

module _ {S : Type 0} (cancelled : ℕ → Option Error) (operation : Exec S (Unit {0}))
    (cfg : Config) where
  -- The rounds left after a failed one: `cancelled attempt` is `ctx.Err()` where the context is
  -- done before the wait that leads to that attempt.
  retry : ℕ → ℕ → ℕ → Error → S → Outcome S
  retry zero attempt wait e s = record { result = err e; state = s; attempts = 0; waits = [] }
  retry (suc left) attempt wait e s = elim (cancelled attempt) [
    | some c ↦ record { result = err c; state = s; attempts = 0; waits = [] }
    | none ↦
        (let (r, s') = operation s in
          elim r [
            | ok u ↦ record { result = ok tt; state = s'; attempts = 1; waits = wait ∷ [] }
            | err e' ↦ after_wait wait (retry left (suc attempt) (next_wait cfg wait) e' s')
          ])
  ]

  pub with_backoff : S → Outcome S
  with_backoff s =
      let (r, s') = operation s in
      elim r [
        | ok u ↦ record { result = ok tt; state = s'; attempts = 1; waits = [] }
        | err e ↦
            (let o = retry cfg.max_retries 1 cfg.initial_wait e s' in
              record o { attempts = suc o.attempts })
      ]
