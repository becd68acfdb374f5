-- ===== src/Cache/RateLimit.antt =====
-- shared/cache/ratelimit.go: a sliding-window rate limiter, its Lua script included.
-- `PEXPIRE` only removes a key whose entries have all left the window; expiry is not modelled.
pub mod Window
pub mod Laws
use mygo_microservices.Prelude.{
  ℕ, zero, suc, ◌+◌, ◌-◌, ◌/◌, ◌%◌, ◌^◌, ◌≤◌, String, ◌<>◌, ◌≡◌, refl, Bool, true, false, not,
  Option, List, [], ◌∷◌, ◌⊎◌, ◌&&◌, ◌==◌, ◌=ℕ=◌, ltb, leb, if◌then◌else◌, is_empty, trim_space,
  length,
}
use mygo_microservices.Go.{Error, message, Result, ok, err, Exec, pure, fail, ◌>>=◌}
use mygo_microservices.Redis.{Client, is_nil}

-- An entry of a sorted set: its score and its member.
abbrev pub Entry : Type 0
Entry = ℕ × String

-- The entries whose score lies outside a range, and those of other members.
unfoldable pub outside : ℕ → ℕ → List Entry → List Entry
outside lo hi [] = []
outside lo hi ((score, m) ∷ es) =
    let rest = outside lo hi es in if leb lo score && leb score hi then rest else (score, m) ∷ rest

pub without : String → List Entry → List Entry
without m [] = []
without m ((score, k) ∷ es) = let rest = without m es in if k == m then rest else (score, k) ∷ rest

-- Sorted sets of a Redis server as a script sees them, each as the list of its entries, last added
-- first; and the call that runs a script as one step.
pub record Zsets : Type 1 where
  pub State : Type 0
  pub entries : State → String → List Entry
  pub zremrangebyscore : String → ℕ → ℕ → State → State
  pub zcard : String → State → ℕ
  pub zadd : String → ℕ → String → State → State
  pub pexpire : String → ℕ → State → State
  pub eval : (State → ℕ × State) → Exec State ℕ

module _ (z : Zsets) where
  open z use {State, entries, zremrangebyscore, zcard, zadd, pexpire, eval}

  pub record ZsetsLaws : Type 0 where
    pub entries-zremrangebyscore :
        (k : String) (lo hi : ℕ) (s : State)
        → entries (zremrangebyscore k lo hi s) k ≡ outside lo hi (entries s k)
    pub zcard-length : (k : String) (s : State) → zcard k s ≡ length (entries s k)
    pub entries-zadd :
        (k : String) (score : ℕ) (m : String) (s : State)
        → entries (zadd k score m s) k ≡ (score, m) ∷ without m (entries s k)
    pub entries-pexpire :
        (k : String) (ms : ℕ) (s : State) → entries (pexpire k ms s) k ≡ entries s k
    -- An answer is the script's own, and the script has run.
    pub eval_ok :
        (f : State → ℕ × State) (s : State) (n : ℕ)
        → (eval f s).0 ≡ ok n
        → (n ≡ (f s).0) × ((eval f s).1 ≡ (f s).1)

abbrev pub trip_rate_limit_key_prefix : String
trip_rate_limit_key_prefix = "ratelimit:trip:"

-- strconv.FormatInt and FormatUint in base 10; the fuel bounds the digits.
digit : ℕ → String
digit d =
    if d =ℕ= 0
    then "0"
    else if d =ℕ= 1
    then "1"
    else if d =ℕ= 2
    then "2"
    else if d =ℕ= 3
    then "3"
    else if d =ℕ= 4
    then "4"
    else if d =ℕ= 5
    then "5"
    else if d =ℕ= 6
    then "6"
    else if d =ℕ= 7
    then "7"
    else if d =ℕ= 8
    then "8"
    else "9"

format_from : ℕ → ℕ → String → String
format_from zero n tail = tail
format_from (suc fuel) n tail =
    let more = format_from fuel (n / 10) (digit (n % 10) <> tail) in
    if ltb n 10 then digit n <> tail else more

-- A 64-bit number has at most 20 digits.
pub format : ℕ → String
unfolding format_from digit
format n = format_from 20 n ""

format_number : format 1048 ≡ "1048"
unfolding format
format_number = refl

-- `buildSlidingWindowMember`, with the counter before and after `atomic.AddUint64`.
pub build_sliding_window_member : ℕ → ℕ → String × ℕ
build_sliding_window_member now_millis seq =
    let seq' = (seq + 1) % 2 ^ 64 in (format now_millis <> ("-" <> format seq'), seq')

module _ (z : Zsets) where
  -- `slidingWindowScript`. Below the window's length `now - window` is negative, and no score is.
  unfoldable pub sliding_window_script : String → ℕ → ℕ → ℕ → String → z.State → ℕ × z.State
  sliding_window_script key now window limit member s =
      let s₁ = if ltb now window then s else z.zremrangebyscore key 0 (now - window) s in
      if ltb (z.zcard key s₁) limit
      then (1, z.pexpire key window (z.zadd key now member s₁))
      else (0, s₁)

  -- The clock and the counter are the arguments `now_millis` and `seq`; `window` is in nanoseconds.
  unfoldable pub sliding_window_allow : Client → String → ℕ → ℕ → ℕ → ℕ → Exec z.State Bool
  unfolding sliding_window_script
  sliding_window_allow rdb user_id limit window now_millis seq =
      let trimmed_user_id = trim_space user_id in
      if is_nil rdb
      then fail (message "redis client is required for sliding window rate limit")
      else if is_empty trimmed_user_id
      then fail (message "userID is required for sliding window rate limit")
      else if limit =ℕ= 0
      then fail (message "limit must be greater than zero")
      else if window =ℕ= 0
      then fail (message "window must be greater than zero")
      else do
        result ← z.eval (
            sliding_window_script (trip_rate_limit_key_prefix <> trimmed_user_id) now_millis
              (window / 1_000_000) limit (build_sliding_window_member now_millis seq).0)
        pure (result =ℕ= 1)
