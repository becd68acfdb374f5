-- ===== src/Redis.antt =====
-- The Redis server as the source uses it, through github.com/redis/go-redis: string keys.
-- The server is not part of the repository, so it is a parameter: its operations, and the
-- documented behaviour of each as a law. A call may fail at any time, unless the server is up.
-- No key expires within one run of the code; expiry between runs is a step of the server's clock.
use mygo_microservices.Prelude.{
  ℕ, ◌+◌, ◌≤◌, ◌<◌, String, ◌≡◌, ◌≢◌, Bool, true, false, Option, none, some, is_none, is_some, ◌⊎◌,
  ◌==◌, if◌then◌else◌,
}
use mygo_microservices.Go.{nil_reply, Result, ok, err, Exec}

-- GET on a key: `redis.Nil` where there is none.
abbrev pub reply_of : Option String → Result String
reply_of none = err nil_reply
reply_of (some v) = ok v

pub record Kv : Type 1 where
  pub State : Type 0
  pub lookup : State → String → Option String
  pub IsUp : State → Type 0
  pub get : String → Exec State String
  pub exists_key : String → Exec State ℕ
  pub set : String → String → ℕ → Exec State (Unit {0})
  pub set_nx : String → String → ℕ → Exec State Bool
  pub del : String → Exec State (Unit {0})

-- What the server's documentation says of those calls.
module _ (kv : Kv) where
  open kv use {State, lookup, IsUp, get, exists_key, set, set_nx, del}

  pub record KvLaws : Type 0 where
    -- A read that answers tells the truth, and no read changes a key.
    pub get_hit : (k : String) (s : State) (v : String) → (get k s).0 ≡ ok v → lookup s k ≡ some v
    pub get_miss : (k : String) (s : State) → (get k s).0 ≡ err nil_reply → lookup s k ≡ none
    pub get_keeps : (k j : String) (s : State) → lookup (get k s).1 j ≡ lookup s j
    pub exists_ok :
        (k : String) (s : State) (n : ℕ)
        → (exists_key k s).0 ≡ ok n
        → n ≡ (if is_some (lookup s k) then 1 else 0)
    pub exists_keeps : (k j : String) (s : State) → lookup (exists_key k s).1 j ≡ lookup s j
    -- SET and DEL that answer have happened.
    pub set_done :
        (k v : String) (ttl : ℕ) (j : String) (s : State)
        → (set k v ttl s).0 ≡ ok tt
        → lookup (set k v ttl s).1 j ≡ (if k == j then some v else lookup s j)
    pub set_keeps :
        (k v : String) (ttl : ℕ) (j : String) (s : State)
        → (k == j) ≡ false
        → lookup (set k v ttl s).1 j ≡ lookup s j
    -- A write whose answer is lost has happened or not.
    pub set_cases :
        (k v : String) (ttl : ℕ) (s : State)
        → (lookup (set k v ttl s).1 k ≡ lookup s k) ⊎ (lookup (set k v ttl s).1 k ≡ some v)
    pub del_cases :
        (k : String) (s : State)
        → (lookup (del k s).1 k ≡ lookup s k) ⊎ (lookup (del k s).1 k ≡ none)
    pub del_done :
        (k j : String) (s : State)
        → (del k s).0 ≡ ok tt
        → lookup (del k s).1 j ≡ (if k == j then none else lookup s j)
    pub del_keeps :
        (k j : String) (s : State) → (k == j) ≡ false → lookup (del k s).1 j ≡ lookup s j
    -- SET NX writes exactly where there was no key.
    pub set_nx_won :
        (k v : String) (ttl : ℕ) (s : State)
        → (set_nx k v ttl s).0 ≡ ok true
        → (lookup s k ≡ none) × (lookup (set_nx k v ttl s).1 k ≡ some v)
    pub set_nx_lost :
        (k v : String) (ttl : ℕ) (s : State)
        → (set_nx k v ttl s).0 ≡ ok false
        → (lookup s k ≢ none) × (lookup (set_nx k v ttl s).1 k ≡ lookup s k)
    pub set_nx_keeps :
        (k v : String) (ttl : ℕ) (j : String) (s : State)
        → (k == j) ≡ false
        → lookup (set_nx k v ttl s).1 j ≡ lookup s j
    -- While the server is up, every call answers.
    pub up_get : (k : String) (s : State) → IsUp s → (get k s).0 ≡ reply_of (lookup s k)
    pub up_exists :
        (k : String) (s : State)
        → IsUp s
        → (exists_key k s).0 ≡ ok (if is_some (lookup s k) then 1 else 0)
    pub up_set : (k v : String) (ttl : ℕ) (s : State) → IsUp s → (set k v ttl s).0 ≡ ok tt
    pub up_set_nx :
        (k v : String) (ttl : ℕ) (s : State)
        → IsUp s
        → (set_nx k v ttl s).0 ≡ ok (is_none (lookup s k))
    pub up_del : (k : String) (s : State) → IsUp s → (del k s).0 ≡ ok tt
    pub get-IsUp : (k : String) (s : State) → IsUp s → IsUp (get k s).1
    pub exists-IsUp : (k : String) (s : State) → IsUp s → IsUp (exists_key k s).1
    pub set-IsUp : (k v : String) (ttl : ℕ) (s : State) → IsUp s → IsUp (set k v ttl s).1
    pub set_nx-IsUp : (k v : String) (ttl : ℕ) (s : State) → IsUp s → IsUp (set_nx k v ttl s).1
    pub del-IsUp : (k : String) (s : State) → IsUp s → IsUp (del k s).1

-- The server's clock: the nanoseconds that a key with an expiry has left, and what the server holds
-- when so much time has gone by without a call.
pub record Clock (kv : Kv) : Type 0 where
  pub remaining : kv.State → String → Option ℕ
  pub elapse : ℕ → kv.State → kv.State

abbrev pub millisecond : ℕ
millisecond = 1000000

module _ (kv : Kv) (clock : Clock kv) where
  open kv use {State, lookup, set}
  open clock use {remaining, elapse}

  pub record ClockLaws : Type 0 where
    -- The client sends the time to live in whole milliseconds, rounded down.
    pub set_remaining :
        (k v : String) (ttl : ℕ) (s : State)
        → millisecond ≤ ttl
        → (set k v ttl s).0 ≡ ok tt
        → (left : ℕ) × (remaining (set k v ttl s).1 k ≡ some left)
          × (left ≤ ttl)
          × (ttl < left + millisecond)
    -- A key is there until its time is over, and comes back by no lapse of time.
    pub elapse_live :
        (k v : String) (left d : ℕ) (s : State)
        → lookup s k ≡ some v
        → remaining s k ≡ some left
        → d < left
        → lookup (elapse d s) k ≡ some v
    pub elapse_gone :
        (k : String) (left d : ℕ) (s : State)
        → remaining s k ≡ some left
        → left ≤ d
        → lookup (elapse d s) k ≡ none
    pub elapse_absent :
        (k : String) (d : ℕ) (s : State) → lookup s k ≡ none → lookup (elapse d s) k ≡ none

-- A `redis.UniversalClient`, which may be nil.
pub data Client : Type 0 where
  nil_client client : Client

abbrev pub is_nil : Client → Bool
is_nil nil_client = true
is_nil client = false
