-- ===== src/Cache/Local.antt =====
-- shared/cache/local.go: the cache inside one process, over github.com/dgraph-io/ristretto, which is
-- not part of the repository. Every method does nothing on a nil receiver.
use mygo_microservices.Prelude.{
  ℕ, String, ◌≡◌, false, length, bytes, Option, none, some, ◌⊎◌, ◌==◌, ◌=ℕ=◌, if◌then◌else◌,
}

-- A cache may forget a key at any time, and may refuse one.
pub record Ristretto : Type 1 where
  pub State : Type 0
  pub cell : State → String → Option String
  pub get : String → State → Option String
  -- key, value, cost and ttl
  pub set_with_ttl : String → String → ℕ → ℕ → State → State
  pub del : String → State → State

module _ (l : Ristretto) where
  open l use {State, cell, get, set_with_ttl, del}

  pub record RistrettoLaws : Type 0 where
    -- A hit is what the cache holds.
    pub get_hit : (k v : String) (s : State) → get k s ≡ some v → cell s k ≡ some v
    -- After a write there is the new value under its key or what was there; nothing else comes in.
    pub set_sound :
        (k v : String) (cost ttl : ℕ) (j u : String) (s : State)
        → cell (set_with_ttl k v cost ttl s) j ≡ some u
        → (cell s j ≡ some u) ⊎ ((k ≡ j) × (v ≡ u))
    -- A deleted key is gone.
    pub del_sound :
        (k j u : String) (s : State)
        → cell (del k s) j ≡ some u
        → (cell s j ≡ some u) × ((k == j) ≡ false)

-- A `*LocalCache`, which may be nil.
pub data LocalCache : Type 0 where
  nil_cache local_cache : LocalCache

module _ (l : Ristretto) where
  open l use {State}

  unfoldable pub local_get : LocalCache → String → State → Option String
  local_get nil_cache k s = none
  local_get local_cache k s = l.get k s

  -- The cost is the length of the value, but not 0.
  unfoldable pub local_set : LocalCache → String → String → ℕ → State → State
  local_set nil_cache k v ttl s = s
  local_set local_cache k v ttl s =
      let cost = length (bytes v) in l.set_with_ttl k v (if cost =ℕ= 0 then 1 else cost) ttl s

  unfoldable pub local_del : LocalCache → String → State → State
  local_del nil_cache k s = s
  local_del local_cache k s = l.del k s
