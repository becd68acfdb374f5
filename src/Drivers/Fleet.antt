-- ===== src/Drivers/Fleet.antt =====
-- The Redis server as the driver service uses it, through github.com/redis/go-redis: hashes with a
-- time to live, sets, and geo indexes. The server is a parameter, with its documented behaviour.
use mygo_microservices.Prelude.{
  ℕ, String, ◌≡◌, ◌≤◌, Bool, true, false, Option, none, some, is_some, List, [], ◌∷◌, ◌==◌, ◌&&◌,
  ◌||◌, if◌then◌else◌, All, length,
}
use mygo_microservices.Go.{ok, Exec}
use mygo_microservices.Trip.Domain.{Float64}
use mygo_microservices.Drivers.Nearest.{Place, AreNearest}

abbrev pub Fields : Type 0
Fields = List (String × String)

-- The commands that write. GEOADD takes the longitude first on the wire; here, as in the source's
-- `redis.GeoLocation`, the latitude stands first.
pub data Command : Type 0 where
  hset : String → Fields → Command
  expire : String → ℕ → Command
  sadd srem zrem : String → String → Command
  geo_add : String → String → Float64 → Float64 → Command
  del : String → Command

-- The time to live is in seconds, and absent where the key does not expire.
pub record Hash : Type 0 where
  pub fields : Fields
  pub ttl : Option ℕ

pub record Keys : Type 0 where
  pub hash : String → Option Hash
  pub member : String → String → Bool
  pub point : String → String → Option Place

-- HSET writes each field, and makes the hash where there is none.
unfoldable pub put_field : String → String → Fields → Fields
put_field f v [] = (f, v) ∷ []
put_field f v ((g, w) ∷ fs) = if g == f then (f, v) ∷ fs else (g, w) ∷ put_field f v fs

unfoldable pub put_fields : Fields → Fields → Fields
unfolding put_field
put_fields [] fs = fs
put_fields ((f, v) ∷ ws) fs = put_fields ws (put_field f v fs)

unfoldable pub written_hash : Fields → Option Hash → Hash
written_hash fs none = record { fields = put_fields fs []; ttl = none }
written_hash fs (some h) = record h { fields = put_fields fs h.fields }

-- EXPIRE does nothing where there is no key.
unfoldable pub expiring : ℕ → Option Hash → Option Hash
expiring t none = none
expiring t (some h) = some (record h { ttl = some t })

-- What one command makes of the hash at `k`, of `m` in the set at `k`, and of `m` in the index at `k`.
unfoldable pub hash_after : Command → String → Option Hash → Option Hash
hash_after (hset j fs) k o = if j == k then some (written_hash fs o) else o
hash_after (expire j t) k o = if j == k then expiring t o else o
hash_after (del j) k o = if j == k then none else o
hash_after (sadd j n) k o = o
hash_after (srem j n) k o = o
hash_after (zrem j n) k o = o
hash_after (geo_add j n lat lng) k o = o

unfoldable pub member_after : Command → String → String → Bool → Bool
member_after (sadd j n) k m b = if (j == k) && (n == m) then true else b
member_after (srem j n) k m b = if (j == k) && (n == m) then false else b
member_after (del j) k m b = if j == k then false else b
member_after (hset j fs) k m b = b
member_after (expire j t) k m b = b
member_after (zrem j n) k m b = b
member_after (geo_add j n lat lng) k m b = b

unfoldable pub point_after : Command → String → String → Option Place → Option Place
point_after (geo_add j n lat lng) k m o = if (j == k) && (n == m) then some (lat, lng) else o
point_after (zrem j n) k m o = if (j == k) && (n == m) then none else o
point_after (del j) k m o = if j == k then none else o
point_after (hset j fs) k m o = o
point_after (expire j t) k m o = o
point_after (sadd j n) k m o = o
point_after (srem j n) k m o = o

-- A pipeline is run in order.
unfoldable pub hash_run : List Command → String → Option Hash → Option Hash
hash_run [] k o = o
hash_run (c ∷ cs) k o = hash_run cs k (hash_after c k o)

unfoldable pub member_run : List Command → String → String → Bool → Bool
member_run [] k m b = b
member_run (c ∷ cs) k m b = member_run cs k m (member_after c k m b)

unfoldable pub point_run : List Command → String → String → Option Place → Option Place
point_run [] k m o = o
point_run (c ∷ cs) k m o = point_run cs k m (point_after c k m o)

-- Whether a command can change the hash at `k`.
unfoldable pub writes_hash : List Command → String → Bool
writes_hash [] k = false
writes_hash (hset j fs ∷ cs) k = (j == k) || writes_hash cs k
writes_hash (expire j t ∷ cs) k = (j == k) || writes_hash cs k
writes_hash (del j ∷ cs) k = (j == k) || writes_hash cs k
writes_hash (sadd j n ∷ cs) k = writes_hash cs k
writes_hash (srem j n ∷ cs) k = writes_hash cs k
writes_hash (zrem j n ∷ cs) k = writes_hash cs k
writes_hash (geo_add j n lat lng ∷ cs) k = writes_hash cs k

-- A GEORADIUS query: the centre, and `redis.GeoRadiusQuery` as far as the source sets it.
pub record GeoQuery : Type 0 where
  pub longitude : Float64
  pub latitude : Float64
  pub radius : Float64
  pub unit : String
  pub count : ℕ
  pub sort : String

-- A command by itself is a pipeline of one. `distance` is the server's distance in metres of a place
-- from the latitude and the longitude given, and `metres` turns kilometres into metres; both are
-- floats that are not negative, which are in the order of their bits.
pub record Fleet : Type 1 where
  pub State : Type 0
  pub IsUp : State → Type 0
  pub keys : State → Keys
  pub distance : Float64 → Float64 → Place → ℕ
  pub metres : Float64 → ℕ
  pub exec : List Command → Exec State (Unit {0})
  pub exists_key : String → Exec State ℕ
  pub srandmember : String → ℕ → Exec State (List String)
  pub geo_radius : String → GeoQuery → Exec State (List String)
  pub geo_hash : String → String → Exec State (List String)

module _ (fleet : Fleet) where
  open fleet use {
    State, IsUp, keys, distance, metres, exec, exists_key, srandmember, geo_radius, geo_hash,
  }

  pub record FleetLaws : Type 0 where
    -- A pipeline that answers has run.
    pub exec_hash :
        (cs : List Command) (k : String) (s : State)
        → (exec cs s).0 ≡ ok tt
        → (keys (exec cs s).1).hash k ≡ hash_run cs k ((keys s).hash k)
    pub exec_member :
        (cs : List Command) (k m : String) (s : State)
        → (exec cs s).0 ≡ ok tt
        → (keys (exec cs s).1).member k m ≡ member_run cs k m ((keys s).member k m)
    pub exec_point :
        (cs : List Command) (k m : String) (s : State)
        → (exec cs s).0 ≡ ok tt
        → (keys (exec cs s).1).point k m ≡ point_run cs k m ((keys s).point k m)
    -- One that fails has run in part, and leaves alone what none of its commands name.
    pub exec_keeps :
        (cs : List Command) (k : String) (s : State)
        → writes_hash cs k ≡ false
        → (keys (exec cs s).1).hash k ≡ (keys s).hash k
    -- A read that answers tells the truth, and no read changes a key.
    pub exists_ok :
        (k : String) (s : State) (n : ℕ)
        → (exists_key k s).0 ≡ ok n
        → n ≡ (if is_some ((keys s).hash k) then 1 else 0)
    pub exists_keeps : (k : String) (s : State) → keys (exists_key k s).1 ≡ keys s
    pub srandmember_ok :
        (k : String) (n : ℕ) (s : State) (ms : List String)
        → (srandmember k n s).0 ≡ ok ms
        → All (λ m. (keys s).member k m ≡ true) ms × (length ms ≤ n)
    pub srandmember_keeps : (k : String) (n : ℕ) (s : State) → keys (srandmember k n s).1 ≡ keys s
    pub geo_radius_ok :
        (k : String) (q : GeoQuery) (s : State) (ms : List String)
        → q.unit ≡ "km"
        → q.sort ≡ "ASC"
        → 1 ≤ q.count
        → (geo_radius k q s).0 ≡ ok ms
        → AreNearest
            ((keys s).point k)
            (distance q.latitude q.longitude)
            (metres q.radius)
            q.count
            ms
    pub geo_radius_keeps :
        (k : String) (q : GeoQuery) (s : State) → keys (geo_radius k q s).1 ≡ keys s
    pub geo_hash_keeps : (k m : String) (s : State) → keys (geo_hash k m s).1 ≡ keys s
    -- While the server is up, every call answers.
    pub up_exec : (cs : List Command) (s : State) → IsUp s → (exec cs s).0 ≡ ok tt
    pub exec-IsUp : (cs : List Command) (s : State) → IsUp s → IsUp (exec cs s).1
    pub up_exists :
        (k : String) (s : State)
        → IsUp s
        → (exists_key k s).0 ≡ ok (if is_some ((keys s).hash k) then 1 else 0)
    pub exists-IsUp : (k : String) (s : State) → IsUp s → IsUp (exists_key k s).1
    pub up_srandmember :
        (k : String) (n : ℕ) (s : State)
        → IsUp s
        → (ms : List String) × ((srandmember k n s).0 ≡ ok ms)
    pub srandmember-IsUp : (k : String) (n : ℕ) (s : State) → IsUp s → IsUp (srandmember k n s).1
    pub up_geo_radius :
        (k : String) (q : GeoQuery) (s : State)
        → IsUp s
        → (ms : List String) × ((geo_radius k q s).0 ≡ ok ms)
    pub geo_radius-IsUp :
        (k : String) (q : GeoQuery) (s : State) → IsUp s → IsUp (geo_radius k q s).1
    pub geo_hash-IsUp : (k m : String) (s : State) → IsUp s → IsUp (geo_hash k m s).1
