-- ===== src/Fake/RedisTable.antt =====
-- A Redis server as one table, with the time that each key has left, which answers exactly while it
-- is up.
use mygo_microservices.Prelude.{
  ℕ, ◌-◌, leb, String, ◌≡◌, Bool, true, false, Option, none, some, is_none, is_some, ◌==◌,
  if◌then◌else◌, arith, eq_refl,
}
use mygo_microservices.Go.{external, Result, ok, err, Exec}
use mygo_microservices.Redis.{Kv, KvLaws, Clock, ClockLaws, reply_of}

pub record Table : Type 0 where
  pub cell : String → Option String
  pub left : String → Option ℕ
  pub up : Bool

abbrev put : String → Option String → Option ℕ → Table → Table
put k o ttl t = record t {
  cell = λ j. if k == j then o else t.cell j;
  left = λ j. if k == j then ttl else t.left j;
}

abbrev pub when_up : {A : Type 0} → Table → A → Table → Result A × Table
when_up t a t' = if t.up then (ok a, t') else (err (external "connection refused"), t)

abbrev get : String → Exec Table String
get k t = if t.up then (reply_of (t.cell k), t) else (err (external "connection refused"), t)

abbrev exists_key : String → Exec Table ℕ
exists_key k t = when_up t (if is_some (t.cell k) then 1 else 0) t

abbrev set : String → String → ℕ → Exec Table (Unit {0})
set k v ttl t = when_up t tt (put k (some v) (some ttl) t)

abbrev set_nx : String → String → ℕ → Exec Table Bool
set_nx k v ttl t =
    if is_none (t.cell k) then when_up t true (put k (some v) (some ttl) t) else when_up t false t

abbrev del : String → Exec Table (Unit {0})
del k t = when_up t tt (put k none none t)

abbrev pub table_kv : Kv
table_kv = record {
  State = Table;
  lookup = λ t. t.cell;
  IsUp = λ t. t.up ≡ true;
  get = get;
  exists_key = exists_key;
  set = set;
  set_nx = set_nx;
  del = del;
}

pub table_laws : KvLaws table_kv
table_laws = record {
  get_hit = λ k s v. ground arith;
  get_miss = λ k s. ground arith;
  get_keeps = λ k j s. ground arith;
  exists_ok = λ k s n. ground arith;
  exists_keeps = λ k j s. ground arith;
  set_done = λ k v ttl j s. ground arith;
  set_keeps = λ k v ttl j s. ground arith;
  set_cases = λ k v ttl s. ground (arith, eq_refl k);
  del_cases = λ k s. ground (arith, eq_refl k);
  del_done = λ k j s. ground arith;
  del_keeps = λ k j s. ground arith;
  set_nx_won = λ k v ttl s. ground (arith, eq_refl k);
  set_nx_lost = λ k v ttl s. ground arith;
  set_nx_keeps = λ k v ttl j s. ground arith;
  up_get = λ k s. ground arith;
  up_exists = λ k s. ground arith;
  up_set = λ k v ttl s. ground arith;
  up_set_nx = λ k v ttl s. ground arith;
  up_del = λ k s. ground arith;
  get-IsUp = λ k s. ground arith;
  exists-IsUp = λ k s. ground arith;
  set-IsUp = λ k v ttl s. ground arith;
  set_nx-IsUp = λ k v ttl s. ground arith;
  del-IsUp = λ k s. ground arith;
}

abbrev is_over : ℕ → Option ℕ → Bool
is_over d none = false
is_over d (some t) = leb t d

abbrev pub elapse : ℕ → Table → Table
elapse d t = record t {
  cell = λ j. if is_over d (t.left j) then none else t.cell j;
  left = λ j. elim (t.left j) [ none ↦ none | some n ↦ some (n - d) ];
}

abbrev pub table_clock : Clock table_kv
table_clock = record { remaining = λ t. t.left; elapse = elapse }

pub table_clock_laws : ClockLaws table_kv table_clock
table_clock_laws = record {
  set_remaining = λ k v ttl s big h. (ttl, ground (arith, h, eq_refl k), omega arith, omega arith);
  elapse_live = λ k v left d s. ground arith;
  elapse_gone = λ k left d s. ground arith;
  elapse_absent = λ k d s. ground arith;
}
