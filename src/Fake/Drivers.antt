-- ===== src/Fake/Drivers.antt =====
-- A Redis server for the driver service. Only the members named in the state have a place. Distances
-- are measured along the axes, the one of the latitude counting twice.
use mygo_microservices.Prelude.{
  ℕ, zero, suc, ◌+◌, ◌-◌, ◌*◌, eq_iff, none, some, ◌≤◌, String, ◌≡◌, refl, subst, Bool, true, false,
  Option, is_some, List, [], ◌∷◌, if◌then◌else◌, inl, inr, arith, All, length, take, length-take-le,
  Bool-cases,
}
use mygo_microservices.Go.{external, Result, ok, err}
use mygo_microservices.Trip.Domain.{Float64}
use mygo_microservices.Drivers.Nearest.{Place, is_among, AreNearest}
use mygo_microservices.Fake.Nearest.{sorted, take-AreNearest}
use mygo_microservices.Drivers.Fleet.{
  Keys, Command, hset, expire, sadd, srem, zrem, geo_add, del, hash_run, hash_after, member_run,
  point_run, point_after, writes_hash, Hash, Fleet, FleetLaws,
}

pub record Server : Type 0 where
  pub view : Keys
  pub names : List String
  pub up : Bool

abbrev answer : {A : Type 0} → Server → A → Server → Result A × Server
answer t a t' = if t.up then (ok a, t') else (err (external "connection refused"), t)

abbrev selected : (String → Bool) → List String → List String
selected p [] = []
selected p (x ∷ xs) = let rest = selected p xs in if p x then x ∷ rest else rest

selected-All :
    (p : String → Bool) (n : ℕ) (xs : List String) → All (λ x. p x ≡ true) (take n (selected p xs))
selected-All p zero xs = tt
selected-All p (suc n) [] = tt
selected-All p (suc n) (x ∷ xs) = elim (Bool-cases (p x)) [
  | inl q ↦ rw q (q, selected-All p n xs)
  | inr q ↦ rw q (selected-All p (suc n) xs)
]

answer_ok : {A : Type 0} (t : Server) (a b : A) (t' : Server) → (answer t a t').0 ≡ ok b → a ≡ b
answer_ok t a b t' h = ground arith

-- Whatever is answered of a selection was selected, and is not more than was asked for.
answer-selected :
    (p : String → Bool) (n : ℕ) (t : Server) (ms : List String)
    → (answer t (take n (selected p t.names)) t).0 ≡ ok ms
    → All (λ m. p m ≡ true) ms × (length ms ≤ n)
answer-selected p n t ms h =
    let found = take n (selected p t.names) in
    subst (λ ms. All (λ m. p m ≡ true) ms × (length ms ≤ n)) (answer_ok t found ms t h)
      (selected-All p n t.names, length-take-le n (selected p t.names))

abbrev along : ℕ → ℕ → ℕ
along a b = (a - b) + (b - a)

abbrev pub distance : Float64 → Float64 → Place → ℕ
distance lat lng (p, q) = 2 * along lat p + along lng q

abbrev pub keys : Server → Keys
keys t = record {
  hash = t.view.hash;
  member = t.view.member;
  point = λ k m. if is_among m t.names then t.view.point k m else none;
}

-- Who gets a place is named.
abbrev added : List Command → List String → List String
added [] ns = ns
added (geo_add j n lat lng ∷ cs) ns = added cs (n ∷ ns)
added (zrem j n ∷ cs) ns = added cs ns
added (del j ∷ cs) ns = added cs ns
added (hset j fs ∷ cs) ns = added cs ns
added (expire j t ∷ cs) ns = added cs ns
added (sadd j n ∷ cs) ns = added cs ns
added (srem j n ∷ cs) ns = added cs ns

absent :
    (cs : List Command) (k m : String) (ns : List String)
    → is_among m (added cs ns) ≡ false
    → (is_among m ns ≡ false) × (point_run cs k m none ≡ none)
unfolding is_among point_run point_after
absent [] k m ns h = (h, refl)
absent (geo_add j n lat lng ∷ cs) k m ns h =
    ground (arith, absent cs k m (n ∷ ns) h, eq_iff m n, eq_iff n m)
absent (zrem j n ∷ cs) k m ns h = ground (arith, absent cs k m ns h)
absent (del j ∷ cs) k m ns h = ground (arith, absent cs k m ns h)
absent (hset j fs ∷ cs) k m ns h = absent cs k m ns h
absent (expire j t ∷ cs) k m ns h = absent cs k m ns h
absent (sadd j n ∷ cs) k m ns h = absent cs k m ns h
absent (srem j n ∷ cs) k m ns h = absent cs k m ns h

named :
    (t : Server) (k m : String) (p : Place)
    → (keys t).point k m ≡ some p
    → is_among m t.names ≡ true
named t k m p h = ground (arith, h)

abbrev run_all : List Command → Keys → Keys
run_all cs v = record {
  hash = λ k. hash_run cs k (v.hash k);
  member = λ k m. member_run cs k m (v.member k m);
  point = λ k m. point_run cs k m (v.point k m);
}

hash_run-kept :
    (cs : List Command) (k : String) (o : Option Hash)
    → writes_hash cs k ≡ false
    → hash_run cs k o ≡ o
unfolding hash_run writes_hash hash_after
hash_run-kept [] k o h = refl
hash_run-kept (hset j fs ∷ cs) k o h = ground (arith, hash_run-kept cs k o)
hash_run-kept (expire j t ∷ cs) k o h = ground (arith, hash_run-kept cs k o)
hash_run-kept (del j ∷ cs) k o h = ground (arith, hash_run-kept cs k o)
hash_run-kept (sadd j n ∷ cs) k o h = hash_run-kept cs k o h
hash_run-kept (srem j n ∷ cs) k o h = hash_run-kept cs k o h
hash_run-kept (zrem j n ∷ cs) k o h = hash_run-kept cs k o h
hash_run-kept (geo_add j n lat lng ∷ cs) k o h = hash_run-kept cs k o h

abbrev pub driver_fleet : Fleet
driver_fleet = record {
  State = Server;
  IsUp = λ t. t.up ≡ true;
  keys = keys;
  distance = distance;
  metres = λ r. r;
  exec = λ cs t. answer t tt (record t { view = run_all cs (keys t); names = added cs t.names });
  exists_key = λ k t. answer t (if is_some (t.view.hash k) then 1 else 0) t;
  srandmember = λ k n t. answer t (take n (selected (t.view.member k) t.names)) t;
  geo_radius = λ k q t.
      answer t
        (take q.count
          (sorted ((keys t).point k) (distance q.latitude q.longitude) q.radius t.names))
        t;
  geo_hash = λ k m t. answer t ("ws0e" ∷ []) t;
}

pub driver_fleet_laws : FleetLaws driver_fleet
driver_fleet_laws = record {
  exec_hash = λ cs k s. ground arith;
  exec_member = λ cs k m s. ground arith;
  exec_point = λ cs k m s. ground (arith, absent cs k m s.names);
  exec_keeps = λ cs k s. ground (arith, hash_run-kept cs k (s.view.hash k));
  exists_ok = λ k s n. ground arith;
  exists_keeps = λ k s. ground arith;
  srandmember_ok = λ k n s ms h. answer-selected (s.view.member k) n s ms h;
  srandmember_keeps = λ k n s. ground arith;
  geo_radius_ok = λ k q s ms km asc some_asked h.
      let place = (keys s).point k in
      let far = distance q.latitude q.longitude in
      subst (AreNearest place far q.radius q.count)
        (answer_ok s (take q.count (sorted place far q.radius s.names)) ms s h)
        (take-AreNearest place far q.radius q.count s.names (named s k));
  geo_radius_keeps = λ k q s. ground arith;
  geo_hash_keeps = λ k m s. ground arith;
  up_exec = λ cs s. ground arith;
  exec-IsUp = λ cs s. ground arith;
  up_exists = λ k s. ground arith;
  exists-IsUp = λ k s. ground arith;
  up_srandmember = λ k n s up. (take n (selected (s.view.member k) s.names), ground arith);
  srandmember-IsUp = λ k n s. ground arith;
  up_geo_radius = λ k q s up. (
    take q.count (sorted ((keys s).point k) (distance q.latitude q.longitude) q.radius s.names),
    ground arith,
  );
  geo_radius-IsUp = λ k q s. ground arith;
  geo_hash-IsUp = λ k m s. ground arith;
}
