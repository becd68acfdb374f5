-- ===== src/Fake/SortedSet.antt =====
-- A sorted set under every key, with scripts that always run.
use mygo_microservices.Prelude.{
  String, refl, List, ◌∷◌, ◌==◌, if◌then◌else◌, arith, eq_refl, length,
}
use mygo_microservices.Go.{ok}
use mygo_microservices.Cache.RateLimit.{Entry, outside, without, Zsets, ZsetsLaws}

abbrev pub Sets : Type 0
Sets = String → List Entry

abbrev put : String → List Entry → Sets → Sets
put k es s j = if k == j then es else s j

abbrev pub sorted_set : Zsets
sorted_set = record {
  State = Sets;
  entries = λ s. s;
  zremrangebyscore = λ k lo hi s. put k (outside lo hi (s k)) s;
  zcard = λ k s. length (s k);
  zadd = λ k score m s. put k ((score, m) ∷ without m (s k)) s;
  pexpire = λ k ms s. s;
  eval = λ f s. (ok (f s).0, (f s).1);
}

pub sorted_set_laws : ZsetsLaws sorted_set
sorted_set_laws = record {
  entries-zremrangebyscore = λ k lo hi s. ground (arith, eq_refl k);
  zcard-length = λ k s. refl;
  entries-zadd = λ k score m s. ground (arith, eq_refl k);
  entries-pexpire = λ k ms s. refl;
  eval_ok = λ f s n. ground arith;
}
