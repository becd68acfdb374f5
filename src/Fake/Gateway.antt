-- ===== src/Fake/Gateway.antt =====
-- Web sockets that always take a message, and a channel that always answers.
use mygo_microservices.Prelude.{
  String, ◌≡◌, Bool, true, false, Option, none, some, List, [], ◌∷◌, ◌++◌, ◌==◌, ◌&&◌,
  if◌then◌else◌, arith, eq_refl, eq_iff,
}
use mygo_microservices.Go.{external, ok, err, Exec}
use mygo_microservices.Contracts.{WsMessage}
use mygo_microservices.Messaging.Sockets.{Sockets}
use mygo_microservices.Messaging.Topology.{Channel, ChannelLaws}

abbrev pub sockets : Sockets
sockets = record {
  Conn = String;
  State = List (String × WsMessage);
  write_json = λ c m s. (some (ok tt), s ++ (c, m) ∷ []);
}

-- What has been declared.
pub record Declared : Type 0 where
  pub exchanges : String → Bool
  pub dead : String → Option String
  pub binding : String → String → String → Bool

-- A queue cannot be declared again with another exchange for its dead letters.
abbrev allows : Option String → Option String → Bool
allows none o = true
allows (some x) none = false
allows (some x) (some y) = x == y

abbrev declare : String → Option String → Exec Declared (Unit {0})
declare q o s =
    if allows (s.dead q) o
    then (ok tt, record s { dead = λ p. if q == p then o else s.dead p })
    else (err (external "PRECONDITION_FAILED"), s)

abbrev pub channel : Channel
channel = record {
  State = Declared;
  IsUp = λ s. Unit;
  is_exchange = λ s. s.exchanges;
  dead_letters = λ s. s.dead;
  bound = λ s. s.binding;
  exchange_declare =
      λ n s. (ok tt, record s { exchanges = λ m. if n == m then true else s.exchanges m });
  queue_declare = declare;
  queue_bind = λ q k x s. (
    ok tt,
    record s {
      binding = λ y j p. if (x == y) && ((k == j) && (q == p)) then true else s.binding y j p;
    },
  );
}

abbrev pub nothing_declared : Declared
nothing_declared = record { exchanges = λ n. false; dead = λ q. none; binding = λ x k q. false }

allows_same : (a o : Option String) (x : String) → a ≡ some x → allows a o ≡ true → o ≡ some x
allows_same none o x e h = absurd (ground (arith, e))
allows_same (some y) none x e h = absurd (ground (arith, h))
allows_same (some y) (some z) x e h = ground (arith, e, h, eq_iff y z)

pub channel_laws : ChannelLaws channel
channel_laws = record {
  queue_declare_done = λ q x s. ground (arith, eq_refl q);
  queue_declare_keeps = λ q p x o s. ground (arith, eq_iff q p, allows_same (s.dead q) o x);
  queue_declare_bound = λ q x k p o s. ground arith;
  queue_bind_done = λ q k x s. ground (arith, eq_refl q, eq_refl k, eq_refl x);
  queue_bind_bound = λ q k x p j y s. ground arith;
  queue_bind_keeps = λ q k x p y s. ground arith;
  exchange_declare_bound = λ n x k p s. ground arith;
}
