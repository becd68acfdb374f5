-- ===== src/Fake/Broker.antt =====
-- A broker that takes every message while it is up, and an encoding of messages that is undone.
use mygo_microservices.Prelude.{
  String, ◌≡◌, refl, Bool, true, false, Option, none, some, List, [], ◌∷◌, ◌++◌, ◌=ℕ=◌,
  if◌then◌else◌, arith, ap,
}
use Prim.Native.Char.{Char, code}
use mygo_microservices.Go.{external, message, Result, ok, err, Exec, Codec, CodecLaws, Encodes}
use mygo_microservices.Contracts.{AmqpMessage}
use mygo_microservices.Messaging.Publish.{Publishing, Published, Bus, BusLaws}

pub record Log : Type 0 where
  pub taken : List Published
  pub up : Bool

abbrev publish_with_context : String → String → Publishing → Exec Log (Unit {0})
publish_with_context x k p s =
    if s.up
    then (
      ok tt,
      record s { taken = s.taken ++ record { exchange = x; routing_key = k; publishing = p } ∷ [] },
    )
    else (err (external "channel closed"), s)

abbrev pub broker : Bus
broker = record {
  State = Log;
  published = λ s. s.taken;
  IsUp = λ s. s.up ≡ true;
  new_uuid = λ s. "uuid";
  publish_with_context = publish_with_context;
}

pub broker_laws : BusLaws broker
broker_laws = record {
  publish_done = λ x k p s. ground arith;
  publish_failed = λ x k p s e. ground arith;
  uuid_named = λ s. refl;
  up_publish = λ x k p s. ground arith;
  publish-IsUp = λ x k p s. ground arith;
}

-- The owner's characters each behind a dot, then a bar, then the content.
unfoldable pub join : String → String → String
join String.[] content = String.◌∷◌ "|" content
join (String.◌∷◌ c owner) content = String.◌∷◌ "." (String.◌∷◌ c (join owner content))

abbrev behind : Char → Option AmqpMessage → Option AmqpMessage
behind c none = none
behind c (some m) = some (record m { owner_id = String.◌∷◌ c m.owner_id })

-- `true` where a mark is due.
pub split : Bool → String → Option AmqpMessage
split b String.[] = none
split true (String.◌∷◌ c text) =
    let rest = split false text in
    if code c =ℕ= 46 then rest else some (record { owner_id = ""; content = text })
split false (String.◌∷◌ c text) = behind c (split true text)

pub split-join :
    (owner content : String)
    → split true (join owner content) ≡ some (record { owner_id = owner; content = content })
unfolding split join
split-join String.[] content = refl
split-join (String.◌∷◌ c owner) content = ap (behind c) (split-join owner content)

abbrev decoded : Option AmqpMessage → Result AmqpMessage
decoded none = err (message "invalid message")
decoded (some m) = ok m

abbrev pub joined : Codec AmqpMessage
joined = record {
  encode = λ m. ok (join m.owner_id m.content);
  decode = λ text. decoded (split true text);
}

pub joined_laws : CodecLaws joined
joined_laws = record {
  decode-encode = λ m t e. ground (arith, ap decoded (split-join m.owner_id m.content));
}

pub joined-Encodes : Encodes joined
joined-Encodes = record { text = λ m. join m.owner_id m.content; encode-text = λ m. refl }
