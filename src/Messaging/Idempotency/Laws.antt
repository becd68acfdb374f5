-- ===== src/Messaging/Idempotency/Laws.antt =====
-- What a claim means, for every state of the server (shared/messaging/idempotency.go).
use mygo_microservices.Prelude.{
  ℕ, String, ◌<>◌, ◌≡◌, refl, true, false, Option, none, some, ◌==◌, is_empty, trim_space, arith,
  eq_iff, eq_refl, ◌<◌,
}
use text.Mathlib.TextLemmas.{cons-append}
use mygo_microservices.Go.{nil_reply, message, Result, ok, err}
use mygo_microservices.Redis.{Kv, KvLaws, client}
use mygo_microservices.Messaging.Idempotency.{
  Delivery, MessageProcessClaim, idempotency_state_processing, idempotency_state_done, message_key,
  claim_key, claim_message_for_processing, mark_message_processed, release_message_processing,
  judge, build_processed_message_key, resolve_message_id,
}

-- A key is never the empty text.
pub keyed :
    (digest : String → String) (namespace : String) (msg : Delivery)
    → is_empty (message_key digest namespace msg) ≡ false
unfolding message_key build_processed_message_key
keyed digest namespace msg = rw (
    cons-append "i" "dem:"
      (trim_space namespace <> (":" <> trim_space (resolve_message_id digest msg))))

-- The state machine of one key: absent, processing, done.
abbrev pub verdict : String → Option String → Result MessageProcessClaim
verdict key none = ok (record { key = key; already_processed = false })
verdict key (some state) = elim (state == idempotency_state_done) [
  | true ↦ ok (record { key = key; already_processed = true })
  | false ↦ err (message ("message is still processing, key=" <> key))
]

module _ (kv : Kv) (laws : KvLaws kv) where
  open kv use {State, lookup, IsUp}

  pub claim_key_up :
      (key : String) (ttl : ℕ) (s : State)
      → IsUp s
      → (claim_key kv key ttl s).0 ≡ verdict key (lookup s key)
  unfolding claim_key judge
  claim_key_up key ttl s up = ground (
    arith,
    laws.up_set_nx key idempotency_state_processing ttl s up,
    laws.set_nx_lost key idempotency_state_processing ttl s,
    laws.up_get key (kv.set_nx key idempotency_state_processing ttl s).1
        (laws.set_nx-IsUp key idempotency_state_processing ttl s up),
  )

  -- Only an answer `done` is taken for a finished message, and looking changes nothing.
  judge_ok :
      (key : String) (r : Result String) (s : State) (c : MessageProcessClaim)
      → (judge kv key r s).0 ≡ ok c
      → (r ≡ ok idempotency_state_done) × (c ≡ record { key = key; already_processed = true })
  unfolding judge
  judge_ok key (ok state) s c h = ground (arith, eq_iff state idempotency_state_done)
  judge_ok key (err nil_reply) s c h = cc
  judge_ok key (err e) s c h = cc

  judge_state : (key : String) (r : Result String) (s : State) → (judge kv key r s).1 ≡ s
  unfolding judge
  judge_state key (ok state) s = ground arith
  judge_state key (err nil_reply) s = refl
  judge_state key (err e) s = refl

  pub claim_key_ok :
      (key : String) (ttl : ℕ) (s : State) (c : MessageProcessClaim)
      → (claim_key kv key ttl s).0 ≡ ok c
      → (c.key ≡ key)
        × (c.already_processed ≡ false
            → (lookup s key ≡ none)
              × (lookup (claim_key kv key ttl s).1 key ≡ some idempotency_state_processing))
        × (c.already_processed ≡ true
            → (lookup s key ≡ some idempotency_state_done)
              × (lookup (claim_key kv key ttl s).1 key ≡ some idempotency_state_done))
  unfolding claim_key
  claim_key_ok key ttl s c h =
      let s' : State = (kv.set_nx key idempotency_state_processing ttl s).1 in
      let r : Result String = (kv.get key s').0 in
      ground (
        arith,
        laws.set_nx_won key idempotency_state_processing ttl s,
        laws.set_nx_lost key idempotency_state_processing ttl s,
        laws.get_hit key s' idempotency_state_done,
        laws.get_keeps key key s',
        judge_ok key r (kv.get key s').1 c,
        judge_state key r (kv.get key s').1,
      )

module _ (kv : Kv) (laws : KvLaws kv) (digest : String → String) (namespace : String)
    (msg : Delivery) (ttl : ℕ) where
  open kv use {State, lookup, IsUp}

  -- The key that a claim of the message uses.
  abbrev pub claimed_key : String
  claimed_key = message_key digest namespace msg

  abbrev pub claim : State → Result MessageProcessClaim × State
  claim = claim_message_for_processing kv digest client namespace msg ttl

  pub claim-IsUp : (s : State) → IsUp s → IsUp (claim s).1
  unfolding claim_message_for_processing claim_key
  claim-IsUp s up =
      let s' : State = (kv.set_nx claimed_key idempotency_state_processing ttl s).1 in
      ground (
        arith,
        laws.set_nx-IsUp claimed_key idempotency_state_processing ttl s up,
        laws.get-IsUp claimed_key s',
        judge_state kv laws claimed_key (kv.get claimed_key s').0 (kv.get claimed_key s').1,
      )

  -- With the server up, a claim by a live client, with a namespace and a positive ttl, answers what
  -- the key holds: fresh where it is absent, already processed where it says done, and an error for
  -- anything else.
  pub claim-verdict :
      (s : State)
      → IsUp s
      → is_empty namespace ≡ false
      → 0 < ttl
      → (claim s).0 ≡ verdict claimed_key (lookup s claimed_key)
  unfolding claim_message_for_processing
  claim-verdict s up named positive = ground (arith, claim_key_up kv laws claimed_key ttl s up)

  -- Whatever fails, a claim that succeeds is right about its key: fresh means that no other holder
  -- was there and the key now says processing, already processed means that the key says done.
  pub claim_sound :
      (s : State) (c : MessageProcessClaim)
      → (claim s).0 ≡ ok c
      → (c.key ≡ claimed_key)
        × (c.already_processed ≡ false
            → (lookup s claimed_key ≡ none)
              × (lookup (claim s).1 claimed_key ≡ some idempotency_state_processing))
        × (c.already_processed ≡ true
            → (lookup s claimed_key ≡ some idempotency_state_done)
              × (lookup (claim s).1 claimed_key ≡ some idempotency_state_done))
  unfolding claim_message_for_processing
  claim_sound s c h = ground (arith, claim_key_ok kv laws claimed_key ttl s c)

  -- With the server up, a namespace and a positive ttl: after the message is marked as processed, a
  -- claim of it answers that it was processed.
  pub claim-mark :
      (s : State)
      → IsUp s
      → is_empty namespace ≡ false
      → 0 < ttl
      → (claim (mark_message_processed kv client claimed_key ttl s).1).0
        ≡ ok (record { key = claimed_key; already_processed = true })
  unfolding mark_message_processed
  claim-mark s up named positive =
      let s' : State = (kv.set claimed_key idempotency_state_done ttl s).1 in
      ground (
        arith,
        laws.up_set claimed_key idempotency_state_done ttl s up,
        laws.set_done claimed_key idempotency_state_done ttl claimed_key s,
        laws.set-IsUp claimed_key idempotency_state_done ttl s up,
        eq_refl claimed_key,
        keyed digest namespace msg,
        claim-verdict s',
      )

  -- With the server up, a namespace and a positive ttl: after the key is released, a claim of the
  -- message is fresh.
  pub claim-release :
      (s : State)
      → IsUp s
      → is_empty namespace ≡ false
      → 0 < ttl
      → (claim (release_message_processing kv client claimed_key s).1).0
        ≡ ok (record { key = claimed_key; already_processed = false })
  unfolding release_message_processing
  claim-release s up named positive =
      let s' : State = (kv.del claimed_key s).1 in
      ground (
        arith,
        laws.up_del claimed_key s up,
        laws.del_done claimed_key claimed_key s,
        laws.del-IsUp claimed_key s up,
        eq_refl claimed_key,
        keyed digest namespace msg,
        claim-verdict s',
      )
