-- ===== src/Auth/Handlers/Sessions/Laws.antt =====
-- What a refresh token is good for, once it was used.
use mygo_microservices.Prelude.{
  ℕ, ◌/◌, String, ◌<>◌, ◌≡◌, refl, subst, false, none, some, ◌==◌, arith, eq_iff, eq_refl, is_empty,
}
use mygo_microservices.Go.{ok}
use mygo_microservices.Redis.{KvLaws, Clock, ClockLaws}
use mygo_microservices.Auth.Tokens.{
  second, Claims, Signer, issue, claims_of, parse, token_type_access, token_type_refresh,
}
use mygo_microservices.Auth.Middleware.{refresh_key_prefix}
use mygo_microservices.Auth.Handlers.{AuthEnv, Fresh, token_pair}
use mygo_microservices.Auth.Handlers.Sessions.{
  Ttls, invalid_refresh, rotate, refresh_issued, refresh_known, refresh_parsed, handle_refresh,
}

module _ (env : AuthEnv) (laws : KvLaws env.kv) (signer : Signer) (ttls : Ttls) where
  open env use {kv, jwt}

  -- A refresh token that Redis does not know is refused.
  unknown_refused :
      (f : Fresh) (t : String) (c : Claims) (s : kv.State)
      → is_empty t ≡ false
      → parse jwt signer f.now t ≡ ok c
      → kv.lookup s (refresh_key_prefix <> c.id) ≡ none
      → kv.IsUp s
      → (handle_refresh env signer ttls f (ok t) s).0 ≡ invalid_refresh
  unfolding handle_refresh refresh_parsed refresh_known
  unknown_refused f t c s named valid gone up =
      ground (arith, named, valid, gone, laws.up_exists (refresh_key_prefix <> c.id) s up)

  module _ (f : Fresh) (t access refresh : String) (c : Claims) (s : kv.State) where
    old_key : String
    old_key = refresh_key_prefix <> c.id

    new_key : String
    new_key = refresh_key_prefix <> f.refresh_jti

    rotated : kv.State
    rotated =
        (kv.del old_key (kv.set new_key c.user_id ttls.refresh (kv.exists_key old_key s).1).1).1

    -- How the handler runs where every call answers.
    refresh_run :
        (v : String)
        → is_empty t ≡ false
        → parse jwt signer f.now t ≡ ok c
        → c.token_type ≡ token_type_refresh
        → is_empty c.id ≡ false
        → is_empty c.user_id ≡ false
        → kv.lookup s old_key ≡ some v
        → jwt.signed_string signer.secret (
            claims_of jwt signer c.user_id c.role token_type_access signer.access_ttl f.now
              f.access_jti)
          ≡ ok access
        → jwt.signed_string signer.secret (
            claims_of jwt signer c.user_id c.role token_type_refresh signer.refresh_ttl f.now
              f.refresh_jti)
          ≡ ok refresh
        → kv.IsUp s
        → handle_refresh env signer ttls f (ok t) s
          ≡ (token_pair access refresh (ttls.access / second), rotated)
    unfolding handle_refresh refresh_parsed refresh_known refresh_issued rotate issue old_key
        new_key rotated
    refresh_run v named valid kind id user known a r up =
        let s₁ = (kv.exists_key old_key s).1 in
        let up₁ = laws.exists-IsUp old_key s up in
        ground (
          arith,
          named,
          valid,
          (eq_iff c.token_type token_type_refresh).1 kind,
          id,
          user,
          known,
          a,
          r,
          laws.up_exists old_key s up,
          laws.up_set new_key c.user_id ttls.refresh s₁ up₁,
        )

    rotated-lookup :
        (new_key == old_key) ≡ false
        → kv.IsUp s
        → (kv.lookup rotated old_key ≡ none)
          × (kv.lookup rotated new_key ≡ some c.user_id)
          × kv.IsUp rotated
    unfolding rotated
    rotated-lookup apart up =
        let s₁ = (kv.exists_key old_key s).1 in
        let up₁ = laws.exists-IsUp old_key s up in
        let set = laws.up_set new_key c.user_id ttls.refresh s₁ up₁ in
        let s₂ = (kv.set new_key c.user_id ttls.refresh s₁).1 in
        let up₂ = laws.set-IsUp new_key c.user_id ttls.refresh s₁ up₁ in
        let del = laws.up_del old_key s₂ up₂ in
        (
          ground (arith, laws.del_done old_key old_key s₂ del, eq_refl old_key),
          ground (
            arith,
            laws.del_done old_key new_key s₂ del,
            laws.set_done new_key c.user_id ttls.refresh new_key s₁ set,
            eq_refl new_key,
            eq_iff old_key new_key,
            eq_iff new_key old_key,
            apart,
          ),
          laws.del-IsUp old_key s₂ up₂,
        )

  -- While Redis is up, a valid refresh token of a user that Redis knows, and whose pair of new tokens
  -- can be signed, the refresh token under another identifier, is exchanged for that pair: the new
  -- refresh token is noted for the user, and the old one, shown again after any time in which Redis
  -- had no other call, and at which it is up, is refused, also while the signer still accepts it.
  pub handle_refresh-rotated :
      (clock : Clock kv) (clock_laws : ClockLaws kv clock) (f g : Fresh)
      (t access refresh v : String) (c : Claims) (d : ℕ) (s : kv.State)
      → is_empty t ≡ false
      → parse jwt signer f.now t ≡ ok c
      → parse jwt signer g.now t ≡ ok c
      → c.token_type ≡ token_type_refresh
      → is_empty c.id ≡ false
      → is_empty c.user_id ≡ false
      → kv.lookup s (refresh_key_prefix <> c.id) ≡ some v
      → ((refresh_key_prefix <> f.refresh_jti) == (refresh_key_prefix <> c.id)) ≡ false
      → jwt.signed_string signer.secret (
          claims_of jwt signer c.user_id c.role token_type_access signer.access_ttl f.now
            f.access_jti)
        ≡ ok access
      → jwt.signed_string signer.secret (
          claims_of jwt signer c.user_id c.role token_type_refresh signer.refresh_ttl f.now
            f.refresh_jti)
        ≡ ok refresh
      → kv.IsUp s
      → kv.IsUp (clock.elapse d (handle_refresh env signer ttls f (ok t) s).1)
      → let (answer, s') = handle_refresh env signer ttls f (ok t) s in
        (answer ≡ token_pair access refresh (ttls.access / second))
        × (kv.lookup s' (refresh_key_prefix <> f.refresh_jti) ≡ some c.user_id)
        × ((handle_refresh env signer ttls g (ok t) (clock.elapse d s')).0 ≡ invalid_refresh)
  unfolding old_key new_key
  handle_refresh-rotated clock clock_laws f g t access refresh v c d s named valid again kind id
        user known apart a r up later_up =
      let (gone, noted, up') = rotated-lookup f t access refresh c s apart up in
      let run = refresh_run f t access refresh c s v named valid kind id user known a r up in
      let end : kv.State = rotated f t access refresh c s in
      let absent = clock_laws.elapse_absent (refresh_key_prefix <> c.id) d end gone in
      let still = subst (λ z. kv.IsUp (clock.elapse d z.1)) run later_up in
      rw run (refl, noted, unknown_refused g t c (clock.elapse d end) named again absent still)
