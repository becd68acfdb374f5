-- ===== src/Auth/Handlers/Sessions/Expiry.antt =====
-- What an access token is good for, once it was given up: until its expiry nothing, and then, for half
-- a minute, everything.
use mygo_microservices.Prelude.{
  ℕ, ◌+◌, ◌<◌, ◌≤◌, String, ◌<>◌, ◌≡◌, refl, inr, false, some, subst, arith, eq_iff, eq_refl,
  is_empty,
}
use mygo_microservices.Go.{message, ok, err}
use mygo_microservices.Redis.{KvLaws, Clock, ClockLaws, millisecond}
use mygo_microservices.Auth.Tokens.{
  Claims, Signer, JwtLaws, clock_skew, parse, claims_of, token_type_access, numeric_date,
}
use mygo_microservices.Auth.Middleware.{
  revoked_key_prefix, blacklist_ttl, bearer_token, check_revoked, check_claims,
  extract_and_verify_access_token,
}
use mygo_microservices.Auth.Middleware.Laws.{IsAdmitted-extract}
use mygo_microservices.Auth.Handlers.{AuthEnv, logged_out}
use mygo_microservices.Auth.Handlers.Sessions.{Ttls, revoke, after_revoke, handle_logout}

module _ (env : AuthEnv) (laws : KvLaws env.kv) (clock : Clock env.kv)
    (clock_laws : ClockLaws env.kv clock) (signer : Signer) (ttls : Ttls) where
  open env use {kv, jwt}
  open clock use {elapse}

  logout_run :
      (logout exp : ℕ) (jti : String) (s : kv.State)
      → is_empty jti ≡ false
      → logout < exp
      → kv.IsUp s
      → handle_logout env signer ttls logout jti exp "" s
        ≡ (logged_out, (kv.set (revoked_key_prefix <> jti) "1" (blacklist_ttl exp logout) s).1)
  unfolding handle_logout revoke after_revoke
  logout_run logout exp jti s named before up = ground (
    arith,
    named,
    before,
    laws.up_set (revoked_key_prefix <> jti) "1" (blacklist_ttl exp logout) s up,
  )

  revoked_refused :
      (now : ℕ) (raw t : String) (c : Claims) (v : String) (s : kv.State)
      → is_empty c.id ≡ false
      → bearer_token raw ≡ ok t
      → parse jwt signer now t ≡ ok c
      → c.token_type ≡ token_type_access
      → kv.lookup s (revoked_key_prefix <> c.id) ≡ some v
      → kv.IsUp s
      → (extract_and_verify_access_token kv jwt signer raw now s).0
        ≡ err (message "token has been revoked")
  unfolding extract_and_verify_access_token check_claims check_revoked
  revoked_refused now raw t c v s named header valid kind there up = ground (
    arith,
    named,
    header,
    valid,
    (eq_iff c.token_type token_type_access).1 kind,
    there,
    laws.up_exists (revoked_key_prefix <> c.id) s up,
  )

  -- What a logout leaves behind, while Redis is up.
  abbrev blacklisted : ℕ → ℕ → String → kv.State → kv.State
  blacklisted logout exp jti s =
      (kv.set (revoked_key_prefix <> jti) "1" (blacklist_ttl exp logout) s).1

  blacklisted-lookup :
      (logout exp : ℕ) (jti : String) (s : kv.State)
      → kv.IsUp s
      → kv.lookup (blacklisted logout exp jti s) (revoked_key_prefix <> jti) ≡ some "1"
  blacklisted-lookup logout exp jti s up =
      let k = revoked_key_prefix <> jti in
      let ttl = blacklist_ttl exp logout in
      ground (arith, laws.set_done k "1" ttl k s (laws.up_set k "1" ttl s up), eq_refl k)

  -- A logout without a refresh token, while Redis is up, takes an access token with an identifier out
  -- of use: until a millisecond before the expiry that the logout was told, and while Redis is up and
  -- has had no other call, the middleware refuses every token with that identifier that the signer
  -- accepts.
  pub handle_logout-revoked :
      (logout exp d : ℕ) (raw t : String) (c : Claims) (s : kv.State)
      → is_empty c.id ≡ false
      → logout + d + millisecond ≤ exp
      → bearer_token raw ≡ ok t
      → parse jwt signer (logout + d) t ≡ ok c
      → c.token_type ≡ token_type_access
      → kv.IsUp s
      → kv.IsUp (elapse d (handle_logout env signer ttls logout c.id exp "" s).1)
      → let (answer, s') = handle_logout env signer ttls logout c.id exp "" s in
        (answer ≡ logged_out)
        × ((extract_and_verify_access_token kv jwt signer raw (logout + d) (elapse d s')).0
            ≡ err (message "token has been revoked"))
  handle_logout-revoked logout exp d raw t c s named before header valid kind up later_up =
      let k = revoked_key_prefix <> c.id in
      let ttl = blacklist_ttl exp logout in
      let run = logout_run logout exp c.id s named (omega (arith, before)) up in
      let (left, kept, most, least) =
        clock_laws.set_remaining k "1" ttl s (omega (arith, before)) (laws.up_set k "1" ttl s up) in
      let there =
        clock_laws.elapse_live k "1" left d (blacklisted logout exp c.id s)
          (blacklisted-lookup logout exp c.id s up) kept (omega (arith, before, least)) in
      let still = subst (λ z. kv.IsUp (elapse d z.1)) run later_up in
      rw run (
        refl,
        revoked_refused (logout + d) raw t c "1" (elapse d (blacklisted logout exp c.id s)) named
            header valid kind there still,
      )

  -- The logout puts a token on the black list for the time until its expiry, but the signer accepts
  -- the token for half a minute more: an issued access token that was logged out a millisecond before
  -- its expiry or earlier gets past the middleware from its expiry on until that half minute is over,
  -- where Redis is up at both times and had no other call in between.
  pub handle_logout-revived :
      (jwt_laws : JwtLaws jwt) (raw t user_id role jti : String) (issued logout d : ℕ)
      (s : kv.State)
      → let c = claims_of jwt signer user_id role token_type_access signer.access_ttl issued jti in
        let exp = numeric_date (issued + signer.access_ttl) in
        bearer_token raw ≡ ok t
        → jwt.signed_string signer.secret c ≡ ok t
        → is_empty jti ≡ false
        → issued ≤ logout
        → logout + millisecond ≤ exp
        → exp ≤ logout + d
        → logout + d < exp + clock_skew
        → kv.IsUp s
        → kv.IsUp (elapse d (handle_logout env signer ttls logout jti exp "" s).1)
        → let (answer, s') = handle_logout env signer ttls logout jti exp "" s in
          (answer ≡ logged_out)
          × ((extract_and_verify_access_token kv jwt signer raw (logout + d) (elapse d s')).0
              ≡ ok c)
  unfolding parse claims_of
  handle_logout-revived jwt_laws raw t user_id role jti issued logout d s header signed named after
        before over late up later_up =
      let c = claims_of jwt signer user_id role token_type_access signer.access_ttl issued jti in
      let exp : ℕ = numeric_date (issued + signer.access_ttl) in
      let k = revoked_key_prefix <> jti in
      let ttl = blacklist_ttl exp logout in
      let run = logout_run logout exp jti s named (omega (arith, before)) up in
      let (left, kept, most, least) =
        clock_laws.set_remaining k "1" ttl s (omega (arith, before)) (laws.up_set k "1" ttl s up) in
      let gone =
        clock_laws.elapse_gone k left d (blacklisted logout exp jti s) kept
          (omega (arith, most, over)) in
      let still = subst (λ z. kv.IsUp (elapse d z.1)) run later_up in
      let read =
        jwt_laws.parse-signed signer.secret signer.issuer clock_skew (logout + d) t c signed refl
          (omega (arith, after)) (omega (arith, late)) in
      rw run (
        refl,
        IsAdmitted-extract kv laws jwt signer raw (logout + d)
            (elapse d (blacklisted logout exp jti s)) c still
            (record {
              token = t;
              header = header;
              valid = ground (arith, read);
              access = refl;
              kept = inr gone;
            }),
      )
