-- ===== src/Auth/Handlers/Sessions.antt =====
-- services/api-gateway/auth_handler.go: login, rotation of refresh tokens, and logout.
pub mod Laws
pub mod Expiry
use mygo_microservices.Prelude.{
  ℕ, ◌/◌, String, ◌<>◌, Bool, Option, none, some, ltb, ◌=ℕ=◌, ◌==◌, ◌||◌, ◌&&◌, not, if◌then◌else◌,
  is_empty, trim_space,
}
use mygo_microservices.Go.{message, Error, Result, ok, err}
use mygo_microservices.Redis.{Kv}
use mygo_microservices.Auth.Tokens.{
  second, Claims, Signer, token_type_refresh, issue_access_token, issue_refresh_token, parse,
}
use mygo_microservices.Auth.Middleware.{revoked_key_prefix, refresh_key_prefix, blacklist_ttl}
use mygo_microservices.Auth.Handlers.{
  UserDoc, Fresh, AuthEnv, Accounts, LoginRequest, Reply, auth_error, token_pair, logged_out,
  find_by_phone, verify_password,
}

-- The times to live as the process was configured with.
pub record Ttls : Type 0 where
  pub access : ℕ
  pub refresh : ℕ

abbrev pub invalid_credentials : Reply
invalid_credentials = auth_error 401 "invalid_credentials"

abbrev pub invalid_refresh : Reply
invalid_refresh = auth_error 401 "invalid_refresh"

module _ (env : AuthEnv) (signer : Signer) (ttls : Ttls) where
  open env use {kv, users, jwt}

  abbrev pair : String → String → Reply
  pair access refresh = token_pair access refresh (ttls.access / second)

  -- A refresh token that cannot be noted in Redis is only logged.
  login_issued :
      UserDoc
      → Result (String × String)
      → Result (String × String)
      → Accounts env
      → Reply × Accounts env
  login_issued doc (err e) refresh w = (auth_error 500 "issue_failed", w)
  login_issued doc (ok (access, jti)) (err e) w = (auth_error 500 "issue_failed", w)
  login_issued doc (ok (access, jti)) (ok (refresh, refresh_jti)) w =
      let (r, s) = kv.set (refresh_key_prefix <> refresh_jti) doc.uuid ttls.refresh w.redis in
      (pair access refresh, record w { redis = s })

  login_found : Fresh → String → Result UserDoc → Accounts env → Reply × Accounts env
  login_found f password (err (message text)) w =
      if text == "user not found"
      then (invalid_credentials, w)
      else (auth_error 500 "lookup_failed", w)
  login_found f password (err e) w = (auth_error 500 "lookup_failed", w)
  login_found f password (ok doc) w =
      if not (verify_password env doc.password_hash password)
      then (invalid_credentials, w)
      else (login_issued doc (issue_access_token jwt signer doc.uuid doc.role f.now f.access_jti)
          (issue_refresh_token jwt signer doc.uuid doc.role f.now f.refresh_jti) w)

  unfoldable pub handle_login : Fresh → Result LoginRequest → Accounts env → Reply × Accounts env
  unfolding login_found login_issued
  handle_login f (err e) w = (auth_error 400 "bad_request", w)
  handle_login f (ok req) w =
      let phone = trim_space req.phone in
      if is_empty phone || is_empty req.password
      then (invalid_credentials, w)
      else (let (r, s) = find_by_phone env phone w.docs in
          login_found f req.password r (record w { docs = s }))

  -- First the new token is noted, then the old one is deleted; that it stays is only logged.
  unfoldable pub rotate : Claims → String → String → String → kv.State → Reply × kv.State
  rotate c access refresh new_jti s =
      let (r, s₁) = kv.set (refresh_key_prefix <> new_jti) c.user_id ttls.refresh s in
      elim r [
        | err e ↦ (auth_error 500 "redis_error", s₁)
        | ok u ↦ let (d, s₂) = kv.del (refresh_key_prefix <> c.id) s₁ in (pair access refresh, s₂)
      ]

  unfoldable pub refresh_issued :
      Claims → Result (String × String) → Result (String × String) → kv.State → Reply × kv.State
  refresh_issued c (err e) refresh s = (auth_error 500 "issue_failed", s)
  refresh_issued c (ok (access, jti)) (err e) s = (auth_error 500 "issue_failed", s)
  refresh_issued c (ok (access, jti)) (ok (refresh, new_jti)) s = rotate c access refresh new_jti s

  unfoldable pub refresh_known : Fresh → Claims → Result ℕ → kv.State → Reply × kv.State
  refresh_known f c (err e) s = (auth_error 500 "redis_error", s)
  refresh_known f c (ok n) s =
      if n =ℕ= 0
      then (invalid_refresh, s)
      else (refresh_issued c (issue_access_token jwt signer c.user_id c.role f.now f.access_jti)
          (issue_refresh_token jwt signer c.user_id c.role f.now f.refresh_jti) s)

  unfoldable pub refresh_parsed : Fresh → Result Claims → kv.State → Reply × kv.State
  refresh_parsed f (err e) s = (invalid_refresh, s)
  refresh_parsed f (ok c) s =
      if not (c.token_type == token_type_refresh) || is_empty c.id
      then (invalid_refresh, s)
      else (let (r, s') = kv.exists_key (refresh_key_prefix <> c.id) s in refresh_known f c r s')

  -- The argument is the refresh token that `decodeJSON` finds in the request.
  unfoldable pub handle_refresh : Fresh → Result String → kv.State → Reply × kv.State
  handle_refresh f (err e) s = (auth_error 400 "bad_request", s)
  handle_refresh f (ok token) s =
      if is_empty token
      then (invalid_refresh, s)
      else refresh_parsed f (parse jwt signer f.now token) s

  -- The access token goes onto the black list for the time it has left. The identifier and the
  -- expiry come from the middleware.
  unfoldable pub revoke : ℕ → String → ℕ → kv.State → Result (Unit {0}) × kv.State
  revoke now jti exp s =
      if is_empty jti || (blacklist_ttl exp now =ℕ= 0)
      then (ok tt, s)
      else kv.set (revoked_key_prefix <> jti) "1" (blacklist_ttl exp now) s

  -- A refresh token that comes with the request is deleted, and errors are dropped.
  unfoldable pub drop_refresh : Result Claims → kv.State → kv.State
  drop_refresh (err e) s = s
  drop_refresh (ok c) s =
      if (c.token_type == token_type_refresh) && not (is_empty c.id)
      then (kv.del (refresh_key_prefix <> c.id) s).1
      else s

  abbrev dropped : ℕ → String → kv.State → kv.State
  dropped now token s = if is_empty token then s else drop_refresh (parse jwt signer now token) s

  unfoldable pub after_revoke : ℕ → String → Result (Unit {0}) → kv.State → Reply × kv.State
  after_revoke now token (err e) s = (auth_error 500 "redis_error", s)
  after_revoke now token (ok u) s = (logged_out, dropped now token s)

  -- `token` is empty where the request brings no refresh token.
  unfoldable pub handle_logout : ℕ → String → ℕ → String → kv.State → Reply × kv.State
  unfolding revoke drop_refresh after_revoke
  handle_logout now jti exp token s =
      let (r, s') = revoke now jti exp s in after_revoke now token r s'
