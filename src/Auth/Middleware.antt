-- ===== src/Auth/Middleware.antt =====
-- services/api-gateway/auth_middleware.go: who may call a handler.
pub mod Laws
use Prim.Native.Char.{Char, code}
use mygo_microservices.Prelude.{
  ℕ, ◌+◌, ◌-◌, String, ◌<>◌, ◌≡◌, Bool, true, false, Option, none, some, ◌==◌, ◌=ℕ=◌, ltb, leb,
  ◌&&◌, not, if◌then◌else◌, is_empty, trim_space,
}
use mygo_microservices.Go.{Error, message, Result, ok, err, Exec, pure, fail, lift, ◌>>=◌}
use mygo_microservices.Redis.{Kv}
use mygo_microservices.Auth.Tokens.{Claims, Signer, Jwt, parse, token_type_access}

abbrev pub revoked_key_prefix : String
revoked_key_prefix = "auth:revoked:"

abbrev pub refresh_key_prefix : String
refresh_key_prefix = "auth:refresh:"

-- `strings.SplitN(raw, " ", 2)`: what stands before the first space, and behind it.
unfoldable pub split_at_space : String → Option (String × String)
split_at_space String.[] = none
split_at_space (String.◌∷◌ c s) =
    let rest = split_at_space s in
    if code c =ℕ= 32
    then some ("", s)
    else elim rest [ none ↦ none | some p ↦ let (a, b) = p in some (String.◌∷◌ c a, b) ]

-- The code of a letter in lower case; `strings.EqualFold` differs from that for no letter of `bearer`.
abbrev lower : Char → ℕ
lower c = if leb 65 (code c) && leb (code c) 90 then code c + 32 else code c

unfoldable pub equal_fold : String → String → Bool
equal_fold String.[] String.[] = true
equal_fold String.[] (String.◌∷◌ d t) = false
equal_fold (String.◌∷◌ c s) String.[] = false
equal_fold (String.◌∷◌ c s) (String.◌∷◌ d t) =
    let rest = equal_fold s t in (lower c =ℕ= lower d) && rest

abbrev credentials : Option (String × String) → Result String
credentials none = err (message "malformed authorization header")
credentials (some (scheme, rest)) =
    if not (equal_fold (trim_space scheme) "bearer")
    then err (message "malformed authorization header")
    else if is_empty (trim_space rest)
    then err (message "empty bearer token")
    else ok (trim_space rest)

-- The token of an Authorization header.
unfoldable pub bearer_token : String → Result String
bearer_token raw =
    if is_empty raw
    then err (message "missing authorization header")
    else credentials (split_at_space raw)

-- `blacklistTTL`; the difference of instants is 0 where the first is not later.
abbrev pub blacklist_ttl : ℕ → ℕ → ℕ
blacklist_ttl exp now = exp - now

module _ (kv : Kv) (jwt : Jwt) (signer : Signer) where
  -- Whether the token was revoked.
  unfoldable pub check_revoked : Claims → Exec kv.State Claims
  check_revoked c =
      if is_empty c.id
      then pure c
      else (kv.exists_key (revoked_key_prefix <> c.id) >>= λ n.
          if ltb 0 n then fail (message "token has been revoked") else pure c)

  unfoldable pub check_claims : Result Claims → Exec kv.State Claims
  check_claims (err e) = fail (message "invalid token")
  check_claims (ok c) =
      if not (c.token_type == token_type_access)
      then fail (message "refresh token not allowed on business endpoints")
      else check_revoked c

  -- The Authorization header of the request, at an instant.
  unfoldable pub extract_and_verify_access_token : String → ℕ → Exec kv.State Claims
  extract_and_verify_access_token raw now =
      lift (bearer_token raw) >>= λ token. check_claims (parse jwt signer now token)
