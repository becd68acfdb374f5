-- ===== src/Examples/Accounts.antt =====
-- Tokens and sessions at concrete inputs.
use mygo_microservices.Prelude.{
  ◌*◌, String, ◌<>◌, ◌≡◌, refl, true, none, some, ◌==◌, if◌then◌else◌, arith, trim_space,
}
use mygo_microservices.Go.{message, no_documents, ok, err}
use mygo_microservices.Fake.RedisTable.{
  Table, table_kv, table_laws, elapse, table_clock, table_clock_laws,
}
use mygo_microservices.Fake.Accounts.{one_token, one_token_laws}
use mygo_microservices.Auth.Tokens.{
  second, Claims, Signer, Jwt, issue, claims_of, parse, token_type_access, token_type_refresh,
}
use mygo_microservices.Auth.Middleware.{
  refresh_key_prefix, split_at_space, equal_fold, bearer_token, check_revoked, check_claims,
  extract_and_verify_access_token,
}
use mygo_microservices.Auth.Middleware.Laws.{IsAdmitted, extract_and_verify_access_token-IsAdmitted}
use mygo_microservices.Auth.Handlers.{UserCollection, AuthEnv, Fresh, token_pair, logged_out}
use mygo_microservices.Auth.Handlers.Sessions.{
  Ttls, invalid_refresh, handle_refresh, refresh_parsed, refresh_known, refresh_issued, rotate,
  revoke, after_revoke, handle_logout,
}
use mygo_microservices.Auth.Handlers.Sessions.Laws.{handle_refresh-rotated}
use mygo_microservices.Auth.Handlers.Sessions.Expiry.{handle_logout-revoked, handle_logout-revived}

abbrev signer : Signer
signer = record {
  secret = "0123456789";
  issuer = "ride-sharing";
  access_ttl = 900 * second;
  refresh_ttl = 604800 * second;
}

abbrev claims : Claims
claims = record {
  user_id = "rider-1";
  role = "rider";
  token_type = token_type_access;
  issuer = "ride-sharing";
  subject = "rider-1";
  id = "jti-1";
  issued_at = some 0;
  not_before = some 0;
  expires_at = some (900 * second);
}

abbrev jwt : Jwt
jwt = one_token claims

abbrev no_keys : Table
no_keys = record { cell = λ k. none; left = λ k. none; up = true }

abbrev header : String
header = "Bearer token"

header_token : bearer_token header ≡ ok "token"
unfolding bearer_token split_at_space equal_fold trim_space
header_token = refl

extract_and_verify_access_token-IsAdmitted_example :
    IsAdmitted table_kv table_laws jwt signer header 0 no_keys claims
unfolding extract_and_verify_access_token bearer_token split_at_space equal_fold trim_space
    check_claims check_revoked parse
extract_and_verify_access_token-IsAdmitted_example =
    extract_and_verify_access_token-IsAdmitted table_kv table_laws jwt signer header 0 no_keys
      claims refl

abbrev no_users : UserCollection
no_users = record {
  State = Unit;
  insert_one = λ u s. (ok tt, s);
  find_phone = λ phone s. (err no_documents, s);
}

abbrev env_of : Jwt → AuthEnv
env_of j = record {
  kv = table_kv;
  users = no_users;
  jwt = j;
  generate_from_password = λ plain. ok plain;
  compare_hash_and_password = λ hashed plain. hashed == plain;
}

abbrev ttls : Ttls
ttls = record { access = 900 * second; refresh = 604800 * second }

abbrev refresh_claims : Claims
refresh_claims = record claims { token_type = token_type_refresh }

-- Every token reads as the same refresh token; a new one is its type.
abbrev refreshing : Jwt
refreshing = record {
  signed_string = λ secret c. ok c.token_type;
  parse_with_claims = λ secret issuer leeway now t. ok refresh_claims;
}

abbrev one_session : Table
one_session = record {
  cell = λ k. if k == "auth:refresh:jti-1" then some "rider-1" else none;
  left = λ k. none;
  up = true;
}

abbrev first : Fresh
first = record { now = 0; access_jti = "jti-2"; refresh_jti = "jti-3"; user_uuid = "" }

abbrev second_use : Fresh
second_use = record { now = 1; access_jti = "jti-4"; refresh_jti = "jti-5"; user_uuid = "" }

handle_refresh-rotated_example :
    let (answer, s) = handle_refresh (env_of refreshing) signer ttls first (ok "old") one_session in
    (answer ≡ token_pair "access" "refresh" 900)
    × (s.cell (refresh_key_prefix <> "jti-3") ≡ some "rider-1")
    × ((handle_refresh (env_of refreshing) signer ttls second_use (ok "old") (elapse 1 s)).0
        ≡ invalid_refresh)
unfolding parse claims_of handle_refresh refresh_parsed refresh_known refresh_issued rotate issue
handle_refresh-rotated_example =
    handle_refresh-rotated (env_of refreshing) table_laws signer ttls table_clock table_clock_laws
      first second_use "old" "access" "refresh" "rider-1" refresh_claims 1 one_session refl refl
      refl refl refl refl refl refl refl refl refl refl

handle_logout-revoked_example :
    let (answer, s) = handle_logout (env_of jwt) signer ttls 0 "jti-1" (900 * second) "" no_keys in
    (answer ≡ logged_out)
    × ((extract_and_verify_access_token table_kv jwt signer header
          (899 * second)
          (elapse (899 * second) s)).0
        ≡ err (message "token has been revoked"))
unfolding parse handle_logout revoke after_revoke
handle_logout-revoked_example =
    handle_logout-revoked (env_of jwt) table_laws table_clock table_clock_laws signer ttls 0
      (900 * second) (899 * second) header "token" claims no_keys refl (omega arith) header_token
      refl refl refl refl

-- Logged out when it was issued, and shown again one second after its expiry.
handle_logout-revived_example :
    let (answer, s) = handle_logout (env_of jwt) signer ttls 0 "jti-1" (900 * second) "" no_keys in
    (answer ≡ logged_out)
    × ((extract_and_verify_access_token table_kv jwt signer header
          (901 * second)
          (elapse (901 * second) s)).0
        ≡ ok (claims_of jwt signer "rider-1" "rider" token_type_access (900 * second) 0 "jti-1"))
unfolding claims_of handle_logout revoke after_revoke
handle_logout-revived_example =
    handle_logout-revived (env_of jwt) table_laws table_clock table_clock_laws signer ttls
      (one_token_laws claims) header "token" "rider-1" "rider" "jti-1" 0 0 (901 * second) no_keys
      header_token refl refl (omega arith) (omega arith) (omega arith) (omega arith) refl refl
