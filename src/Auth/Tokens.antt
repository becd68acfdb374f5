-- ===== src/Auth/Tokens.antt =====
-- shared/auth: claims.go and jwt.go, over github.com/golang-jwt/jwt and its HMAC. An instant is a number
-- of nanoseconds; the claims keep whole seconds.
use mygo_microservices.Prelude.{
  ℕ, ◌+◌, ◌*◌, ◌/◌, ◌≤◌, ◌<◌, String, ◌≡◌, Bool, Option, none, some, ◌==◌, ◌||◌, if◌then◌else◌,
  is_empty,
}
use mygo_microservices.Go.{message, Result, ok, err}

abbrev pub second : ℕ
second = 1_000_000_000

abbrev pub clock_skew : ℕ
clock_skew = 30 * second

abbrev pub role_rider : String
role_rider = "rider"

abbrev pub role_driver : String
role_driver = "driver"

-- `Role.IsValid`
abbrev pub is_valid_role : String → Bool
is_valid_role r = r == role_rider || r == role_driver

abbrev pub token_type_access : String
token_type_access = "access"

abbrev pub token_type_refresh : String
token_type_refresh = "refresh"

pub record Claims : Type 0 where
  pub user_id : String
  pub role : String
  pub token_type : String
  pub issuer : String
  pub subject : String
  pub id : String
  pub issued_at : Option ℕ
  pub not_before : Option ℕ
  pub expires_at : Option ℕ

pub record Signer : Type 0 where
  pub secret : String
  pub issuer : String
  pub access_ttl : ℕ
  pub refresh_ttl : ℕ

-- `jwt.NewNumericDate` cuts an instant down to a second.
abbrev pub numeric_date : ℕ → ℕ
numeric_date t = t / second * second

abbrev pub IsBefore : ℕ → Option ℕ → Type 0
IsBefore t none = Unit
IsBefore t (some e) = t < e

abbrev pub IsFrom : Option ℕ → ℕ → Type 0
IsFrom none t = Unit
IsFrom (some n) t = n ≤ t

abbrev pub later : ℕ → Option ℕ → Option ℕ
later d none = none
later d (some e) = some (e + d)

-- The library, with HS256 as the only method that is allowed: signing with a secret; and reading a
-- token with a secret, an issuer and a leeway at an instant.
pub record Jwt : Type 0 where
  pub signed_string : String → Claims → Result String
  pub parse_with_claims : String → String → ℕ → ℕ → String → Result Claims

-- What it checks of the claims, and that it reads back what it signed while those checks hold.
pub record JwtLaws (jwt : Jwt) : Type 0 where
  pub parse_issuer :
      (secret issuer : String) (leeway now : ℕ) (t : String) (c : Claims)
      → jwt.parse_with_claims secret issuer leeway now t ≡ ok c
      → c.issuer ≡ issuer
  pub parse_fresh :
      (secret issuer : String) (leeway now : ℕ) (t : String) (c : Claims)
      → jwt.parse_with_claims secret issuer leeway now t ≡ ok c
      → IsBefore now (later leeway c.expires_at)
  pub parse-signed :
      (secret issuer : String) (leeway now : ℕ) (t : String) (c : Claims)
      → jwt.signed_string secret c ≡ ok t
      → c.issuer ≡ issuer
      → IsFrom c.not_before (now + leeway)
      → IsBefore now (later leeway c.expires_at)
      → jwt.parse_with_claims secret issuer leeway now t ≡ ok c

module _ (jwt : Jwt) where
  abbrev signed : String → Result String → Result (String × String)
  signed jti (ok t) = ok (t, jti)
  signed jti (err e) = err (message "sign token")

  unfoldable pub claims_of : Signer → String → String → String → ℕ → ℕ → String → Claims
  claims_of s user_id role token_type ttl now jti = record {
    user_id = user_id;
    role = role;
    token_type = token_type;
    issuer = s.issuer;
    subject = user_id;
    id = jti;
    issued_at = some (numeric_date now);
    not_before = some (numeric_date now);
    expires_at = some (numeric_date (now + ttl));
  }

  -- `now` is `time.Now()`, and `jti` what `uuid.NewString()` answers.
  unfoldable pub issue :
      Signer → String → String → String → ℕ → ℕ → String → Result (String × String)
  issue s user_id role token_type ttl now jti =
      if is_empty user_id
      then err (message "userID is required for token issuance")
      else signed jti (jwt.signed_string s.secret (claims_of s user_id role token_type ttl now jti))

  abbrev pub issue_access_token : Signer → String → String → ℕ → String → Result (String × String)
  issue_access_token s user_id role now jti =
      issue s user_id role token_type_access s.access_ttl now jti

  abbrev pub issue_refresh_token : Signer → String → String → ℕ → String → Result (String × String)
  issue_refresh_token s user_id role now jti =
      issue s user_id role token_type_refresh s.refresh_ttl now jti

  abbrev parsed : Result Claims → Result Claims
  parsed (ok c) = ok c
  parsed (err e) = err (message "parse jwt")

  unfoldable pub parse : Signer → ℕ → String → Result Claims
  parse s now t = parsed (jwt.parse_with_claims s.secret s.issuer clock_skew now t)
