-- ===== src/Auth/Handlers.antt =====
-- services/api-gateway: the handlers of auth_handler.go and the users of user_repo.go; and
-- shared/auth/password.go.
pub mod Sessions
use mygo_microservices.Prelude.{
  ℕ, ◌/◌, String, ◌<>◌, Bool, Option, none, some, length, ltb, ◌=ℕ=◌, ◌==◌, ◌||◌, ◌&&◌, not,
  if◌then◌else◌, is_empty, trim_space, bytes,
}
use mygo_microservices.Go.{no_documents, duplicate_key, Error, message, Result, ok, err, Exec}
use mygo_microservices.Redis.{Kv}
use mygo_microservices.Auth.Tokens.{
  second, Claims, Signer, Jwt, is_valid_role, token_type_refresh, issue_access_token,
  issue_refresh_token, parse,
}
use mygo_microservices.Auth.Middleware.{revoked_key_prefix, refresh_key_prefix, blacklist_ttl}

pub record UserDoc : Type 0 where
  pub uuid : String
  pub phone : String
  pub password_hash : String
  pub role : String
  pub created_at : ℕ
  pub updated_at : ℕ

-- The collection `users` of MongoDB, with a unique index on the phone.
pub record UserCollection : Type 1 where
  pub State : Type 0
  pub insert_one : UserDoc → Exec State (Unit {0})
  pub find_phone : String → Exec State UserDoc

abbrev pub user_not_found : Error
user_not_found = message "user not found"

abbrev pub phone_taken : Error
phone_taken = message "phone already registered"

-- The sentinel errors, which the handlers compare with.
abbrev pub inserted : Result (Unit {0}) → Result (Unit {0})
inserted (ok u) = ok tt
inserted (err duplicate_key) = err phone_taken
inserted (err e) = err (message "insert user")

abbrev pub found_user : Result UserDoc → Result UserDoc
found_user (ok d) = ok d
found_user (err no_documents) = err user_not_found
found_user (err e) = err (message "find user by phone")

-- What a request finds outside the code: the clock, the UUIDs, bcrypt.
pub record Fresh : Type 0 where
  pub now : ℕ
  pub access_jti : String
  pub refresh_jti : String
  pub user_uuid : String

pub record AuthEnv : Type 1 where
  pub kv : Kv
  pub users : UserCollection
  pub jwt : Jwt
  pub generate_from_password : String → Result String
  pub compare_hash_and_password : String → String → Bool

pub record RegisterRequest : Type 0 where
  pub phone : String
  pub password : String
  pub role : String

pub record LoginRequest : Type 0 where
  pub phone : String
  pub password : String

-- An error with its status and code, or the data of an answer with 200 or 201.
pub data Reply : Type 0 where
  auth_error : ℕ → String → Reply
  registered : String → Reply
  token_pair : String → String → ℕ → Reply
  logged_out : Reply

abbrev pub min_phone_len : ℕ
min_phone_len = 6

abbrev pub max_phone_len : ℕ
max_phone_len = 20

abbrev pub min_password_len : ℕ
min_password_len = 6

module _ (env : AuthEnv) where
  open env use {kv, users, jwt}

  pub record Accounts : Type 0 where
    pub redis : kv.State
    pub docs : users.State

  -- Go's zero time stands for an instant that is not set; here it is 0.
  abbrev or_now : ℕ → ℕ → ℕ
  or_now now t = if t =ℕ= 0 then now else t

  unfoldable pub create : Fresh → UserDoc → users.State → Result UserDoc × users.State
  create f u s =
      if is_empty u.phone
      then (err (message "phone is required"), s)
      else (if is_empty u.password_hash
          then (err (message "password hash is required"), s)
          else (let doc : UserDoc = record u {
            uuid = if is_empty u.uuid then f.user_uuid else u.uuid;
            created_at = or_now f.now u.created_at;
            updated_at = or_now f.now u.updated_at;
          } in
              let (r, s') = users.insert_one doc s in
              (elim (inserted r) [ ok x ↦ ok doc | err e ↦ err e ], s')))

  unfoldable pub find_by_phone : String → users.State → Result UserDoc × users.State
  find_by_phone phone s =
      if is_empty phone
      then (err (message "phone is required"), s)
      else (let (r, s') = users.find_phone phone s in (found_user r, s'))

  unfoldable pub hash_password : String → Result String
  hash_password plain =
      if is_empty plain
      then err (message "password must not be empty")
      else env.generate_from_password plain

  unfoldable pub verify_password : String → String → Bool
  verify_password hashed plain = not (is_empty plain) && env.compare_hash_and_password hashed plain

  created_reply : Result UserDoc → Reply
  created_reply (ok doc) = registered doc.uuid
  created_reply (err (message text)) =
      if text == "phone already registered"
      then auth_error 409 "phone_taken"
      else auth_error 500 "create_failed"
  created_reply (err e) = auth_error 500 "create_failed"

  create_hashed : Fresh → String → String → Result String → Accounts → Reply × Accounts
  create_hashed f phone role (err e) w = (auth_error 500 "hash_failed", w)
  create_hashed f phone role (ok hashed) w =
      let (r, s) =
        create f
          (record {
            uuid = "";
            phone = phone;
            password_hash = hashed;
            role = role;
            created_at = 0;
            updated_at = 0;
          })
          w.docs in
      (created_reply r, record w { docs = s })

  -- The argument is what `decodeJSON` makes of the request's body.
  unfoldable pub handle_register : Fresh → Result RegisterRequest → Accounts → Reply × Accounts
  unfolding create_hashed created_reply
  handle_register f (err e) w = (auth_error 400 "bad_request", w)
  handle_register f (ok req) w =
      let phone = trim_space req.phone in
      let role = trim_space req.role in
      let n = length (bytes phone) in
      if ltb n min_phone_len || ltb max_phone_len n
      then (auth_error 400 "invalid_phone", w)
      else (if ltb (length (bytes req.password)) min_password_len
          then (auth_error 400 "weak_password", w)
          else (if not (is_valid_role role)
              then (auth_error 400 "invalid_role", w)
              else create_hashed f phone role (hash_password req.password) w))
