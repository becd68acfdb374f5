-- ===== src/Auth/Middleware/Laws.antt =====
-- Who gets past the middleware.
use mygo_microservices.Prelude.{
  ℕ, String, ◌<>◌, ◌≡◌, ◌⊎◌, subst, inl, inr, true, none, ◌==◌, arith, eq_iff, is_empty, Bool-cases,
  Option-cases,
}
use mygo_microservices.Go.{ok, Result-cases}
use mygo_microservices.Redis.{Kv, KvLaws}
use mygo_microservices.Auth.Tokens.{Claims, Signer, Jwt, parse, token_type_access}
use mygo_microservices.Auth.Middleware.{
  revoked_key_prefix, bearer_token, check_revoked, check_claims, extract_and_verify_access_token,
}

module _ (kv : Kv) (laws : KvLaws kv) (jwt : Jwt) (signer : Signer) where
  -- What the middleware asks of a request.
  pub record IsAdmitted (raw : String) (now : ℕ) (s : kv.State) (c : Claims) : Type 0 where
    pub token : String
    pub header : bearer_token raw ≡ ok token
    pub valid : parse jwt signer now token ≡ ok c
    pub access : c.token_type ≡ token_type_access
    pub kept : (is_empty c.id ≡ true) ⊎ (kv.lookup s (revoked_key_prefix <> c.id) ≡ none)

  revoked-kept :
      (c d : Claims) (s : kv.State)
      → (check_revoked kv jwt signer c s).0 ≡ ok d
      → (c ≡ d) × ((is_empty c.id ≡ true) ⊎ (kv.lookup s (revoked_key_prefix <> c.id) ≡ none))
  unfolding check_revoked
  revoked-kept c d s h =
      let k = revoked_key_prefix <> c.id in
      elim (Bool-cases (is_empty c.id)) [
        | inl e ↦ (ground (arith, e, h), inl e)
        | inr e ↦ elim (Result-cases (kv.exists_key k s).0) [
          | inr (x, p) ↦ absurd (ground (arith, e, p, h))
          | inl (n, p) ↦ elim (Option-cases (kv.lookup s k)) [
            | inl q ↦ (ground (arith, e, p, h, laws.exists_ok k s n p, q), inr q)
            | inr (v, q) ↦ absurd (ground (arith, e, p, h, laws.exists_ok k s n p, q))
          ]
        ]
      ]

  -- Whoever gets past the middleware showed a token that the signer accepts at that instant, of the
  -- access type, whose identifier, where it has one, is not on the black list.
  pub extract_and_verify_access_token-IsAdmitted :
      (raw : String) (now : ℕ) (s : kv.State) (c : Claims)
      → (extract_and_verify_access_token kv jwt signer raw now s).0 ≡ ok c
      → IsAdmitted raw now s c
  unfolding extract_and_verify_access_token check_claims
  extract_and_verify_access_token-IsAdmitted raw now s c h =
      elim (Result-cases (bearer_token raw)) [
        | inr (e, p) ↦ absurd (ground (arith, p, h))
        | inl (t, p) ↦ elim (Result-cases (parse jwt signer now t)) [
          | inr (e, q) ↦ absurd (ground (arith, p, q, h))
          | inl (d, q) ↦ elim (Bool-cases (d.token_type == token_type_access)) [
            | inr e ↦ absurd (ground (arith, p, q, e, h))
            | inl e ↦
                let (same, kept) = revoked-kept d c s (ground (arith, p, q, e, h)) in
                subst (IsAdmitted raw now s) same (record {
                  token = t;
                  header = p;
                  valid = q;
                  access = (eq_iff d.token_type token_type_access).0 e;
                  kept = kept;
                })
          ]
        ]
      ]

  -- While Redis is up, such a request does get past it.
  pub IsAdmitted-extract :
      (raw : String) (now : ℕ) (s : kv.State) (c : Claims)
      → kv.IsUp s
      → IsAdmitted raw now s c
      → (extract_and_verify_access_token kv jwt signer raw now s).0 ≡ ok c
  unfolding extract_and_verify_access_token check_claims check_revoked
  IsAdmitted-extract raw now s c up a =
      let k = revoked_key_prefix <> c.id in
      let access = (eq_iff c.token_type token_type_access).1 a.access in
      elim a.kept [
        | inl e ↦ ground (arith, a.header, a.valid, access, e)
        | inr e ↦ ground (arith, a.header, a.valid, access, e, laws.up_exists k s up)
      ]
