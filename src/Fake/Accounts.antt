-- ===== src/Fake/Accounts.antt =====
-- Signed tokens for one set of claims, and users who are not found.
use mygo_microservices.Prelude.{
  ℕ, ◌+◌, String, ◌≡◌, refl, sym, subst, inl, inr, Bool-cases, Bool, true, false, Option, none,
  some, ◌==◌, ◌&&◌, ◌=ℕ=◌, ltb, leb, if◌then◌else◌, arith, eq_iff, eq_refl,
}
use mygo_microservices.Go.{message, ok, err}
use mygo_microservices.Auth.Tokens.{Claims, Jwt, JwtLaws, IsBefore, IsFrom, later}

abbrev same_time : Option ℕ → Option ℕ → Bool
same_time none none = true
same_time none (some b) = false
same_time (some a) none = false
same_time (some a) (some b) = a =ℕ= b

abbrev same : Claims → Claims → Bool
same c d =
    c.user_id == d.user_id
    && (c.role == d.role
        && (c.token_type == d.token_type
            && (c.issuer == d.issuer
                && (c.subject == d.subject
                    && (c.id == d.id
                        && (same_time c.issued_at d.issued_at
                            && (same_time c.not_before d.not_before
                                && same_time c.expires_at d.expires_at)))))))

same_time_eq : (a b : Option ℕ) → same_time a b ≡ true → a ≡ b
same_time_eq none none h = refl
same_time_eq none (some b) h = absurd (ground (arith, h))
same_time_eq (some a) none h = absurd (ground (arith, h))
same_time_eq (some a) (some b) h = ground (arith, h)

same_eq : (c d : Claims) → same c d ≡ true → c ≡ d
same_eq c d h = ground (
  arith,
  h,
  eq_iff c.user_id d.user_id,
  eq_iff c.role d.role,
  eq_iff c.token_type d.token_type,
  eq_iff c.issuer d.issuer,
  eq_iff c.subject d.subject,
  eq_iff c.id d.id,
  same_time_eq c.issued_at d.issued_at,
  same_time_eq c.not_before d.not_before,
  same_time_eq c.expires_at d.expires_at,
)

abbrev is_before : ℕ → Option ℕ → Bool
is_before t none = true
is_before t (some e) = ltb t e

abbrev is_from : Option ℕ → ℕ → Bool
is_from none t = true
is_from (some n) t = leb n t

is_before_lem : (t : ℕ) (o : Option ℕ) → IsBefore t o → is_before t o ≡ true
is_before_lem t none h = refl
is_before_lem t (some e) h = ground (arith, h)

is_before_sound : (t : ℕ) (o : Option ℕ) → is_before t o ≡ true → IsBefore t o
is_before_sound t none h = tt
is_before_sound t (some e) h = ground (arith, h)

is_from_lem : (o : Option ℕ) (t : ℕ) → IsFrom o t → is_from o t ≡ true
is_from_lem none t h = refl
is_from_lem (some n) t h = ground (arith, h)

-- The only token stands for the claims given.
abbrev pub one_token : Claims → Jwt
one_token only = record {
  signed_string = λ secret c. if same c only then ok "token" else err (message "not signed");
  parse_with_claims = λ secret issuer leeway now t.
      if t == "token"
        && (only.issuer == issuer
            && (is_from only.not_before (now + leeway)
                && is_before now (later leeway only.expires_at)))
      then ok only
      else err (message "token is invalid");
}

module _ (only : Claims) where
  read_eq :
      (secret issuer : String) (leeway now : ℕ) (t : String) (c : Claims)
      → (one_token only).parse_with_claims secret issuer leeway now t ≡ ok c
      → (only ≡ c) × (is_before now (later leeway only.expires_at) ≡ true)
  read_eq secret issuer leeway now t c h = (ground (arith, h), ground (arith, h))

  signed_eq :
      (secret : String) (c : Claims) (t : String)
      → (one_token only).signed_string secret c ≡ ok t
      → (c ≡ only) × ("token" ≡ t)
  signed_eq secret c t h = elim (Bool-cases (same c only)) [
    | inl e ↦ (same_eq c only e, ground (arith, e, h))
    | inr e ↦ absurd (ground (arith, e, h))
  ]

  read_signed :
      (secret issuer : String) (leeway now : ℕ)
      → only.issuer ≡ issuer
      → IsFrom only.not_before (now + leeway)
      → IsBefore now (later leeway only.expires_at)
      → (one_token only).parse_with_claims secret issuer leeway now "token" ≡ ok only
  read_signed secret issuer leeway now iss from before = ground (
    arith,
    eq_refl "token",
    (eq_iff only.issuer issuer).1 iss,
    is_from_lem only.not_before (now + leeway) from,
    is_before_lem now (later leeway only.expires_at) before,
  )

pub one_token_laws : (only : Claims) → JwtLaws (one_token only)
one_token_laws only = record {
  parse_issuer = λ secret issuer leeway now t c h. ground (arith, h, eq_iff only.issuer issuer);
  parse_fresh = λ secret issuer leeway now t c h.
      let (e, b) = read_eq only secret issuer leeway now t c h in
      subst (λ d. IsBefore now (later leeway d.expires_at)) e
        (is_before_sound now (later leeway only.expires_at) b);
  parse-signed = λ secret issuer leeway now t c signed iss from before.
      let (e, f) = signed_eq only secret c t signed in
      subst (λ z. (one_token only).parse_with_claims secret issuer leeway now z ≡ ok c) f
        (subst
          (λ d.
            d.issuer ≡ issuer
            → IsFrom d.not_before (now + leeway)
            → IsBefore now (later leeway d.expires_at)
            → (one_token only).parse_with_claims secret issuer leeway now "token" ≡ ok d)
          (sym e) (read_signed only secret issuer leeway now) iss from before);
}
