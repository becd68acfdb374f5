-- ===== src/Go/Triple.antt =====
-- What a computation keeps and what it answers: one rule for each way to build one.
use mygo_microservices.Prelude.{Bool, true, false, ◌≡◌, if◌then◌else◌, arith}
use mygo_microservices.Go.{
  Error, Result, ok, err, Exec, pure, fail, attempt, ignore, continue, ◌>>=◌, ◌>>◌,
}

-- From `P`, `m` ends in `P`, and what it returns satisfies `Q`.
pub record Triple {ℓ} {S A : Type ℓ} (P : S → Type ℓ) (m : Exec S A) (Q : Result A → Type ℓ)
    : Type ℓ where
  pub after : (s : S) → P s → P (m s).1 × Q (m s).0

-- Nothing is said of the value that is returned.
abbrev pub Any {ℓ} : {A : Type ℓ} → Result A → Type ℓ
Any r = Unit

-- A returned value without error satisfies `Q`.
abbrev pub Answers {ℓ} : {A : Type ℓ} → (A → Type ℓ) → Result A → Type ℓ
Answers {A = A} Q r = (a : A) → r ≡ ok a → Q a

module _ {ℓ} {S A : Type ℓ} {P : S → Type ℓ} {Q : A → Type ℓ} where
  pub Triple-pure : (a : A) → Q a → Triple P (pure a) (Answers Q)
  Triple-pure a q = record { after = λ s p. (p, λ b e. ground (arith, q)) }

  pub Triple-fail : (e : Error) → Triple P (fail e) (Answers Q)
  Triple-fail e = record { after = λ s p. (p, λ b h. absurd (ground arith)) }

  pub Triple-if :
      (b : Bool) (m n : Exec S A)
      → Triple P m (Answers Q)
      → Triple P n (Answers Q)
      → Triple P (if b then m else n) (Answers Q)
  Triple-if true m n tm tn = tm
  Triple-if false m n tm tn = tn

module _ {ℓ} {S A B : Type ℓ} {P : S → Type ℓ} {Q : B → Type ℓ} where
  Triple-continue :
      (R : Result A → Type ℓ) (r : Result A) (f : A → Exec S B)
      → R r
      → ((a : A) → R (ok a) → Triple P (f a) (Answers Q))
      → (s : S) → P s
      → P (continue r f s).1 × Answers Q (continue r f s).0
  Triple-continue R (ok a) f h tf s p = (tf a h).after s p
  Triple-continue R (err e) f h tf s p = (p, λ b q. absurd (ground arith))

module _ {ℓ} {S A B : Type ℓ} {P : S → Type ℓ} {R : Result A → Type ℓ} {Q : B → Type ℓ} where
  pub Triple-bind :
      (m : Exec S A) (f : A → Exec S B)
      → Triple P m R
      → ((a : A) → R (ok a) → Triple P (f a) (Answers Q))
      → Triple P (m >>= f) (Answers Q)
  Triple-bind m f tm tf = record {
    after =
        λ s p. let (r, s') = m s in let (p', h) = tm.after s p in Triple-continue R r f h tf s' p';
  }

  -- Where the code goes on after an error, it knows what it was told.
  pub Triple-attempt :
      (m : Exec S A) (f : Result A → Exec S B)
      → Triple P m R
      → ((r : Result A) → R r → Triple P (f r) (Answers Q))
      → Triple P (attempt m >>= f) (Answers Q)
  Triple-attempt m f tm tf = record {
    after = λ s p. let (r, s') = m s in let (p', h) = tm.after s p in (tf r h).after s' p';
  }

  pub Triple-then :
      (m : Exec S A) (n : Exec S B)
      → Triple P m R
      → Triple P n (Answers Q)
      → Triple P (m >> n) (Answers Q)
  Triple-then m n tm tn = Triple-bind m (λ a. n) tm (λ a h. tn)

module _ {ℓ} {S A B : Type ℓ} {P : S → Type ℓ} {R : Result A → Type ℓ} {Q : Result B → Type ℓ} where
  pub Triple-ignore :
      (m : Exec S A) (n : Exec S B) → Triple P m R → Triple P n Q → Triple P (ignore m >> n) Q
  Triple-ignore m n tm tn = record {
    after = λ s p. let (r, s') = m s in let (p', h) = tm.after s p in tn.after s' p';
  }
