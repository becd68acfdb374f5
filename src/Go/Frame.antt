-- ===== src/Go/Frame.antt =====
-- What a computation leaves as it was, whatever it returns: one rule for each way to build one.
use mygo_microservices.Prelude.{Bool, true, false, if◌then◌else◌}
use mygo_microservices.Go.{
  Error, Result, ok, err, Exec, pure, fail, lift, attempt, ignore, with_defer, continue, ◌>>=◌,
}

-- `P` holds after `m` if it held before.
pub record Keeps {ℓ} {S A : Type ℓ} (P : S → Type ℓ) (m : Exec S A) : Type ℓ where
  pub after : (s : S) → P s → P (m s).1

module _ {ℓ} {S A : Type ℓ} {P : S → Type ℓ} where
  pub Keeps-pure : (a : A) → Keeps P (pure a)
  Keeps-pure a = record { after = λ s h. h }

  pub Keeps-fail : (e : Error) → Keeps P (fail {A = A} e)
  Keeps-fail e = record { after = λ s h. h }

  pub Keeps-lift : (r : Result A) → Keeps P (lift r)
  Keeps-lift r = record { after = λ s h. h }

  pub Keeps-if : (b : Bool) (m n : Exec S A) → Keeps P m → Keeps P n → Keeps P (if b then m else n)
  Keeps-if true m n km kn = km
  Keeps-if false m n km kn = kn

  pub Keeps-attempt : (m : Exec S A) → Keeps P m → Keeps P (attempt m)
  Keeps-attempt m km = record { after = km.after }

  pub Keeps-ignore : (m : Exec S A) → Keeps P m → Keeps P (ignore m)
  Keeps-ignore m km = record { after = km.after }

module _ {ℓ} {S A B : Type ℓ} {P : S → Type ℓ} where
  Keeps-continue :
      (r : Result A) (f : A → Exec S B)
      → ((a : A) → Keeps P (f a))
      → (s : S) → P s
      → P (continue r f s).1
  Keeps-continue (ok a) f kf s h = (kf a).after s h
  Keeps-continue (err e) f kf s h = h

  pub Keeps-bind :
      (m : Exec S A) (f : A → Exec S B) → Keeps P m → ((a : A) → Keeps P (f a)) → Keeps P (m >>= f)
  Keeps-bind m f km kf = record {
    after = λ s h. let (r, s') = m s in Keeps-continue r f kf s' (km.after s h);
  }

  pub Keeps-defer : (d : Exec S B) (m : Exec S A) → Keeps P m → Keeps P d → Keeps P (with_defer d m)
  Keeps-defer d m km kd = record { after = λ s h. let (r, s') = m s in kd.after s' (km.after s h) }

pub ruleset keeps_rules = (
  Keeps-pure, Keeps-fail, Keeps-lift, Keeps-if, Keeps-bind, Keeps-attempt, Keeps-ignore,
  Keeps-defer,
)
