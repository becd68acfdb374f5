-- ===== src/Go.antt =====
-- Go's way of returning `(value, error)` from code that changes state.
pub mod Frame
pub mod Triple
use mygo_microservices.Prelude.{String, ◌≡◌, refl, ◌⊎◌, inl, inr}

-- The errors that the source compares with (`redis.Nil`, `mongo.ErrNoDocuments`, a duplicate key,
-- `ErrConnectionNotFound`), the texts that it makes itself, and whatever else a callee reports.
-- `panic` is no error value of Go: it is the way out of a goroutine that follows a nil pointer, which
-- runs what was deferred and nothing else.
pub data Error : Type 0 where
  nil_reply no_documents duplicate_key connection_not_found panic : Error
  message : String → Error
  external : String → Error

-- `err.Error()`. The texts of the libraries' own errors are a parameter.
abbrev pub error_text : (Error → String) → Error → String
error_text library (message m) = m
error_text library connection_not_found = "connection not found"
error_text library e = library e

pub data Result {ℓ} (A : Type ℓ) : Type ℓ where
  ok : A → Result A
  err : Error → Result A

-- Code over a state `S`. What was written before an error stays written.
abbrev pub Exec {ℓ} : Type ℓ → Type ℓ → Type ℓ
Exec S A = S → Result A × S

module _ {ℓ} {S A : Type ℓ} where
  abbrev pub pure : A → Exec S A
  pure a s = (ok a, s)

  abbrev pub fail : Error → Exec S A
  fail e s = (err e, s)

  -- `v, err := m()` where the code goes on in either case
  abbrev pub attempt : Exec S A → Exec S (Result A)
  attempt m s = let (r, s') = m s in (ok r, s')

module _ {ℓ} {S A B : Type ℓ} where
  abbrev pub continue : Result A → (A → Exec S B) → Exec S B
  continue (ok a) f s = f a s
  continue (err e) f s = (err e, s)

  -- `if err != nil { return err }`
  infixl 5 ◌>>=◌ ◌>>◌
  abbrev pub ◌>>=◌ : Exec S A → (A → Exec S B) → Exec S B
  ◌>>=◌ m f s = let (r, s') = m s in continue r f s'

  abbrev pub ◌>>◌ : Exec S A → Exec S B → Exec S B
  m >> n = m >>= λ _. n

-- Code over one component of the state.
abbrev pub zoom {ℓ} : {S T A : Type ℓ} → (T → S) → (T → S → T) → Exec S A → Exec T A
zoom get put m t = let (r, s) = m (get t) in (r, put t s)

pub Result-cases {ℓ} :
    {A : Type ℓ} (r : Result A) → ((a : A) × (r ≡ ok a)) ⊎ ((e : Error) × (r ≡ err e))
Result-cases (ok a) = inl (a, refl)
Result-cases (err e) = inr (e, refl)

-- `_ = m()`: the error is dropped.
abbrev pub ignore {ℓ} : {S A : Type ℓ} → Exec S A → Exec S (Unit {ℓ})
ignore m s = let (r, s') = m s in (ok tt, s')

-- `defer d()` around the rest of a function: it runs on every way out, and its error is dropped.
abbrev pub with_defer {ℓ} : {S A B : Type ℓ} → Exec S B → Exec S A → Exec S A
with_defer d m s = let (r, s') = m s in let (r', s'') = d s' in (r, s'')

abbrev pub lift {ℓ} : {S A : Type ℓ} → Result A → Exec S A
lift r s = (r, s)

-- encoding/json for one type, as a pair of functions; a text stands for the bytes.
pub record Codec (A : Type 0) : Type 0 where
  pub encode : A → Result String
  pub decode : String → Result A

-- What was encoded is decoded to itself.
pub record CodecLaws {A : Type 0} (c : Codec A) : Type 0 where
  pub decode-encode : (a : A) (t : String) → c.encode a ≡ ok t → c.decode t ≡ ok a

-- Encoding never fails for the type.
pub record Encodes {A : Type 0} (c : Codec A) : Type 0 where
  pub text : A → String
  pub encode-text : (a : A) → c.encode a ≡ ok (text a)
