-- ===== src/Go.antt =====
-- What a Go function does besides returning: it changes state and it may panic. The errors are
-- the HTTP errors of `httpErrors/httpErrors.go` and all others, which are a text.
use holvit_backend.Prelude.{ℕ, String, ◌≡◌, refl, ap, Option, none, some}

-- `error`: `*httpErrors.HttpError`, and any other error value by its text.
pub data Error : Type 0 where
  http_error : ℕ → String → Error
  plain_error : String → Error

-- How a call ends: it returns a value or it panics.
pub data Outcome {ℓ} (A : Type ℓ) : Type ℓ where
  done : A → Outcome A
  panicked : Error → Outcome A

-- `(value, err)`, and `h.Result`.
pub data Result {ℓ} (A : Type ℓ) : Type ℓ where
  ok : A → Result A
  err : Error → Result A

-- A statement over a state. What was written before a panic stays written.
abbrev pub Go {ℓ} : Type ℓ → Type ℓ → Type ℓ
Go S A = S → Outcome A × S

module _ {ℓ} {S A : Type ℓ} where
  abbrev pub pure : A → Go S A
  pure a s = (done a, s)

  abbrev pub panic : Error → Go S A
  panic e s = (panicked e, s)

  abbrev pub lift : Outcome A → Go S A
  lift r s = (r, s)

  abbrev pub gets : (S → A) → Go S A
  gets f s = (done (f s), s)

module _ {ℓ} {S A B : Type ℓ} where
  abbrev pub continue : (A → Go S B) → Outcome A → S → Outcome B × S
  continue f (done a) s = f a s
  continue f (panicked e) s = (panicked e, s)

  infixl 5 ◌>>=◌
  abbrev pub ◌>>=◌ : Go S A → (A → Go S B) → Go S B
  ◌>>=◌ m f s = let (r, s') = m s in continue f r s'

  continue-done :
      (f : A → Go S B) (r : Outcome A) (s s' : S) (b : B)
      → continue f r s ≡ (done b, s')
      → (a : A) × ((r ≡ done a) × (f a s ≡ (done b, s')))
  continue-done f (done a) s s' b h = (a, (refl, h))
  continue-done f (panicked e) s s' b h = cc

  -- A sequence that returns is one whose first part returned.
  pub bind-done :
      (m : Go S A) (f : A → Go S B) (s s' : S) (b : B)
      → (m >>= f) s ≡ (done b, s')
      → (a : A) × ((m s ≡ (done a, (m s).1)) × (f a (m s).1 ≡ (done b, s')))
  bind-done m f s s' b h =
      let (a, (e, k)) = continue-done f (m s).0 (m s).1 s' b h in (a, (ap (λ o. (o, (m s).1)) e, k))

infixl 5 ◌>>◌
abbrev pub ◌>>◌ : {S B : Type 0} → Go S (Unit {0}) → Go S B → Go S B
m >> k = m >>= λ _. k

-- `Opt.Unwrap`, `Opt.UnwrapErr` and `Result.Unwrap`
abbrev pub unwrap_err {ℓ} : {A : Type ℓ} → Error → Option A → Outcome A
unwrap_err e none = panicked e
unwrap_err e (some v) = done v

abbrev pub unwrap {ℓ} : {A : Type ℓ} → Option A → Outcome A
unwrap o = unwrap_err (plain_error "tried to unwrap an empty option") o

abbrev pub unwrap_result {ℓ} : {A : Type ℓ} → Result A → Outcome A
unwrap_result (ok v) = done v
unwrap_result (err e) = panicked e
