-- ===== src/Host/Attempt.antt =====
-- What the host's functions that return `Result<_, BoxError>` do: return a value or an error, or panic.
-- An error is told by the place that makes it, its text is not modelled; an error that an SP1 call
-- gives is its text.
use zkpow.Prelude.{
  ℕ, ◌≡◌, refl, ap, arith, List, [], ◌∷◌, Bool, true, false, ◌&&◌, ◌==◌, Result, ok, err, Outcome,
  returned, panicked,
}
use zkpow.Chain.{ValidationErrorCode}
use zkpow.PublicValues.{PublicValuesParseError}

pub data BoxError : Type 0 where
  from_sdk : List ℕ → BoxError
  trusted_start_with_previous_proof : BoxError
  malformed_previous_proof : PublicValuesParseError → BoxError
  previous_proof_failed : ValidationErrorCode → ℕ → BoxError
  genesis_mismatch : BoxError
  db_state_mismatch : ℕ → BoxError
  no_headers_remaining : ℕ → BoxError
  simulation_diverges : ℕ → ℕ → BoxError
  previous_proof_not_compressed : BoxError
  malformed_public_values : PublicValuesParseError → BoxError
  execution_failed : ValidationErrorCode → ℕ → BoxError
  public_values_mismatch : BoxError
  row_mismatch : BoxError
  invalid_setting : BoxError

-- A function that may fail or panic.
abbrev pub Attempt {ℓ} : Type ℓ → Type ℓ
Attempt A = Outcome (Result BoxError A)

abbrev pub succeed {ℓ} : {A : Type ℓ} → A → Attempt A
succeed a = returned (ok a)

abbrev pub fail {ℓ} : {A : Type ℓ} → BoxError → Attempt A
fail e = returned (err e)

-- `?` after a call, and the calls that only panic.
infixl 5 ◌>>=◌
abbrev pub ◌>>=◌ {ℓ κ} : {A : Type ℓ} {B : Type κ} → Attempt A → (A → Attempt B) → Attempt B
returned (ok a) >>= f = f a
returned (err e) >>= f = returned (err e)
panicked >>= f = panicked

abbrev pub call {ℓ} : {A : Type ℓ} → Outcome A → Attempt A
call (returned a) = returned (ok a)
call panicked = panicked

pub returned-injective {ℓ} : {A : Type ℓ} {a b : A} → returned a ≡ returned b → a ≡ b
returned-injective {a = a} e = ap (λ o. elim o [ returned x ↦ x | panicked ↦ a ]) e

pub succeed-injective {ℓ} : {A : Type ℓ} {a b : A} → succeed a ≡ succeed b → a ≡ b
succeed-injective {a = a} e =
    ap (λ o. elim o [ returned (ok x) ↦ x | returned (err x) ↦ a | panicked ↦ a ]) e

-- `call` succeeds where the call returns.
pub call-succeed {ℓ} : {A : Type ℓ} (o : Outcome A) (a : A) → call o ≡ succeed a → o ≡ returned a
call-succeed (returned x) a e = ap returned (succeed-injective e)
call-succeed panicked a e = absurd (ground arith)

-- A chain of calls that succeeds: the first one does, and the rest does with its value.
pub >>=-succeed {ℓ κ} :
    {A : Type ℓ} {B : Type κ} (m : Attempt A) (f : A → Attempt B) (b : B)
    → (m >>= f) ≡ succeed b
    → (a : A) × (m ≡ succeed a) × (f a ≡ succeed b)
>>=-succeed (returned (ok a)) f b e = (a, refl, e)
>>=-succeed (returned (err x)) f b e = absurd (ground arith)
>>=-succeed panicked f b e = absurd (ground arith)

-- `str::starts_with`
unfoldable pub starts_with : List ℕ → List ℕ → Bool
starts_with text [] = true
starts_with [] (c ∷ prefix) = false
starts_with (t ∷ text) (c ∷ prefix) = t == c && starts_with text prefix

-- `NO_HEADERS_REMAINING_PREFIX`
abbrev no_headers_remaining_prefix : List ℕ
no_headers_remaining_prefix =
    110 ∷ 111 ∷ 32 ∷ 104 ∷ 101 ∷ 97 ∷ 100 ∷ 101 ∷ 114 ∷ 115 ∷ 32 ∷ 114 ∷ 101 ∷ 109 ∷ 97 ∷ 105 ∷ 110
    ∷ 105 ∷ 110 ∷ 103 ∷ 32 ∷ 105 ∷ 110 ∷ 32 ∷ 100 ∷ 97 ∷ 116 ∷ 97 ∷ 98 ∷ 97 ∷ 115 ∷ 101 ∷ []

-- `is_header_exhaustion_error`: of the texts that the host writes, that of `no_headers_remaining`
-- starts with the prefix.
unfoldable pub is_header_exhaustion_error : BoxError → Bool
is_header_exhaustion_error (no_headers_remaining height) = true
is_header_exhaustion_error (from_sdk text) = starts_with text no_headers_remaining_prefix
is_header_exhaustion_error _ = false
