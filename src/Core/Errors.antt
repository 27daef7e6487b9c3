-- ===== src/Core/Errors.antt =====
-- The exceptions that the core raises and catches, and functions that may raise one.
use fixrepro.Base.{String, ◌≡◌, ◌⊎◌, inl, inr, refl, Bool, true, false}

pub data PyError : Type 0 where
  package_validation : (reason_code message : String) → PyError
  value_error : String → PyError
  device_unavailable : String → PyError
  device_apply_failed : String → PyError
  verification_error : String → PyError
  bundle_error : String → PyError
  process_error : String → PyError
  os_error : String → PyError
  key_error : String → PyError
  timeout_expired : PyError
  recursion_error : PyError

pub data Result {ℓ} (A : Type ℓ) : Type ℓ where
  ok : A → Result A
  raise : PyError → Result A

-- `if test: raise error`
abbrev pub raise_if : Bool → PyError → Result (Unit {0})
raise_if true e = raise e
raise_if false e = ok tt

infixl 5 ◌>>=◌ ◌>>◌
abbrev pub ◌>>=◌ {ℓ κ} : {A : Type ℓ} {B : Type κ} → Result A → (A → Result B) → Result B
ok a >>= f = f a
raise e >>= f = raise e

abbrev pub ◌>>◌ {ℓ} : {A : Type ℓ} → Result (Unit {0}) → Result A → Result A
ok tt >> rest = rest
raise e >> rest = raise e

-- The call returns, and the value satisfies `P`.
abbrev pub Returns {ℓ} : {A : Type ℓ} → Result A → (A → Type 0) → Type 0
Returns (ok a) P = P a
Returns (raise e) P = ⊥

pub Result-cases {ℓ} :
    {A : Type ℓ} (r : Result A) → ((a : A) × (r ≡ ok a)) ⊎ ((e : PyError) × (r ≡ raise e))
Result-cases (ok a) = inl (a, refl)
Result-cases (raise e) = inr (e, refl)

pub ok-injective {ℓ} : {A : Type ℓ} {a b : A} → ok a ≡ ok b → a ≡ b
ok-injective h = cc

pub raise-injective {ℓ} :
    {A : Type ℓ} {e f : PyError} → ◌≡◌ {A = Result A} (raise e) (raise f) → e ≡ f
raise-injective h = cc
