-- ===== src/Outcome.antt =====
-- Exceptions as values (execution_engine/core/errors.py and the built-in classes that the engine
-- raises), and methods that change a state and may raise. What such a method wrote before it raised
-- stays written, so the state comes back beside the exception too.
use application_as_service.Prelude.{◌≡◌, refl, ◌⊎◌, inl, inr, Bool, true, false}

-- The class of a raised exception. Of the messages only those are kept that the program stores.
pub data Error : Type 0 where
  validation_error invalid_state_error lease_error : Error
  already_exists not_found concurrency_error : Error
  value_error type_error runtime_error assertion_error key_error attribute_error : Error

pub data Result {ℓ} (A : Type ℓ) : Type ℓ where
  ok : A → Result A
  err : Error → Result A

infixl 5 ◌>>=◌
abbrev pub ◌>>=◌ {ℓ κ} : {A : Type ℓ} {B : Type κ} → Result A → (A → Result B) → Result B
ok a >>= f = f a
err e >>= f = err e

abbrev pub Action : Type 0 → Type 0 → Type 0
Action S A = S → Result A × S

-- The rest of a method runs only if the call before it returned.
abbrev pub proceed : {S A B : Type 0} → Result A × S → (A → Action S B) → Result B × S
proceed (ok a, s) f = f a s
proceed (err e, s) f = (err e, s)

abbrev pub and_then : {S A B : Type 0} → Action S A → (A → Action S B) → Action S B
and_then m f s = proceed (m s) f

-- A pure computation that may raise, inside a method.
abbrev pub lift : {S A : Type 0} → Result A → Action S A
lift r s = (r, s)

abbrev pub raise : {S A : Type 0} → Error → Action S A
raise e s = (err e, s)

abbrev pub pure : {S A : Type 0} → A → Action S A
pure a s = (ok a, s)

-- `raise_if test e` is `if test: raise e`.
abbrev pub raise_if : {S : Type 0} → Bool → Error → Action S (Unit {0})
raise_if true e s = (err e, s)
raise_if false e s = (ok tt, s)

-- The call returned; it did not raise.
abbrev pub is_ok : {A : Type 0} → Result A → Bool
is_ok (ok a) = true
is_ok (err e) = false

-- An action that changed nothing of the state that it was given.
abbrev pub Unchanged : {S A : Type 0} → S → Result A × S → Type 0
Unchanged s r = r.1 ≡ s

-- To split on a test that may raise, and keep the equation.
pub Result-cases : (r : Result Bool) → ((x : Error) × (r ≡ err x)) ⊎ (r ≡ ok true) ⊎ (r ≡ ok false)
Result-cases (err x) = inl (x, refl)
Result-cases (ok true) = inr (inl refl)
Result-cases (ok false) = inr (inr refl)

pub Outcome-cases {ℓ} :
    {A : Type ℓ} (r : Result A) → ((x : Error) × (r ≡ err x)) ⊎ ((a : A) × (r ≡ ok a))
Outcome-cases (err x) = inl (x, refl)
Outcome-cases (ok a) = inr (a, refl)
