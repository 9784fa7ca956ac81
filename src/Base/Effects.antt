-- ===== src/Base/Effects.antt =====
-- Python's exceptions, and statements that change a state and may raise. The state outlives an
-- exception: what was written stays written.
use Prim.Native.String.{String}
use mathlib.Core.Path.{◌≡◌, refl}
use mathlib.Core.Logic.{◌⊎◌, inl, inr}

pub data Exception : Type 0 where
  value_error key_error name_error type_error attribute_error runtime_error other_error :
      String → Exception

pub data Result {ℓ} (A : Type ℓ) : Type ℓ where
  return : A → Result A
  raise : Exception → Result A

pub Result-cases {ℓ} :
    {A : Type ℓ} (r : Result A) → ((a : A) × (r ≡ return a)) ⊎ ((e : Exception) × (r ≡ raise e))
Result-cases (return a) = inl (a, refl)
Result-cases (raise e) = inr (e, refl)

abbrev pub Action : Type 0 → Type 0 → Type 0
Action S A = S → Result A × S

module _ {S : Type 0} where
  abbrev pub pure : {A : Type 0} → A → Action S A
  pure a s = (return a, s)

  abbrev pub throw : {A : Type 0} → Exception → Action S A
  throw e s = (raise e, s)

  abbrev pub get : Action S S
  get s = (return s, s)

  abbrev pub modify : (S → S) → Action S (Unit {0})
  modify f s = (return tt, f s)

  abbrev pub and_then : {A B : Type 0} → Result A → (A → Action S B) → Action S B
  and_then (return a) f = f a
  and_then (raise e) f = throw e

  infixl 5 ◌>>=◌ ◌>>◌
  abbrev pub ◌>>=◌ : {A B : Type 0} → Action S A → (A → Action S B) → Action S B
  ◌>>=◌ m f s = let (r, s') = m s in and_then r f s'

  abbrev pub ◌>>◌ : {A B : Type 0} → Action S A → Action S B → Action S B
  m >> n = m >>= λ _. n

  -- A call that can raise and changes no state.
  abbrev pub lift : {A : Type 0} → Result A → Action S A
  lift r s = (r, s)
