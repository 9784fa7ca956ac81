-- ===== src/Base/Search.antt =====
-- Membership in lists of texts under a test, and the least element by a rank.
use Prim.Native.Nat.{ℕ, ◌≤◌}
use Prim.Native.String.{String}
use mathlib.Core.Path.{◌≡◌, refl, ap}
use mathlib.Core.Logic.{◌≢◌, ◌↔◌}
use mathlib.Core.Bool.{Bool, true, false, ◌&&◌}
use mathlib.Core.List.{List, [], ◌∷◌}
use native.Mathlib.Omega.{arith}
use native.Mathlib.Decide.{dec_le}
use python_backend_projects.Base.Text.{contains, str_dec}
use python_backend_projects.Base.Lists.{keep, all, any}

-- Filtering keeps exactly the members that pass the test.
pub contains-keep :
    (test : String → Bool) (xs : List String) (s : String)
    → contains (keep test xs) s ≡ (contains xs s && test s)
contains-keep test [] s = refl_false
  where
    refl_false : contains (keep test []) s ≡ (contains [] s && test s)
    refl_false = ground arith
contains-keep test (x ∷ xs) s = elim (str_dec s x) [
  | yes same ↦ ground (arith, contains-keep test xs s, same)
  | no other ↦ ground (arith, contains-keep test xs s)
]

pub contains→ne_nil : (xs : List String) (s : String) → contains xs s ≡ true → xs ≢ []
contains→ne_nil xs s h e = ground arith

-- A list with an element has one of least rank.
pub record Least (rank : String → ℕ) (xs : List String) : Type 0 where
  pub element : String
  pub member : contains xs element ≡ true
  pub least : (y : String) → contains xs y ≡ true → rank element ≤ rank y

pub minimum_of : (rank : String → ℕ) (x : String) (xs : List String) → Least rank (x ∷ xs)
minimum_of rank x [] = record { element = x; member = ground arith; least = λ y h. ground arith }
minimum_of rank x (z ∷ xs) =
    let rest = minimum_of rank z xs in
    elim (dec_le (rank x) (rank rest.element)) [
      | yes below ↦ record {
        element = x;
        member = ground arith;
        least = λ y h. ground (arith, rest.least y);
      }
      | no above ↦ record {
        element = rest.element;
        member = ground (arith, rest.member);
        least = λ y h. ground (arith, rest.least y);
      }
    ]

pub all_iff :
    (test : String → Bool) (xs : List String)
    → (all test xs ≡ true) ↔ ((s : String) → contains xs s ≡ true → test s ≡ true)
all_iff test xs = (sound xs, complete xs)
  where
    sound :
        (xs : List String)
        → all test xs ≡ true
        → (s : String) → contains xs s ≡ true
        → test s ≡ true
    sound [] h s m = cc
    sound (x ∷ xs) h s m = elim (str_dec s x) [
      | yes same ↦ ground (arith, same, ap test same)
      | no other ↦ ground (arith, sound xs (ground arith) s)
    ]

    complete :
        (xs : List String)
        → ((s : String) → contains xs s ≡ true → test s ≡ true)
        → all test xs ≡ true
    complete [] h = refl
    complete (x ∷ xs) h =
        ground (arith, h x (ground arith), complete xs (λ s m. h s (ground arith)))

pub any-eq-false :
    (test : String → Bool) (xs : List String)
    → (any test xs ≡ false) ↔ ((s : String) → contains xs s ≡ true → test s ≡ false)
any-eq-false test xs = (sound xs, complete xs)
  where
    sound :
        (xs : List String)
        → any test xs ≡ false
        → (s : String) → contains xs s ≡ true
        → test s ≡ false
    sound [] h s m = cc
    sound (x ∷ xs) h s m = elim (str_dec s x) [
      | yes same ↦ ground (arith, same, ap test same)
      | no other ↦ ground (arith, sound xs (ground arith) s)
    ]

    complete :
        (xs : List String)
        → ((s : String) → contains xs s ≡ true → test s ≡ false)
        → any test xs ≡ false
    complete [] h = refl
    complete (x ∷ xs) h =
        ground (arith, h x (ground arith), complete xs (λ s m. h s (ground arith)))

pub minimum_of_member :
    (rank : String → ℕ) (xs : List String) (s : String) → contains xs s ≡ true → Least rank xs
minimum_of_member rank [] s h = absurd (contains→ne_nil [] s h refl)
minimum_of_member rank (x ∷ xs) s h = minimum_of rank x xs

-- Filtering first by a test that every hit of the second passes changes nothing.
pub keep_within {ℓ} :
    {A : Type ℓ} (test within : A → Bool) (xs : List A)
    → ((x : A) → test x ≡ true → within x ≡ true)
    → keep test (keep within xs) ≡ keep test xs
keep_within test within [] h = refl
keep_within test within (x ∷ xs) h = ground (arith, keep_within test within xs h, h x)
