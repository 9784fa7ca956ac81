-- ===== src/Base/Rows.antt =====
-- The rows of a table as a list, found by their key: the first row of that key.
use Prim.Native.Nat.{ℕ}
use mathlib.Core.Option
use mathlib.Core.Path.{◌≡◌}
use mathlib.Core.Option.{Option, none, some}
use mathlib.Core.List.{List, [], ◌∷◌, ◌++◌}
use native.Mathlib.Omega.{arith}
use python_backend_projects.Base.Lists.{All}
use python_backend_projects.Base.Tests.{if-both, nat_eq, if◌then◌else◌}

module _ {A : Type 0} (key : A → ℕ) where
  unfoldable pub find_row : ℕ → List A → Option A
  find_row k [] = none
  find_row k (x ∷ xs) = if nat_eq (key x) k then some x else find_row k xs

  unfoldable pub update_row : ℕ → (A → A) → List A → List A
  update_row k f [] = []
  update_row k f (x ∷ xs) = if nat_eq (key x) k then f x ∷ xs else x ∷ update_row k f xs

  unfoldable pub remove_row : ℕ → List A → List A
  remove_row k [] = []
  remove_row k (x ∷ xs) = if nat_eq (key x) k then xs else x ∷ remove_row k xs

  pub find_row-update_row :
      (k j : ℕ) (f : A → A) (xs : List A)
      → ((x : A) → key (f x) ≡ key x)
      → find_row j (update_row k f xs)
        ≡ (if nat_eq k j then Option.map f (find_row k xs) else find_row j xs)
  unfolding find_row update_row
  find_row-update_row k j f [] keeps = ground arith
  find_row-update_row k j f (x ∷ xs) keeps =
      ground (arith, keeps x, find_row-update_row k j f xs keeps)

  pub All-append : (P : A → Type 0) (xs : List A) (y : A) → All P xs → P y → All P (xs ++ (y ∷ []))
  All-append P [] y h new = (new, tt)
  All-append P (x ∷ xs) y h new = (h.0, All-append P xs y h.1 new)

  pub All-update_row :
      (P : A → Type 0) (k : ℕ) (f : A → A) (xs : List A)
      → ((x : A) → P x → P (f x))
      → All P xs
      → All P (update_row k f xs)
  unfolding update_row
  All-update_row P k f [] keeps h = tt
  All-update_row P k f (x ∷ xs) keeps h =
      if-both (All P) (nat_eq (key x) k) (keeps x h.0, h.1) (h.0, All-update_row P k f xs keeps h.1)

  pub All-remove_row : (P : A → Type 0) (k : ℕ) (xs : List A) → All P xs → All P (remove_row k xs)
  unfolding remove_row
  All-remove_row P k [] h = tt
  All-remove_row P k (x ∷ xs) h =
      if-both (All P) (nat_eq (key x) k) h.1 (h.0, All-remove_row P k xs h.1)
