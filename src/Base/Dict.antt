-- ===== src/Base/Dict.antt =====
-- Python dicts keyed by texts, in insertion order.
use mathlib.Core.Path.{◌≡◌, refl, subst}
use mathlib.Core.Bool.{true}
use mathlib.Core.Option.{Option, none, some}
use mathlib.Core.List.{List, [], ◌∷◌}
use native.Mathlib.Omega.{arith}
use mathlib.Core.Logic.{if_pos, if_neg}
use Prim.Native.String.{String}
use python_backend_projects.Base.Tests.{if◌then◌else◌}
use python_backend_projects.Base.Text.{◌==◌, contains, str_dec}
use python_backend_projects.Base.Effects.{Result, return, raise, key_error}

abbrev pub Dict {ℓ} : Type ℓ → Type ℓ
Dict V = List (String × V)

module _ {ℓ} {V : Type ℓ} where
  abbrev pub keys : Dict V → List String
  keys [] = []
  keys ((k, v) ∷ d) = k ∷ keys d

  abbrev pub values : Dict V → List V
  values [] = []
  values ((k, v) ∷ d) = v ∷ values d

  -- `d.get(k)`
  abbrev pub lookup : String → Dict V → Option V
  lookup k [] = none
  lookup k ((j, v) ∷ d) = if k == j then some v else lookup k d

  -- `d[k] = v`
  abbrev pub insert : String → V → Dict V → Dict V
  insert k v [] = (k, v) ∷ []
  insert k v ((j, w) ∷ d) = if k == j then (j, v) ∷ d else (j, w) ∷ insert k v d

  -- `d[k]`
  abbrev pub get_item : String → Dict V → Result V
  get_item k d = elim (lookup k d) [ none ↦ raise (key_error k) | some v ↦ return v ]

  -- A predicate of every entry.
  abbrev pub AllEntries {κ} : (String → V → Type κ) → Dict V → Type κ
  AllEntries P [] = Unit
  AllEntries P ((k, v) ∷ d) = P k v × AllEntries P d

  pub lookup-insert :
      (k j : String) (v : V) (d : Dict V)
      → lookup j (insert k v d) ≡ (if j == k then some v else lookup j d)
  lookup-insert k j v [] = refl
  lookup-insert k j v ((i, w) ∷ d) = ground (arith, lookup-insert k j v d)

  pub contains-keys-insert :
      (k j : String) (v : V) (d : Dict V)
      → contains (keys (insert k v d)) j ≡ (if j == k then true else contains (keys d) j)
  contains-keys-insert k j v [] = ground arith
  contains-keys-insert k j v ((i, w) ∷ d) = ground (arith, contains-keys-insert k j v d)

  pub AllEntries-insert {κ} :
      (P : String → V → Type κ) (k : String) (v : V) (d : Dict V)
      → P k v
      → AllEntries P d
      → AllEntries P (insert k v d)
  AllEntries-insert P k v [] p h = (p, tt)
  AllEntries-insert P k v ((i, w) ∷ d) p h = elim (str_dec k i) [
    | yes same ↦ rw (if_pos _ same) (subst (λ j. P j v) same p, h.1)
    | no other ↦ rw (if_neg _ other) (h.0, AllEntries-insert P k v d p h.1)
  ]

  -- A key that is present has a value.
  pub contains→lookup :
      (k : String) (d : Dict V) → contains (keys d) k ≡ true → (v : V) × (lookup k d ≡ some v)
  contains→lookup k [] h = cc
  contains→lookup k ((j, w) ∷ d) h = elim (str_dec k j) [
    | yes same ↦ (w, ground arith)
    | no other ↦ let (v, e) = contains→lookup k d (ground arith) in (v, ground arith)
  ]
