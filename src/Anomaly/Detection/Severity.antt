-- ===== src/Anomaly/Detection/Severity.antt =====
-- Which severities meet a rule's threshold (app/services/detection_engine.py).
use python_backend_projects.Base.{
  ap, ℕ, ◌≤◌, ◌≡◌, ◌↔◌, refl, ◌⊎◌, inl, inr, String, true, str_dec, ==→eq, ◌==◌, Bool-cases, arith,
}
use python_backend_projects.Anomaly.Detection.{severity_rank, severity_meets_threshold}

pub data Level : Type 0 where
  low medium high critical : Level

abbrev pub level_text : Level → String
level_text low = "low"
level_text medium = "medium"
level_text high = "high"
level_text critical = "critical"

abbrev pub level_rank : Level → ℕ
level_rank low = 1
level_rank medium = 2
level_rank high = 3
level_rank critical = 4

severity_rank-level_text : (l : Level) (d : ℕ) → severity_rank (level_text l) d ≡ level_rank l
unfolding severity_rank str_dec
severity_rank-level_text low d = refl
severity_rank-level_text medium d = refl
severity_rank-level_text high d = refl
severity_rank-level_text critical d = refl

severity_rank-cases :
    (s : String) → ((l : Level) × (s ≡ level_text l)) ⊎ ((d : ℕ) → severity_rank s d ≡ d)
unfolding severity_rank
severity_rank-cases s = elim (Bool-cases (s == "low")) [
  | inl e ↦ inl (low, ==→eq s "low" e)
  | inr a ↦ elim (Bool-cases (s == "medium")) [
    | inl e ↦ inl (medium, ==→eq s "medium" e)
    | inr b ↦ elim (Bool-cases (s == "high")) [
      | inl e ↦ inl (high, ==→eq s "high" e)
      | inr c ↦ elim (Bool-cases (s == "critical")) [
        | inl e ↦ inl (critical, ==→eq s "critical" e)
        | inr d ↦ inr (λ n. rw (a, b, c, d) refl)
      ]
    ]
  ]
]

level_rank-bounds : (l : Level) → (1 ≤ level_rank l) × (level_rank l ≤ 4)
level_rank-bounds low = (omega arith, omega arith)
level_rank-bounds medium = (omega arith, omega arith)
level_rank-bounds high = (omega arith, omega arith)
level_rank-bounds critical = (omega arith, omega arith)

-- both texts are levels, and the severity's is not below the threshold's
pub data Meets (severity threshold : String) : Type 0 where
  meets :
      (a b : Level)
      → severity ≡ level_text a
      → threshold ≡ level_text b
      → level_rank b ≤ level_rank a
      → Meets severity threshold

Meets-sound :
    (severity threshold : String)
    → severity_meets_threshold severity threshold ≡ true
    → Meets severity threshold
unfolding severity_meets_threshold
Meets-sound severity threshold h = elim (severity_rank-cases severity) [
  | inl (a, ea) ↦ elim (severity_rank-cases threshold) [
    | inl (b, eb) ↦ meets a b ea eb (
        ground (
          arith,
          h,
          ap (λ s. severity_rank s 0) ea,
          ap (λ s. severity_rank s 99) eb,
          severity_rank-level_text a 0,
          severity_rank-level_text b 99,
        ))
    | inr none ↦ absurd (
        ground (
          arith,
          h,
          none 99,
          ap (λ s. severity_rank s 0) ea,
          severity_rank-level_text a 0,
          level_rank-bounds a,
        ))
  ]
  | inr none_s ↦ elim (severity_rank-cases threshold) [
    | inl (b, eb) ↦ absurd (
        ground (
          arith,
          h,
          none_s 0,
          ap (λ s. severity_rank s 99) eb,
          severity_rank-level_text b 99,
          level_rank-bounds b,
        ))
    | inr none ↦ absurd (ground (arith, h, none 99, none_s 0))
  ]
]

Meets-complete :
    (severity threshold : String)
    → Meets severity threshold
    → severity_meets_threshold severity threshold ≡ true
unfolding severity_meets_threshold
Meets-complete severity threshold (meets a b ea eb le) = ground (
  arith,
  le,
  ap (λ s. severity_rank s 0) ea,
  ap (λ s. severity_rank s 99) eb,
  severity_rank-level_text a 0,
  severity_rank-level_text b 99,
)

-- A severity meets a threshold exactly if both are levels and the first is not below the second: a
-- text that is no level meets nothing and is met by nothing.
pub severity_meets_threshold-Meets :
    (severity threshold : String)
    → (severity_meets_threshold severity threshold ≡ true) ↔ Meets severity threshold
severity_meets_threshold-Meets severity threshold =
    (Meets-sound severity threshold, Meets-complete severity threshold)
