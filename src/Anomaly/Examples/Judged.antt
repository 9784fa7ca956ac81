-- ===== src/Anomaly/Examples/Judged.antt =====
-- The theorems about the detectors at concrete inputs: a float is a number of tenths.
use python_backend_projects.Base.{
  ℕ, suc, ◌+◌, ◌*◌, ◌/◌, ◌%◌, ◌-◌, ◌≤◌, ◌<◌, ◌≡◌, ◌↔◌, refl, String, true, false, List, [], ◌∷◌,
  ltb, leb, str_dec, ◌==◌, if◌then◌else◌, arith,
}
use native.Mathlib.Nat.{le-div_iff_mul-le}
use python_backend_projects.Anomaly.Floats.{Floats, AreFloats}
use python_backend_projects.Anomaly.Detectors.{zscore, mad_detect, ewma_detect}
use python_backend_projects.Anomaly.Detectors.Seasonal.{
  period_for, window_for, is_short, seasonal_detect, window_for-fits,
}
use python_backend_projects.Anomaly.Detectors.Severities.{IsReport, detect-IsReport}

abbrev literal : String → ℕ
literal s =
    if s == "0.0"
    then 0
    else if s == "1e-12"
    then 1
    else if s == "0.5"
    then 5
    else if s == "2.0"
    then 20
    else if s == "1e300"
    then 1000000
    else 10

abbrev largest : List ℕ → ℕ
largest [] = 0
largest (x ∷ xs) = x

abbrev tenths : Floats ℕ
tenths = record {
  lit = literal;
  of_nat = λ n. n * 10;
  add = λ a b. a + b;
  sub = λ a b. a - b;
  mul = λ a b. a * b / 10;
  div = λ a b. a * 10 / b;
  abs = λ a. a;
  exp = λ a. suc a;
  lt = ltb;
  ge = λ a b. leb b a;
  fixed4 = λ a. "x";
  str = λ a. "x";
  mean = largest;
  median = largest;
  std = largest;
  convolve_same = λ xs kernel. xs;
  isolation_forest = λ contamination seed xs x. (false, 0);
}

half_reached : (x t : ℕ) → 0 < t → t < x → 5 ≤ x * 10 / (t * 20 / 10)
half_reached x t positive above =
    let double : t * 20 / 10 ≡ t * 2 = omega arith in
    (le-div_iff_mul-le {k = t * 20 / 10} {x = 5} {y = x * 10} (omega (arith, double, positive))).1
      (omega (arith, double, above))

tenths-AreFloats : AreFloats tenths
unfolding str_dec
tenths-AreFloats = record { exceeds = halves; one_ge_half = refl }
  where
    halves :
        (x t : ℕ)
        → ltb 0 t ≡ true
        → ltb t 1000000 ≡ true
        → ltb t x ≡ true
        → leb 5 (x * 10 / (t * 20 / 10)) ≡ true
    halves x t positive below_limit above =
        ground (arith, half_reached x t (ground (arith, positive)) (ground (arith, above)))

window_for-fits_example :
    ((is_short 24 7 ≡ true) ↔ (7 < 4))
    × (4 ≤ 7
        → (3 ≤ window_for (period_for 24 7))
          × (window_for (period_for 24 7) ≤ 7)
          × (window_for (period_for 24 7) % 2 ≡ 1)
          × (period_for 24 7 * 2 ≤ 7))
window_for-fits_example = window_for-fits 24 7

detect-IsReport_example :
    IsReport tenths "zscore" 95 (zscore tenths 30 (10 ∷ 11 ∷ 12 ∷ 10 ∷ []) 95)
    × IsReport tenths "mad" 95 (mad_detect tenths 30 (10 ∷ 11 ∷ 12 ∷ 10 ∷ []) 95)
    × IsReport tenths "ewma" 95 (ewma_detect tenths 3 30 (10 ∷ 11 ∷ 12 ∷ 10 ∷ []) 95)
    × IsReport tenths "seasonal" 95 (seasonal_detect tenths 3 30 (10 ∷ 11 ∷ 12 ∷ 10 ∷ []) 95)
unfolding str_dec
detect-IsReport_example =
    detect-IsReport tenths tenths-AreFloats 30 3 (10 ∷ 11 ∷ 12 ∷ 10 ∷ []) 95 refl refl
