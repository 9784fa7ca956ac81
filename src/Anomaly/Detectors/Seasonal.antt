-- ===== src/Anomaly/Detectors/Seasonal.antt =====
-- app/detectors/seasonal.py: the period and the window by the length of the history, and the
-- decomposition.
use python_backend_projects.Base.{
  ℕ, zero, suc, ◌+◌, ◌*◌, ◌-◌, ◌/◌, ◌%◌, ◌≤◌, ◌<◌, ◌≡◌, ◌↔◌, min, max, ◌<>◌, Bool, true, some, List,
  [], ◌∷◌, length, ltb, nat_eq, if◌then◌else◌, arith,
}
use python_backend_projects.Anomaly.Records.{DetectionResult}
use python_backend_projects.Anomaly.Floats.{Floats}
use python_backend_projects.Anomaly.Detectors.{
  insufficient, or_current, unless_flat, score_of, severity_of, minus, last_value,
}

-- `min(self._period, max(2, n // 3))`, where `self._period` is `max(2, period)`
unfoldable pub period_for : (period n : ℕ) → ℕ
period_for period n = min (max 2 period) (max 2 (n / 3))

-- `max(3, period // 2 | 1)`
unfoldable pub window_for : (period : ℕ) → ℕ
window_for period = let half = period / 2 in max 3 (half - half % 2 + 1)

-- `n < period * 2`
unfoldable pub is_short : (period n : ℕ) → Bool
is_short period n = ltb n (period_for period n * 2)

-- Four values are enough whatever the period; the window is then odd, at least three, and no longer
-- than the history, so that `np.convolve(hist, kernel, mode="same")` is as long as the history.
pub window_for-fits :
    (period n : ℕ)
    → ((is_short period n ≡ true) ↔ (n < 4))
      × (4 ≤ n
          → (3 ≤ window_for (period_for period n))
            × (window_for (period_for period n) ≤ n)
            × (window_for (period_for period n) % 2 ≡ 1)
            × (period_for period n * 2 ≤ n))
unfolding period_for window_for is_short
window_for-fits period n = (
  ((λ h. ground (arith, h)), (λ h. ground (arith, h))),
  (λ h. (omega arith, ground arith, ground arith, ground arith)),
)

module _ {F : Type 0} (fl : Floats F) where
  -- `detrended[np.arange(n) % period == phase]`, from index `i` on
  unfoldable pub at_phase : (period phase i : ℕ) → List F → List F
  at_phase period phase i [] = []
  at_phase period phase i (x ∷ xs) =
      let rest = at_phase period phase (suc i) xs in
      if nat_eq (i % period) phase then x ∷ rest else rest

  -- the means of the phases, for the indices from `i` on; the third list gives their number
  unfoldable pub seasonal_from : (period i : ℕ) → (detrended left : List F) → List F
  seasonal_from period i detrended [] = []
  seasonal_from period i detrended (_ ∷ left) =
      fl.mean (at_phase period (i % period) 0 detrended)
      ∷ seasonal_from period (suc i) detrended left

  unfoldable pub ones : ℕ → F → List F
  ones zero x = []
  ones (suc n) x = x ∷ ones n x

  -- SeasonalDecompositionDetector, with a history of two periods or more
  unfoldable pub seasonal_of : (period : ℕ) → (z_threshold : F) → List F → F → DetectionResult F
  seasonal_of period z_threshold hist current =
      let window = window_for period in
      let kernel = ones window (fl.div (fl.lit "1.0") (fl.of_nat window)) in
      let trend = fl.convolve_same hist kernel in
      let detrended = minus fl hist trend in
      let seasonal = seasonal_from period 0 detrended hist in
      let residual_hist = minus fl (minus fl hist trend) seasonal in
      let expected = fl.add (last_value fl trend) (last_value fl seasonal) in
      let resid_std = if ltb 2 (length hist) then fl.std residual_hist else fl.lit "0.0" in
      let point_residual = fl.sub current expected in
      let z = unless_flat fl resid_std (fl.div (fl.abs point_residual) resid_std) in
      let score = score_of fl z z_threshold in
      let is_anomaly = fl.lt z_threshold z in
      record {
        is_anomaly = is_anomaly;
        score = score;
        expected_value = some expected;
        actual_value = current;
        deviation = fl.abs point_residual;
        detector_name = "seasonal";
        severity = severity_of fl is_anomaly score;
        reason = "seasonal residual z=" <> fl.fixed4 z;
      }

  unfoldable pub seasonal_detect : (period : ℕ) → (z_threshold : F) → List F → F → DetectionResult F
  seasonal_detect period z_threshold hist current =
      if is_short period (length hist)
      then insufficient fl (or_current fl fl.mean hist current) current "seasonal"
          "insufficient history for seasonal model"
      else seasonal_of (period_for period (length hist)) z_threshold hist current
