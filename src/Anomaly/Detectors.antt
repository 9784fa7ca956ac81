-- ===== src/Anomaly/Detectors.antt =====
-- app/detectors: the detectors of a metric's window and their registry. app/detectors/iqr.py is
-- imported there and is not in the repository: the detector of that name is a parameter. A
-- divisor of zero does not occur: the thresholds are positive and a deviation below 1e-12 is not
-- divided by.
pub mod Seasonal
pub mod Registry
pub mod Severities
use python_backend_projects.Base.{
  ℕ, zero, suc, ◌-◌, max, String, ◌<>◌, Bool, true, false, Option, none, some, List, [], ◌∷◌, ◌++◌,
  length, drop, map, is_empty, ltb, if◌then◌else◌,
}
use python_backend_projects.Anomaly.Records.{DetectionResult}
use python_backend_projects.Anomaly.Floats.{Floats, min_float}

module _ {F : Type 0} (fl : Floats F) where
  -- `_calculate_severity`
  unfoldable pub calculate_severity : F → String
  calculate_severity score =
      if fl.ge score (fl.lit "0.9")
      then "critical"
      else if fl.ge score (fl.lit "0.7")
      then "high"
      else if fl.ge score (fl.lit "0.5")
      then "medium"
      else "low"

  -- `self._calculate_severity(score) if is_anomaly else "low"`
  unfoldable pub severity_of : (is_anomaly : Bool) → (score : F) → String
  severity_of is_anomaly score = if is_anomaly then calculate_severity score else "low"

  -- the result of a history that is too short
  abbrev pub insufficient :
      (expected current : F) → (detector_name reason : String) → DetectionResult F
  insufficient expected current detector_name reason = record {
    is_anomaly = false;
    score = fl.lit "0.0";
    expected_value = some expected;
    actual_value = current;
    deviation = fl.lit "0.0";
    detector_name = detector_name;
    severity = "low";
    reason = reason;
  }

  -- `float(np.mean(hist)) if hist.size else current_value`, for any statistic
  abbrev pub or_current : (List F → F) → List F → F → F
  or_current statistic [] current = current
  or_current statistic (x ∷ xs) current = statistic (x ∷ xs)

  -- `0.0 if spread < 1e-12 else z`
  abbrev pub unless_flat : (spread z : F) → F
  unless_flat spread z = if fl.lt spread (fl.lit "1e-12") then fl.lit "0.0" else z

  -- `min(1.0, z / (threshold * 2))`
  unfoldable pub score_of : (z threshold : F) → F
  score_of z threshold = min_float fl (fl.lit "1.0") (fl.div z (fl.mul threshold (fl.lit "2.0")))

  -- `... if self._threshold > 0 else 0.0`
  unfoldable pub score_if_positive : (z threshold : F) → F
  score_if_positive z threshold =
      if fl.lt (fl.lit "0.0") threshold then score_of z threshold else fl.lit "0.0"

  -- ZScoreDetector
  unfoldable pub zscore : (threshold : F) → List F → F → DetectionResult F
  zscore threshold values current =
      let mean = or_current fl.mean values current in
      let std = if ltb 1 (length values) then fl.std values else fl.lit "0.0" in
      let z = unless_flat std (fl.div (fl.abs (fl.sub current mean)) std) in
      let score = score_if_positive z threshold in
      let is_anomaly = fl.lt threshold z in
      record {
        is_anomaly = is_anomaly;
        score = score;
        expected_value = some mean;
        actual_value = current;
        deviation = fl.abs (fl.sub current mean);
        detector_name = "zscore";
        severity = severity_of is_anomaly score;
        reason = "z=" <> fl.fixed4 z <> " vs threshold " <> fl.str threshold;
      }

  -- MADDetector, with a history of three values or more
  unfoldable pub mad_of : (threshold : F) → List F → F → DetectionResult F
  mad_of threshold values current =
      let med = fl.median values in
      let mad = fl.median (map (λ x. fl.abs (fl.sub x med)) values) in
      let mod_z =
        unless_flat mad (fl.abs (fl.div (fl.mul (fl.lit "0.6745") (fl.sub current med)) mad)) in
      let score = score_if_positive mod_z threshold in
      let is_anomaly = fl.lt threshold mod_z in
      record {
        is_anomaly = is_anomaly;
        score = score;
        expected_value = some med;
        actual_value = current;
        deviation = fl.abs (fl.sub current med);
        detector_name = "mad";
        severity = severity_of is_anomaly score;
        reason = "modified_z=" <> fl.fixed4 mod_z <> " vs threshold " <> fl.str threshold;
      }

  unfoldable pub mad_detect : (threshold : F) → List F → F → DetectionResult F
  mad_detect threshold values current =
      if ltb (length values) 3
      then insufficient (or_current fl.median values current) current "mad"
          "insufficient history for MAD"
      else mad_of threshold values current

  -- the rest of `_ewma_series`, after the value `previous`
  unfoldable pub ewma_from : (alpha previous : F) → List F → List F
  ewma_from alpha previous [] = []
  ewma_from alpha previous (x ∷ xs) =
      let next = fl.add (fl.mul alpha x) (fl.mul (fl.sub (fl.lit "1.0") alpha) previous) in
      next ∷ ewma_from alpha next xs

  unfoldable pub ewma_series : List F → (span : ℕ) → List F
  ewma_series [] span = []
  ewma_series (x ∷ xs) span = x ∷ ewma_from (fl.div (fl.lit "2.0") (fl.of_nat (suc span))) x xs

  -- `xs - ys`, element by element
  unfoldable pub minus : List F → List F → List F
  minus [] ys = []
  minus (x ∷ xs) [] = []
  minus (x ∷ xs) (y ∷ ys) = fl.sub x y ∷ minus xs ys

  -- `xs[-1]`; the lists of the detectors are not empty
  unfoldable pub last_value : List F → F
  last_value [] = fl.lit "0.0"
  last_value (x ∷ []) = x
  last_value (x ∷ y ∷ rest) = last_value (y ∷ rest)

  -- EWMADetector, with as many values as its span or more
  unfoldable pub ewma_of : (span : ℕ) → (sigma_threshold : F) → List F → F → DetectionResult F
  ewma_of span sigma_threshold hist current =
      let ew = ewma_series hist span in
      let expected = last_value ew in
      let resid = minus hist ew in
      let win = drop (length resid - span) resid in
      let std = if ltb 1 (length win) then fl.std win else fl.lit "0.0" in
      let z = unless_flat std (fl.div (fl.abs (fl.sub current expected)) std) in
      let score = score_of z sigma_threshold in
      let is_anomaly = fl.lt sigma_threshold z in
      record {
        is_anomaly = is_anomaly;
        score = score;
        expected_value = some expected;
        actual_value = current;
        deviation = fl.abs (fl.sub current expected);
        detector_name = "ewma";
        severity = severity_of is_anomaly score;
        reason = "EWMA deviation z=" <> fl.fixed4 z;
      }

  -- `max(2, span)`, as the constructor keeps it
  unfoldable pub ewma_detect : (span : ℕ) → (sigma_threshold : F) → List F → F → DetectionResult F
  ewma_detect span sigma_threshold hist current =
      if ltb (length hist) (max 2 span)
      then insufficient (or_current fl.mean hist current) current "ewma"
          "insufficient points for EWMA"
      else ewma_of (max 2 span) sigma_threshold hist current

  -- IsolationForestDetector
  unfoldable pub isolation_of :
      (pred_is_outlier : Bool) → (raw : F) → List F → F → DetectionResult F
  isolation_of is_anomaly raw hist current =
      let score =
        fl.div (fl.lit "1.0") (fl.add (fl.lit "1.0") (fl.exp (fl.mul raw (fl.lit "4.0")))) in
      let expected = fl.mean hist in
      record {
        is_anomaly = is_anomaly;
        score = if is_anomaly then score else min_float fl score (fl.lit "0.3");
        expected_value = some expected;
        actual_value = current;
        deviation = fl.abs (fl.sub current expected);
        detector_name = "isolation_forest";
        severity = severity_of is_anomaly score;
        reason = "isolation score=" <> fl.fixed4 raw;
      }

  unfoldable pub isolation_detect : List F → F → DetectionResult F
  isolation_detect hist current =
      if ltb (length hist) 8
      then insufficient (or_current fl.mean hist current) current "isolation_forest"
          "insufficient history for isolation forest"
      else let (pred_is_outlier, raw) =
          fl.isolation_forest (min_float fl (fl.lit "0.05") (fl.lit "0.5")) 42 hist current in
        isolation_of pred_is_outlier raw hist current
