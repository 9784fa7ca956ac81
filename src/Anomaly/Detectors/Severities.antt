-- ===== src/Anomaly/Detectors/Severities.antt =====
-- What the results of the detectors (app/detectors) tell of their severity.
use text.Mathlib.TextEquality.{eq_iff}
use python_backend_projects.Base.{
  ℕ, ◌≡◌, ◌≢◌, ◌↔◌, inl, inr, refl, String, true, false, List, length, max, ltb, if-both,
  Bool-cases, arith,
}
use python_backend_projects.Anomaly.Records.{DetectionResult}
use python_backend_projects.Anomaly.Floats.{Floats, AreFloats}
use python_backend_projects.Anomaly.Detectors.{
  calculate_severity, severity_of, insufficient, or_current, score_of, score_if_positive, zscore,
  mad_of, mad_detect, ewma_of, ewma_detect,
}
use python_backend_projects.Anomaly.Detectors.Seasonal.{
  is_short, period_for, seasonal_of, seasonal_detect,
}

module _ {F : Type 0} (fl : Floats F) where
  -- A result is of this detector and this value, and its severity is above low exactly if it is an
  -- anomaly.
  abbrev pub IsReport : (name : String) → (current : F) → DetectionResult F → Type 0
  IsReport name current r =
      (r.detector_name ≡ name)
      × (r.actual_value ≡ current)
      × ((r.severity ≡ "low") ↔ (r.is_anomaly ≡ false))

  at_least_medium :
      (score : F) → fl.ge score (fl.lit "0.5") ≡ true → calculate_severity fl score ≢ "low"
  unfolding calculate_severity
  at_least_medium score h =
      ground (arith, h, eq_iff "critical" "low", eq_iff "high" "low", eq_iff "medium" "low")

  module _ (laws : AreFloats fl) where
    score_of-half :
        (z threshold : F)
        → fl.lt (fl.lit "0.0") threshold ≡ true
        → fl.lt threshold (fl.lit "1e300") ≡ true
        → fl.lt threshold z ≡ true
        → fl.ge (score_of fl z threshold) (fl.lit "0.5") ≡ true
    unfolding score_of
    score_of-half z threshold positive below_limit above =
        if-both (λ x. fl.ge x (fl.lit "0.5") ≡ true)
          (fl.lt (fl.div z (fl.mul threshold (fl.lit "2.0"))) (fl.lit "1.0"))
          (laws.exceeds z threshold positive below_limit above) laws.one_ge_half

    severity_of_low :
        (z threshold : F)
        → fl.lt (fl.lit "0.0") threshold ≡ true
        → fl.lt threshold (fl.lit "1e300") ≡ true
        → (severity_of fl (fl.lt threshold z) (score_of fl z threshold) ≡ "low")
          ↔ (fl.lt threshold z ≡ false)
    unfolding severity_of
    severity_of_low z threshold positive below_limit = elim (Bool-cases (fl.lt threshold z)) [
      | inl above ↦
          let high =
            at_least_medium (score_of fl z threshold)
              (score_of-half z threshold positive below_limit above) in
          rw above ((λ h. absurd (high h)), (λ h. cc))
      | inr below ↦ rw below ((λ h. refl), (λ h. refl))
    ]

    severity_if_positive_low :
        (z threshold : F)
        → fl.lt (fl.lit "0.0") threshold ≡ true
        → fl.lt threshold (fl.lit "1e300") ≡ true
        → (severity_of fl (fl.lt threshold z) (score_if_positive fl z threshold) ≡ "low")
          ↔ (fl.lt threshold z ≡ false)
    unfolding score_if_positive
    severity_if_positive_low z threshold positive below_limit =
        rw positive (severity_of_low z threshold positive below_limit)

    insufficient-IsReport :
        (expected current : F) (name reason : String)
        → IsReport name current (insufficient fl expected current name reason)
    insufficient-IsReport expected current name reason = (refl, refl, ((λ h. refl), (λ h. refl)))

    zscore-IsReport :
        (threshold : F) (values : List F) (current : F)
        → fl.lt (fl.lit "0.0") threshold ≡ true
        → fl.lt threshold (fl.lit "1e300") ≡ true
        → IsReport "zscore" current (zscore fl threshold values current)
    unfolding zscore
    zscore-IsReport threshold values current positive below_limit =
        (refl, refl, severity_if_positive_low _ threshold positive below_limit)

    mad_of-IsReport :
        (threshold : F) (values : List F) (current : F)
        → fl.lt (fl.lit "0.0") threshold ≡ true
        → fl.lt threshold (fl.lit "1e300") ≡ true
        → IsReport "mad" current (mad_of fl threshold values current)
    unfolding mad_of
    mad_of-IsReport threshold values current positive below_limit =
        (refl, refl, severity_if_positive_low _ threshold positive below_limit)

    ewma_of-IsReport :
        (span : ℕ) (threshold : F) (values : List F) (current : F)
        → fl.lt (fl.lit "0.0") threshold ≡ true
        → fl.lt threshold (fl.lit "1e300") ≡ true
        → IsReport "ewma" current (ewma_of fl span threshold values current)
    unfolding ewma_of
    ewma_of-IsReport span threshold values current positive below_limit =
        (refl, refl, severity_of_low _ threshold positive below_limit)

    seasonal_of-IsReport :
        (period : ℕ) (threshold : F) (values : List F) (current : F)
        → fl.lt (fl.lit "0.0") threshold ≡ true
        → fl.lt threshold (fl.lit "1e300") ≡ true
        → IsReport "seasonal" current (seasonal_of fl period threshold values current)
    unfolding seasonal_of
    seasonal_of-IsReport period threshold values current positive below_limit =
        (refl, refl, severity_of_low _ threshold positive below_limit)

    -- For a positive threshold below 1e300, each of the detectors that compare a deviation with it
    -- reports its name, the value that it was given, and a severity above low exactly if the value
    -- is an anomaly, whatever the history is, also an empty or a short one. Comparison, division
    -- and the literals of floats are taken to be as documented.
    pub detect-IsReport :
        (threshold : F) (n : ℕ) (values : List F) (current : F)
        → fl.lt (fl.lit "0.0") threshold ≡ true
        → fl.lt threshold (fl.lit "1e300") ≡ true
        → IsReport "zscore" current (zscore fl threshold values current)
          × IsReport "mad" current (mad_detect fl threshold values current)
          × IsReport "ewma" current (ewma_detect fl n threshold values current)
          × IsReport "seasonal" current (seasonal_detect fl n threshold values current)
    unfolding mad_detect ewma_detect seasonal_detect
    detect-IsReport threshold n values current positive below_limit = (
      zscore-IsReport threshold values current positive below_limit,
      if-both (IsReport "mad" current) (ltb (length values) 3)
          (insufficient-IsReport (or_current fl fl.median values current) current "mad"
            "insufficient history for MAD")
          (mad_of-IsReport threshold values current positive below_limit),
      if-both (IsReport "ewma" current) (ltb (length values) (max 2 n))
          (insufficient-IsReport (or_current fl fl.mean values current) current "ewma"
            "insufficient points for EWMA")
          (ewma_of-IsReport (max 2 n) threshold values current positive below_limit),
      if-both (IsReport "seasonal" current) (is_short n (length values))
          (insufficient-IsReport (or_current fl fl.mean values current) current "seasonal"
            "insufficient history for seasonal model")
          (seasonal_of-IsReport (period_for n (length values)) threshold values current positive
            below_limit),
    )
