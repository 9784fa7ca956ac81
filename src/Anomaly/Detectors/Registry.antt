-- ===== src/Anomaly/Detectors/Registry.antt =====
-- app/detectors/__init__.py: the registry, with the settings of app/config.py and the defaults of
-- the detectors' constructors.
use python_backend_projects.Base.{
  String, Option, none, some, List, [], ◌∷◌, map, Result, return, raise, key_error, ◌<>◌,
}
use python_backend_projects.Base.Dict.{Dict, lookup}
use python_backend_projects.Anomaly.Records.{DetectionResult}
use python_backend_projects.Anomaly.Floats.{Floats}
use python_backend_projects.Anomaly.Detectors.{zscore, mad_detect, ewma_detect, isolation_detect}
use python_backend_projects.Anomaly.Detectors.Seasonal.{seasonal_detect}

module _ {F : Type 0} (fl : Floats F)
    (iqr : (multiplier : F) → List F → F → DetectionResult F) where
  abbrev pub Detector : Type 0
  Detector = List F → F → DetectionResult F

  unfoldable pub detectors : Dict Detector
  detectors =
      ("zscore", zscore fl (fl.lit "3.0"))
      ∷ ("iqr", iqr (fl.lit "1.5"))
      ∷ ("mad", mad_detect fl (fl.lit "3.5"))
      ∷ ("ewma", ewma_detect fl 20 (fl.lit "3.0"))
      ∷ ("isolation_forest", isolation_detect fl)
      ∷ ("seasonal", seasonal_detect fl 24 (fl.lit "3.0"))
      ∷ []

  abbrev pub found_detector : String → Option Detector → Result Detector
  found_detector name none = raise (key_error ("unknown detector: " <> name))
  found_detector name (some d) = return d

  unfoldable pub get_detector : String → Result Detector
  get_detector name = found_detector name (lookup name detectors)

  unfoldable pub get_all_detectors : List Detector
  get_all_detectors = map (λ (entry : String × Detector). entry.1) detectors

  unfoldable pub detect_with_all : List F → F → List (DetectionResult F)
  detect_with_all values current = map (λ (d : Detector). d values current) get_all_detectors
