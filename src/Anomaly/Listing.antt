-- ===== src/Anomaly/Listing.antt =====
-- app/services/anomaly_service.py: `list_anomalies`. The two statements are filtered alike and
-- executed one after the other, so each has the table as it then is; the rows of the second come
-- newest first, in the order that the database gives; a filter that is absent stands for None or
-- the empty text.
pub mod Filtered
use python_backend_projects.Base.{
  ℕ, ◌-◌, ◌*◌, String, Bool, true, ◌&&◌, Option, none, some, List, keep, length, take, drop, leb,
  ◌==◌,
}
use python_backend_projects.Anomaly.Records.{AnomalyRecord}

pub record Filters : Type 0 where
  pub severity : Option String
  pub status : Option String
  pub detector : Option String
  pub start : Option ℕ
  pub stop : Option ℕ

abbrev pub is_text : Option String → String → Bool
is_text none t = true
is_text (some s) t = t == s

abbrev pub is_from : Option ℕ → ℕ → Bool
is_from none t = true
is_from (some start) t = leb start t

abbrev pub is_until : Option ℕ → ℕ → Bool
is_until none t = true
is_until (some stop) t = leb t stop

module _ (F : Type 0) where
  unfoldable pub passes : Filters → AnomalyRecord F → Bool
  passes f rec =
      is_text f.severity rec.severity
      && is_text f.status rec.status
      && is_text f.detector rec.detector_type
      && is_from f.start rec.detected_at
      && is_until f.stop rec.detected_at

  -- the page and the total; the subtraction stops at 0 as `max(page - 1, 0)` does
  unfoldable pub list_anomalies :
      (counted newest_first : List (AnomalyRecord F))
      → (page size : ℕ) → Filters
      → List (AnomalyRecord F) × ℕ
  list_anomalies counted newest_first page size f = (
    take size (drop ((page - 1) * size) (keep (passes f) newest_first)),
    length (keep (passes f) counted),
  )
