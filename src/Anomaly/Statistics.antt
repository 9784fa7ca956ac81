-- ===== src/Anomaly/Statistics.antt =====
-- app/services/anomaly_service.py: the statistics of all anomalies. A time is in seconds since
-- 1970, and a date is the number of its day.
pub mod Sums
use python_backend_projects.Base.{
  ℕ, ◌-◌, ◌*◌, ◌/◌, String, Bool, List, [], length, map, keep, leb, nat_eq, ◌==◌,
}
use python_backend_projects.Anomaly.Records.{AnomalyRecord}
use python_backend_projects.Anomaly.Dashboard.{group_counts, order_groups, by_hour}

-- app/schemas/anomaly.py
pub record AnomalyStats : Type 0 where
  pub total : ℕ
  pub by_severity : List (String × ℕ)
  pub by_detector : List (String × ℕ)
  pub by_status : List (String × ℕ)
  pub trend : List (ℕ × ℕ)

-- `func.date(t)`
abbrev pub day_of : ℕ → ℕ
day_of t = t / 86400

-- the start of the day 13 days ago
abbrev pub trend_start : (now : ℕ) → ℕ
trend_start now = (day_of now - 13) * 86400

module _ {F : Type 0} where
  abbrev pub severity_of_record : AnomalyRecord F → String
  severity_of_record rec = rec.severity

  abbrev pub detector_of_record : AnomalyRecord F → String
  detector_of_record rec = rec.detector_type

  abbrev pub status_of_record : AnomalyRecord F → String
  status_of_record rec = rec.status

  abbrev pub day_of_record : AnomalyRecord F → ℕ
  day_of_record rec = day_of rec.detected_at

  abbrev pub is_recent : (now : ℕ) → AnomalyRecord F → Bool
  is_recent now rec = leb (trend_start now) rec.detected_at

  -- The groups are ordered by their day, which is a number as the hours of the dashboard are.
  unfoldable pub get_stats : (now : ℕ) → List (AnomalyRecord F) → AnomalyStats
  get_stats now records = record {
    total = length records;
    by_severity = group_counts ◌==◌ (map severity_of_record records);
    by_detector = group_counts ◌==◌ (map detector_of_record records);
    by_status = group_counts ◌==◌ (map status_of_record records);
    trend =
        order_groups by_hour
          (group_counts nat_eq (map day_of_record (keep (is_recent now) records)));
  }
