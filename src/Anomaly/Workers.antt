-- ===== src/Anomaly/Workers.antt =====
-- app/workers of the anomaly platform: the clean-ups and the detection of a batch. A time is in
-- seconds. The rows of notifications that a deleted anomaly takes with it are left out.
pub mod Cleaned
pub mod Batches
use python_backend_projects.Base.{
  ℕ, suc, ◌+◌, ◌*◌, String, ◌++◌, Bool, true, false, not, ◌&&◌, ◌||◌, Option, none, some, List, [],
  ◌∷◌, length, keep, ltb, ◌==◌, if◌then◌else◌, Result, return, raise, Exception, name_error,
}
use python_backend_projects.Base.Value.{Value, text, number, Fields, get_field}
use python_backend_projects.Anomaly.Records.{AnomalyRecord}
use python_backend_projects.Anomaly.Redis.{SortedSets}
use python_backend_projects.Anomaly.Window.{Member}
use python_backend_projects.Anomaly.Detection.{Platform}
use python_backend_projects.Anomaly.Metrics.{MetricDataPoint, Metrics, Setup, detect_stored}

-- settings.METRICS_RETENTION_DAYS and settings.RESOLVED_ANOMALY_ARCHIVE_DAYS, as app/config.py sets
-- them
abbrev pub metrics_retention_days : ℕ
metrics_retention_days = 90

abbrev pub resolved_anomaly_archive_days : ℕ
resolved_anomaly_archive_days = 365

-- `at < now - timedelta(days=days)`
unfoldable pub is_before_cutoff : (now days at_ : ℕ) → Bool
is_before_cutoff now days at_ = ltb (at_ + days * 86400) now

-- `delete(...).where(test)` and the commit: `res.rowcount`, and the rows that are left
abbrev pub delete_where :
    {A : Type 0} → (A → Bool) → (commit : Result (Unit {0})) → List A → Result ℕ × List A
delete_where test (raise e) rows = (raise e, rows)
delete_where test (return _) rows =
    (return (length (keep test rows)), keep (λ row. not (test row)) rows)

abbrev pub is_past : Option ℕ → (now days : ℕ) → Bool
is_past none now days = false
is_past (some at_) now days = is_before_cutoff now days at_

module _ {F : Type 0} where
  unfoldable pub is_old_metric : ℕ → MetricDataPoint F → Bool
  is_old_metric now point = is_before_cutoff now metrics_retention_days point.timestamp

  unfoldable pub cleanup_old_metrics :
      (now : ℕ) → Result (Unit {0}) → List (MetricDataPoint F) → Result ℕ × List (MetricDataPoint F)
  cleanup_old_metrics now commit points = delete_where (is_old_metric now) commit points

  unfoldable pub is_old_resolved : ℕ → AnomalyRecord F → Bool
  is_old_resolved now rec =
      (rec.status == "resolved") && is_past rec.resolved_at now resolved_anomaly_archive_days

  unfoldable pub cleanup_resolved_anomalies :
      (now : ℕ) → Result (Unit {0}) → List (AnomalyRecord F) → Result ℕ × List (AnomalyRecord F)
  cleanup_resolved_anomalies now commit records = delete_where (is_old_resolved now) commit records

  module _ (zs : SortedSets (Member F)) where
    -- The loop of run_batch_detection over the rows of its query, names of sources and metrics:
    -- `processed`, from its value before.
    abbrev pub after_row :
        Result (Unit {0}) → Metrics zs → Result ℕ × Metrics zs → Result ℕ × Metrics zs
    after_row (raise e) st more = (raise e, st)
    after_row (return _) st more = more

    unfoldable pub process :
        Setup F → List (String × String) → (processed : ℕ) → Metrics zs → Result ℕ × Metrics zs
    process set_up [] processed st = (return processed, st)
    process set_up ((source_name, metric_name) ∷ rest) processed st =
        let (r, st') = detect_stored zs set_up source_name metric_name st in
        after_row r st' (process set_up rest (suc processed) st')

    -- The session is closed without a commit: the tables are as they were, and Redis, which has no
    -- part in the transaction, keeps its cooldowns.
    abbrev pub roll_back : (before after : Metrics zs) → Metrics zs
    roll_back before after = record before {
      platform = record (before.platform) {
        cooldowns = after.platform.cooldowns;
        next_id = after.platform.next_id;
      };
    }

    abbrev pub committed : (before : Metrics zs) → Result ℕ × Metrics zs → Result ℕ × Metrics zs
    committed before (raise e, st) = (raise e, roll_back before st)
    committed before (return n, st) = (return n, st)

    unfoldable pub run_batch_detection :
        Setup F → List (String × String) → Metrics zs → Result ℕ × Metrics zs
    run_batch_detection set_up rows st = committed st (process set_up rows 0 st)
