-- ===== src/Anomaly/Routes.antt =====
-- app/api/routes/metrics.py and anomalies.py, with the transaction of `get_db`
-- (app/models/database.py). An answer is a result; an HTTPException is `other_error` with its
-- status and detail. The routes that change something commit before they answer. Redis has no part
-- in the transaction: its windows and cooldowns stay.
pub mod RolledBack
use python_backend_projects.Base.{
  ℕ, String, Option, none, some, List, Result, return, raise, Exception, other_error,
}
use python_backend_projects.Base.Value.{Fields}
use python_backend_projects.Anomaly.Records.{AnomalyRecord}
use python_backend_projects.Anomaly.Redis.{SortedSets}
use python_backend_projects.Anomaly.Window.{Member}
use python_backend_projects.Anomaly.Anomalies.{
  get_anomaly, acknowledge_anomaly, resolve_anomaly, mark_false_positive,
}
use python_backend_projects.Anomaly.Metrics.{
  MetricSource, MetricDataPoint, MetricIngest, Metrics, Setup, ingest_metric, ingest_batch,
  create_source, get_source,
}
use python_backend_projects.Anomaly.Metrics.Queries.{
  MetricQuery, MetricAggregation, Aggregates, get_aggregation,
}

-- the value, or 404 with a detail
abbrev pub or_404 : {A : Type 0} → (detail : String) → Option A → Result A
or_404 detail none = raise (other_error detail)
or_404 detail (some a) = return a

module _ (F : Type 0) where
  abbrev pub reply_changed :
      Option (AnomalyRecord F) × List (AnomalyRecord F)
      → Result (AnomalyRecord F) × List (AnomalyRecord F)
  reply_changed (o, rows) = (or_404 "404: anomaly not found" o, rows)

  unfoldable pub get_anomaly_detail : ℕ → List (AnomalyRecord F) → Result (AnomalyRecord F)
  get_anomaly_detail pk rows = or_404 "404: anomaly not found" (get_anomaly F rows pk)

  unfoldable pub acknowledge :
      ℕ
      → (who : String) → List (AnomalyRecord F)
      → Result (AnomalyRecord F) × List (AnomalyRecord F)
  acknowledge pk who rows = reply_changed (acknowledge_anomaly F pk who rows)

  unfoldable pub resolve :
      ℕ → (now : ℕ) → List (AnomalyRecord F) → Result (AnomalyRecord F) × List (AnomalyRecord F)
  resolve pk now rows = reply_changed (resolve_anomaly F pk now rows)

  unfoldable pub false_positive :
      ℕ → List (AnomalyRecord F) → Result (AnomalyRecord F) × List (AnomalyRecord F)
  false_positive pk rows = reply_changed (mark_false_positive F pk rows)

module _ {F : Type 0} (zs : SortedSets (Member F)) where
  -- `session.rollback()`: the tables are as before, and what Redis holds is as after.
  abbrev pub rolled_back : (before after : Metrics zs) → Metrics zs
  rolled_back before after = record before {
    windows = after.windows;
    platform = record (before.platform) {
      cooldowns = after.platform.cooldowns;
      next_id = after.platform.next_id;
    };
    next_id = after.next_id;
  }

  abbrev pub request :
      {A : Type 0} → (before : Metrics zs) → Result A × Metrics zs → Result A × Metrics zs
  request before (return a, after) = (return a, after)
  request before (raise e, after) = (raise e, rolled_back before after)

  unfoldable pub ingest_single :
      Setup F → MetricIngest F → Metrics zs → Result (MetricDataPoint F) × Metrics zs
  ingest_single set_up body st = request st (ingest_metric zs set_up body st)

  unfoldable pub ingest_batch_route :
      Setup F → List (MetricIngest F) → Metrics zs → Result (List (MetricDataPoint F)) × Metrics zs
  ingest_batch_route set_up body st = request st (ingest_batch zs set_up body st)

  -- `except Exception as e`: rollback, and 400 with `str(e)`
  abbrev pub or_400 :
      {A : Type 0} → (Exception → String) → Result A × Metrics zs → Result A × Metrics zs
  or_400 str_exception (return a, st) = (return a, st)
  or_400 str_exception (raise e, st) = (raise (other_error (str_exception e)), st)

  unfoldable pub create_metric_source :
      (Exception → String)
      → (name source_type : String) → Option String
      → Option Fields
      → Metrics zs
      → Result MetricSource × Metrics zs
  create_metric_source str_exception name source_type description tags st =
      or_400 str_exception (request st (create_source zs name source_type description tags st))

  unfoldable pub get_metric_source : ℕ → Metrics zs → Result MetricSource
  get_metric_source pk st = or_404 "404: source not found" (get_source zs pk st)

  unfoldable pub aggregation :
      Aggregates F → MetricQuery → Metrics zs → Result (MetricAggregation F)
  aggregation agg query st =
      or_404 "404: no data for aggregation window" (get_aggregation agg query st.sources st.points)
