-- ===== src/Anomaly/Examples/Kept.antt =====
-- The theorems about clean-ups, alert rules and web sockets at concrete inputs.
use python_backend_projects.Base.{
  ℕ, ◌≡◌, Bool, true, false, not, none, some, [], ◌∷◌, keep, any, nat_eq, return,
}
use python_backend_projects.Anomaly.Records.{AnomalyRecord}
use python_backend_projects.Anomaly.Metrics.{MetricSource, MetricDataPoint}
use python_backend_projects.Anomaly.Workers.{
  is_old_metric, cleanup_old_metrics, is_old_resolved, cleanup_resolved_anomalies,
}
use python_backend_projects.Anomaly.Workers.Cleaned.{
  IsCleaned, IsRecent, IsOpenOrRecent, cleanup-IsCleaned,
}
use python_backend_projects.Anomaly.Sockets.{Connection, Connections, broadcast}
use python_backend_projects.Anomaly.Sockets.Delivered.{reached, broadcast_lem}

abbrev point : ℕ → MetricDataPoint ℕ
point at_ = record {
  id = at_;
  source_id = 1;
  metric_name = "cpu";
  value = 10;
  unit = none;
  tags = none;
  timestamp = at_;
}

abbrev resolved : ℕ → AnomalyRecord ℕ
resolved at_ = record {
  id = at_;
  source_id = 1;
  metric_name = "cpu";
  detector_type = "zscore";
  severity = "high";
  score = 9;
  expected_value = none;
  actual_value = 95;
  deviation = 85;
  reason = "z";
  status = "resolved";
  acknowledged_by = none;
  resolved_at = some at_;
  detected_at = at_;
}

cleanup-IsCleaned_example :
    IsCleaned
      (is_old_metric 40000000)
      (IsRecent 40000000)
      (point 5 ∷ point 39999999 ∷ [])
      (cleanup_old_metrics 40000000 (return tt) (point 5 ∷ point 39999999 ∷ []))
    × IsCleaned
        (is_old_resolved 40000000)
        (IsOpenOrRecent 40000000)
        (resolved 5 ∷ resolved 39999999 ∷ [])
        (cleanup_resolved_anomalies 40000000 (return tt) (resolved 5 ∷ resolved 39999999 ∷ []))
cleanup-IsCleaned_example =
    cleanup-IsCleaned 40000000 (return tt) (point 5 ∷ point 39999999 ∷ [])
      (resolved 5 ∷ resolved 39999999 ∷ [])

-- the second socket is gone
abbrev sends : ℕ → Bool
sends ws = not (nat_eq ws 2)

abbrev listeners : Connections
listeners =
    record { socket = 1; source_filter = none }
    ∷ record { socket = 2; source_filter = some 7 }
    ∷ record { socket = 3; source_filter = some 8 }
    ∷ []

broadcast_lem_example :
    let (sent, left) = broadcast sends (some 7) listeners in
    (sent ≡ reached sends true (some 7) listeners)
    × (left
        ≡ keep
            (λ (c : Connection).
              not (any (λ ws. nat_eq c.socket ws) (reached sends false (some 7) listeners)))
            listeners)
broadcast_lem_example = broadcast_lem sends (some 7) listeners

abbrev api : MetricSource
api = record {
  id = 1;
  name = "api";
  source_type = "application";
  description = none;
  tags = none;
  active = true;
}
