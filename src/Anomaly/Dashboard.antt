-- ===== src/Anomaly/Dashboard.antt =====
-- app/api/routes/dashboard.py of the anomaly platform. A time is in seconds since 1970, in UTC. Of
-- the stored points only the column ingested_at is read. The statements of the overview run one
-- after the other, each on the tables as they then are. The database leaves the order of groups
-- open, and of groups of one count; the model keeps the order in which they are made.
pub mod Grouped
use python_backend_projects.Base.{
  ℕ, suc, ◌+◌, ◌-◌, ◌*◌, ◌%◌, String, Bool, true, false, ◌&&◌, Option, none, some, List, [], ◌∷◌,
  length, map, take, keep, leb, nat_eq, ◌==◌, if◌then◌else◌,
}
use python_backend_projects.Base.Rows.{find_row}
use python_backend_projects.Anomaly.Records.{AnomalyRecord}
use python_backend_projects.Anomaly.Metrics.{MetricSource, source_key}

-- app/schemas/dashboard.py
pub record DashboardOverview : Type 0 where
  pub total_sources : ℕ
  pub active_sources : ℕ
  pub total_anomalies_today : ℕ
  pub critical_anomalies : ℕ
  pub metrics_ingested_last_hour : ℕ
  pub top_anomalous_sources : List (String × ℕ)
  pub detector_performance : List (String × ℕ)

-- `now.replace(hour=0, minute=0, second=0, microsecond=0)`
abbrev pub day_start : (now : ℕ) → ℕ
day_start now = now - now % 86400

-- `func.date_trunc("hour", t)`
abbrev pub hour_of : ℕ → ℕ
hour_of t = t - t % 3600

-- `group_by`, with the number of each group
module _ {A : Type 0} (same : A → A → Bool) where
  unfoldable pub add_to_groups : A → List (A × ℕ) → List (A × ℕ)
  add_to_groups x [] = (x, 1) ∷ []
  add_to_groups x ((k, n) ∷ rest) =
      let more = add_to_groups x rest in if same x k then (k, suc n) ∷ rest else (k, n) ∷ more

  unfoldable pub group_counts : List A → List (A × ℕ)
  group_counts [] = []
  group_counts (x ∷ xs) = add_to_groups x (group_counts xs)

-- `order_by(func.count(...).desc())`, and by a key that is a number
module _ {A : Type 0} (before : A × ℕ → A × ℕ → Bool) where
  unfoldable pub put_group : A × ℕ → List (A × ℕ) → List (A × ℕ)
  put_group g [] = g ∷ []
  put_group g (h ∷ rest) =
      let more = put_group g rest in if before g h then g ∷ h ∷ rest else h ∷ more

  unfoldable pub order_groups : List (A × ℕ) → List (A × ℕ)
  order_groups [] = []
  order_groups (g ∷ rest) = put_group g (order_groups rest)

abbrev pub by_count : String × ℕ → String × ℕ → Bool
by_count (k, n) (j, m) = leb m n

abbrev pub by_hour : ℕ × ℕ → ℕ × ℕ → Bool
by_hour (k, n) (j, m) = leb k j

-- the tables that the dashboard reads
pub record Tables (F : Type 0) : Type 0 where
  pub sources : List MetricSource
  pub records : List (AnomalyRecord F)
  pub ingested_ats : List ℕ

-- the names of the sources that the join finds
abbrev pub name_if : Option MetricSource → List String → List String
name_if none names = names
name_if (some src) names = src.name ∷ names

module _ {F : Type 0} where
  abbrev pub is_since : ℕ → AnomalyRecord F → Bool
  is_since start rec = leb start rec.detected_at

  unfoldable pub joined_names : List MetricSource → List (AnomalyRecord F) → List String
  joined_names sources [] = []
  joined_names sources (rec ∷ rest) =
      name_if (find_row source_key rec.source_id sources) (joined_names sources rest)

  unfoldable pub top_anomalous :
      (now limit : ℕ) → List MetricSource → List (AnomalyRecord F) → List (String × ℕ)
  top_anomalous now limit sources records = take limit (
      order_groups by_count
        (group_counts ◌==◌ (joined_names sources (keep (is_since (day_start now)) records))))

  abbrev pub detector_of : AnomalyRecord F → String
  detector_of rec = rec.detector_type

  unfoldable pub detector_performance : (now : ℕ) → List (AnomalyRecord F) → List (String × ℕ)
  detector_performance now records =
      group_counts ◌==◌ (map detector_of (keep (is_since (day_start now)) records))

  abbrev pub detected_hour : AnomalyRecord F → ℕ
  detected_hour rec = hour_of rec.detected_at

  unfoldable pub timeline : (now hours : ℕ) → List (AnomalyRecord F) → List (ℕ × ℕ)
  timeline now hours records =
      order_groups by_hour
        (group_counts nat_eq (map detected_hour (keep (is_since (now - hours * 3600)) records)))

  -- `at_ k` holds the tables as the statement number k of the overview finds them.
  unfoldable pub dashboard_overview : (now : ℕ) → (at_ : ℕ → Tables F) → DashboardOverview
  dashboard_overview now at_ = record {
    total_sources = length (at_ 0).sources;
    active_sources = length (keep (λ (src : MetricSource). src.active) (at_ 1).sources);
    total_anomalies_today = length (keep (is_since (day_start now)) (at_ 2).records);
    critical_anomalies = length (
        keep (λ rec. is_since (day_start now) rec && (rec.severity == "critical")) (at_ 3).records);
    metrics_ingested_last_hour = length (keep (λ t. leb (now - 3600) t) (at_ 4).ingested_ats);
    top_anomalous_sources = top_anomalous now 5 (at_ 5).sources (at_ 5).records;
    detector_performance = detector_performance now (at_ 6).records;
  }
