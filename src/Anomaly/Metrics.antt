-- ===== src/Anomaly/Metrics.antt =====
-- app/services/metric_service.py: sources, ingestion and queries of metrics, with the whole of
-- `run_detection` (app/services/detection_engine.py) behind an ingestion. The tables are lists; a
-- write stays in the session until the route commits it.
pub mod Stored
pub mod Ingested
pub mod Batches
pub mod Judged
pub mod Queries
use python_backend_projects.Base.{
  ℕ, suc, String, Bool, true, false, ◌&&◌, Option, none, some, List, [], ◌∷◌, ◌++◌, Result, return,
  raise, Exception, other_error, keep, nat_eq, ◌==◌, if◌then◌else◌,
}
use python_backend_projects.Base.Value.{Fields}
use python_backend_projects.Base.Rows.{find_row}
use python_backend_projects.Anomaly.Records.{AlertRule, DetectionResult}
use python_backend_projects.Anomaly.Redis.{SortedSets}
use python_backend_projects.Anomaly.Window.{
  Member, detection_window_size, split_last, get_sliding_window, add_to_sliding_window,
}
use python_backend_projects.Anomaly.Notifications.{Outside}
use python_backend_projects.Anomaly.Detection.{Encode, Platform, run_detection}

-- app/models/metric.py
pub record MetricSource : Type 0 where
  pub id : ℕ
  pub name : String
  pub source_type : String
  pub description : Option String
  pub tags : Option Fields
  pub active : Bool

pub record MetricDataPoint (F : Type 0) : Type 0 where
  pub id : ℕ
  pub source_id : ℕ
  pub metric_name : String
  pub value : F
  pub unit : Option String
  pub tags : Option Fields
  pub timestamp : ℕ

-- app/schemas/metric.py
pub record MetricIngest (F : Type 0) : Type 0 where
  pub source_name : String
  pub metric_name : String
  pub value : F
  pub unit : Option String
  pub tags : Option Fields
  pub timestamp : Option ℕ

-- The tables, the windows by source and metric, the anomalies, and the next keys.
pub record Metrics {F : Type 0} (zs : SortedSets (Member F)) : Type 0 where
  pub sources : List MetricSource
  pub points : List (MetricDataPoint F)
  pub windows : ℕ → String → zs.Set
  pub platform : Platform F
  pub next_id : ℕ

-- What ingestion calls: the clock and the webhooks, the detectors, the table of rules, and the
-- publication of an event on Kafka, if a producer is there.
pub record Setup (F : Type 0) : Type 0 where
  pub out : Outside
  pub enc : Encode F
  pub detect_with_all : List F → F → Result (List (DetectionResult F))
  pub rules : List AlertRule
  pub publish : Option (MetricDataPoint F → Result (Unit {0}))

abbrev pub find_source : String → List MetricSource → Option MetricSource
find_source name [] = none
find_source name (src ∷ rest) = if src.name == name then some src else find_source name rest

abbrev pub source_key : MetricSource → ℕ
source_key src = src.id

abbrev pub or_now : Option ℕ → ℕ → ℕ
or_now none now = now
or_now (some t) now = t

module _ {F : Type 0} (zs : SortedSets (Member F)) where
  abbrev pub application_source : String → ℕ → MetricSource
  application_source name id = record {
    id = id;
    name = name;
    source_type = "application";
    description = none;
    tags = none;
    active = true;
  }

  -- the row that is added if none of that name was found
  abbrev pub source_or_new : String → Option MetricSource → Metrics zs → MetricSource × Metrics zs
  source_or_new name (some existing) st = (existing, st)
  source_or_new name none st =
      let src = application_source name st.next_id in
      (src, record st { sources = st.sources ++ (src ∷ []); next_id = suc st.next_id })

  unfoldable pub get_or_create_source : String → Metrics zs → MetricSource × Metrics zs
  get_or_create_source name st = source_or_new name (find_source name st.sources) st

  -- The column of the names is unique, so the flush of a second row of a name raises.
  abbrev pub add_source :
      MetricSource → Option MetricSource → Metrics zs → Result MetricSource × Metrics zs
  add_source src (some existing) st = (raise (other_error "duplicate key value: name"), st)
  add_source src none st =
      (return src, record st { sources = st.sources ++ (src ∷ []); next_id = suc st.next_id })

  unfoldable pub create_source :
      (name source_type : String)
      → Option String
      → Option Fields
      → Metrics zs
      → Result MetricSource × Metrics zs
  create_source name source_type description tags st =
      add_source
        (record {
          id = st.next_id;
          name = name;
          source_type = source_type;
          description = description;
          tags = tags;
          active = true;
        })
        (find_source name st.sources) st

  unfoldable pub get_source : ℕ → Metrics zs → Option MetricSource
  get_source pk st = find_row source_key pk st.sources

  abbrev pub new_point : ℕ → MetricSource → ℕ → MetricIngest F → MetricDataPoint F
  new_point id src ts data_in = record {
    id = id;
    source_id = src.id;
    metric_name = data_in.metric_name;
    value = data_in.value;
    unit = data_in.unit;
    tags = data_in.tags;
    timestamp = ts;
  }

  -- the window of one key, set
  abbrev pub set_window : ℕ → String → zs.Set → (ℕ → String → zs.Set) → ℕ → String → zs.Set
  set_window source metric w windows s m = if nat_eq s source && m == metric then w else windows s m

  -- `db.add(point)`, and the addition to the window of its metric
  unfoldable pub store_point : MetricDataPoint F → Metrics zs → Metrics zs
  store_point point st = record st {
    points = st.points ++ (point ∷ []);
    windows =
        set_window point.source_id point.metric_name
          (add_to_sliding_window zs (st.windows point.source_id point.metric_name) point.timestamp
            point.value st.next_id detection_window_size)
          st.windows;
    next_id = suc st.next_id;
  }

  abbrev pub with_platform :
      Metrics zs → Result (Unit {0}) × Platform F → Result (Unit {0}) × Metrics zs
  with_platform st (r, p) = (r, record st { platform = p })

  -- the rest of `run_detection` for a source that was found, by what its window holds
  abbrev pub detect_window :
      Setup F
      → MetricSource
      → (metric : String) → Option (List F × F)
      → Metrics zs
      → Result (Unit {0}) × Metrics zs
  detect_window set_up src metric none st = (return tt, st)
  detect_window set_up src metric (some (before, current)) st = with_platform st (
      run_detection F set_up.out set_up.enc set_up.detect_with_all src.id metric
        (keep (λ rule. rule.enabled) set_up.rules) before (some current) st.platform)

  abbrev pub detect_found :
      Setup F
      → (metric : String) → Option MetricSource
      → Metrics zs
      → Result (Unit {0}) × Metrics zs
  detect_found set_up metric none st = (return tt, st)
  detect_found set_up metric (some src) st =
      detect_window set_up src metric
        (split_last (get_sliding_window zs (st.windows src.id metric) detection_window_size)) st

  -- `run_detection(redis_client, db, source_name, metric_name, value)`: the value is not read.
  unfoldable pub detect_stored :
      Setup F → (source_name metric : String) → Metrics zs → Result (Unit {0}) × Metrics zs
  detect_stored set_up source_name metric st =
      detect_found set_up metric (find_source source_name st.sources) st

  abbrev pub publish_point :
      Option (MetricDataPoint F → Result (Unit {0})) → MetricDataPoint F → Result (Unit {0})
  publish_point none point = return tt
  publish_point (some publish) point = publish point

  abbrev pub after_detection :
      MetricDataPoint F → Result (Unit {0}) × Metrics zs → Result (MetricDataPoint F) × Metrics zs
  after_detection point (raise e, st) = (raise e, st)
  after_detection point (return _, st) = (return point, st)

  -- what follows the publication
  abbrev pub after_publish :
      Setup F
      → MetricIngest F
      → MetricDataPoint F
      → Result (Unit {0})
      → Metrics zs
      → Result (MetricDataPoint F) × Metrics zs
  after_publish set_up data_in point (raise e) st = (raise e, st)
  after_publish set_up data_in point (return _) st =
      after_detection point (detect_stored set_up data_in.source_name data_in.metric_name st)

  unfoldable pub ingest_metric :
      Setup F → MetricIngest F → Metrics zs → Result (MetricDataPoint F) × Metrics zs
  ingest_metric set_up data_in st =
      let (src, st1) = get_or_create_source data_in.source_name st in
      let point = new_point st1.next_id src (or_now data_in.timestamp set_up.out.now) data_in in
      after_publish set_up data_in point (publish_point set_up.publish point)
        (store_point point st1)

  -- `out.append(point)`, before the points of the metrics after it
  abbrev pub append_point :
      MetricDataPoint F
      → Result (List (MetricDataPoint F)) × Metrics zs
      → Result (List (MetricDataPoint F)) × Metrics zs
  append_point point (raise e, st) = (raise e, st)
  append_point point (return out, st) = (return (point ∷ out), st)

  abbrev pub after_ingest :
      Result (MetricDataPoint F)
      → Metrics zs
      → Result (List (MetricDataPoint F)) × Metrics zs
      → Result (List (MetricDataPoint F)) × Metrics zs
  after_ingest (raise e) st more = (raise e, st)
  after_ingest (return point) st more = append_point point more

  unfoldable pub ingest_batch :
      Setup F → List (MetricIngest F) → Metrics zs → Result (List (MetricDataPoint F)) × Metrics zs
  ingest_batch set_up [] st = (return [], st)
  ingest_batch set_up (m ∷ rest) st =
      let (r, st') = ingest_metric set_up m st in after_ingest r st' (ingest_batch set_up rest st')
