-- ===== src/Anomaly/Examples/Stores.antt =====
-- The theorems about ingestion, windows and queries at concrete inputs.
use mathlib.Core.Path.{◌≡◌, refl}
use python_backend_projects.Base.{
  return, ℕ, suc, ◌<◌, ◌≢◌, Bool, false, none, some, List, [], ◌∷◌, ◌++◌, length, min, keep, All,
  raise, other_error, arith, true, str_dec,
}
use python_backend_projects.Anomaly.Metrics.Judged.{EndsLike, values_before, ingest_metric-EndsLike}
use python_backend_projects.Anomaly.Detection.{run_detection}
use python_backend_projects.Anomaly.Routes.{ingest_single}
use python_backend_projects.Anomaly.Routes.RolledBack.{EndsAs, ingest_single-EndsAs}
use python_backend_projects.Anomaly.Redis.{SortedSets, IsPutIn}
use python_backend_projects.Anomaly.Redis.Listed.{listed, put_in, listed-IsRedis}
use python_backend_projects.Anomaly.Window.{Member, written, other, add_to_sliding_window}
use python_backend_projects.Anomaly.Window.Latest.{AreEarlier, add_to_sliding_window_latest}
use python_backend_projects.Anomaly.Metrics.{
  MetricDataPoint, MetricIngest, Metrics, Setup, ingest_metric, ingest_batch, new_point,
  application_source,
}
use python_backend_projects.Anomaly.Metrics.Batches.{IsBatch, ingest_batch-IsBatch}
use python_backend_projects.Anomaly.Metrics.Queries.{
  MetricQuery, Aggregates, query_metrics, get_aggregation,
}
use python_backend_projects.Anomaly.Metrics.Queries.Answers.{
  IsAsked, AreInOrder, IsCounted, query_metrics-answer,
}
use python_backend_projects.Anomaly.Examples.{outside, encode, rule, spike, start}

abbrev sets : SortedSets (Member ℕ)
sets = listed (Member ℕ)

-- two values, and a text that is no value
abbrev full : sets.Set
full =
    sets.zadd (sets.zadd (sets.zadd sets.no_set (written 10 100 1) 100) (other "broken") 150)
      (written 11 200 2) 200

full_fresh : All (λ e. e.0 ≢ written 95 300 3) (sets.entries full)
unfolding listed put_in
full_fresh = ((λ h. cc), ((λ h. cc), ((λ h. cc), tt)))

add_to_sliding_window_latest_example :
    let window = add_to_sliding_window sets full 300 95 3 2 in
    (dropped : List (Member ℕ × ℕ)) × IsPutIn
      (written 95 300 3, 300)
      (sets.entries full)
      (dropped ++ sets.entries window)
    × (length (sets.entries window) ≡ min (suc (length (sets.entries full))) 2)
    × AreEarlier dropped (sets.entries window)
add_to_sliding_window_latest_example =
    add_to_sliding_window_latest sets (listed-IsRedis (Member ℕ)) full 300 95 3 2 full_fresh

full_late : All (λ e. e.1 < 300) (sets.entries full)
unfolding listed put_in
full_late = (omega arith, (omega arith, (omega arith, tt)))

abbrev empty : Metrics sets
empty = record {
  sources = [];
  points = [];
  windows = λ source metric. sets.no_set;
  platform = start;
  next_id = 1;
}

-- the broker is down
abbrev set_up : Setup ℕ
set_up = record {
  out = outside;
  enc = encode;
  detect_with_all = λ before current. return (spike ∷ []);
  rules = rule ∷ [];
  publish = some (λ point. raise (other_error "no broker"));
}

abbrev cpu : ℕ → MetricIngest ℕ
cpu value = record {
  source_name = "api";
  metric_name = "cpu";
  value = value;
  unit = none;
  tags = none;
  timestamp = none;
}

abbrev without_broker : Setup ℕ
without_broker = record (set_up) { publish = none }

ingest_batch-IsBatch_example :
    let (r, st') = ingest_batch sets without_broker (cpu 10 ∷ cpu 95 ∷ []) empty in
    IsBatch sets (cpu 10 ∷ cpu 95 ∷ []) empty st' r
ingest_batch-IsBatch_example =
    ingest_batch-IsBatch sets without_broker (cpu 10 ∷ cpu 95 ∷ []) empty tt

abbrev stored : Metrics sets
stored = (ingest_batch sets without_broker (cpu 10 ∷ cpu 95 ∷ []) empty).1

abbrev statistics : Aggregates ℕ
statistics = record {
  zero_float = 0;
  is_nan = λ x. false;
  avg_of = λ xs. 1;
  min_of = λ xs. 0;
  max_of = λ xs. 2;
  stddev_pop_of = λ xs. none;
}

abbrev of_cpu : MetricQuery
of_cpu = record { source_name = "api"; metric_name = "cpu"; start_time = 0; end_time = 2000 }

query_metrics-answer_example :
    let answer = query_metrics of_cpu stored.sources stored.points in
    All (IsAsked of_cpu stored.sources) answer
    × AreInOrder answer
    × ((test : MetricDataPoint ℕ → Bool)
        → ((p : MetricDataPoint ℕ) → test p ≡ true → IsAsked of_cpu stored.sources p)
        → length (keep test answer) ≡ length (keep test stored.points))
    × IsCounted (get_aggregation statistics of_cpu stored.sources stored.points) (length answer)
query_metrics-answer_example = query_metrics-answer statistics of_cpu stored.sources stored.points

-- the source of the stored points, and a window of two values
abbrev later : Metrics sets
later = record (empty) {
  sources =
      record {
        id = 1;
        name = "api";
        source_type = "application";
        description = none;
        tags = none;
        active = true;
      }
      ∷ [];
  windows = λ source metric. full;
  next_id = 3;
}

later_fresh : All (λ e. e.0 ≢ written 95 1000 3) (sets.entries full)
unfolding listed put_in
later_fresh = ((λ h. cc), ((λ h. cc), ((λ h. cc), tt)))

later_late : All (λ e. e.1 < 1000) (sets.entries full)
unfolding listed put_in
later_late = (omega arith, (omega arith, (omega arith, tt)))

ingest_metric-EndsLike_example :
    EndsLike sets
      (new_point sets 3 (application_source sets "api" 1) 1000 (cpu 95))
      (run_detection ℕ outside encode without_broker.detect_with_all 1 "cpu"
        (keep (λ r. r.enabled) without_broker.rules)
        (values_before sets full)
        (some 95)
        start)
      (ingest_metric sets without_broker (cpu 95) later)
unfolding str_dec
ingest_metric-EndsLike_example =
    ingest_metric-EndsLike sets (listed-IsRedis (Member ℕ)) without_broker (cpu 95) later
      (application_source sets "api" 1) refl refl later_fresh later_late

ingest_single-EndsAs_example :
    EndsAs sets 1000 (cpu 95) empty (ingest_single sets set_up (cpu 95) empty)
ingest_single-EndsAs_example = ingest_single-EndsAs sets set_up (cpu 95) empty tt
