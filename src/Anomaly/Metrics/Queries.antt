-- ===== src/Anomaly/Metrics/Queries.antt =====
-- app/services/metric_service.py: queries of the stored points. The database's aggregates of a
-- column are parameters; it leaves the order of points of one time open, and the model keeps
-- theirs.
pub mod Answers
use text.Mathlib.TextEquality.{eq_iff}
use python_backend_projects.Base.{
  ℕ, suc, ◌≤◌, ◌≡◌, inl, inr, refl, ap, String, Bool, true, false, ◌&&◌, Option, none, some, List,
  [], ◌∷◌, length, map, keep, leb, ◌==◌, if◌then◌else◌, All, if-both, Bool-cases, ◌∙◌, sym, subst,
  length-map, arith,
}
use python_backend_projects.Base.Rows.{find_row}
use python_backend_projects.Anomaly.Metrics.{MetricSource, MetricDataPoint, source_key}

-- app/schemas/metric.py
pub record MetricQuery : Type 0 where
  pub source_name : String
  pub metric_name : String
  pub start_time : ℕ
  pub end_time : ℕ

pub record MetricAggregation (F : Type 0) : Type 0 where
  pub metric_name : String
  pub avg : F
  pub min : F
  pub max : F
  pub std_dev : F
  pub count : ℕ
  pub period_start : ℕ
  pub period_end : ℕ

-- the aggregates of the database, and the floats that the code reads itself
pub record Aggregates (F : Type 0) : Type 0 where
  pub zero_float : F
  pub is_nan : F → Bool
  pub avg_of : List F → F
  pub min_of : List F → F
  pub max_of : List F → F
  pub stddev_pop_of : List F → Option F

-- the joined source has the name
abbrev pub has_name : String → Option MetricSource → Bool
has_name name none = false
has_name name (some src) = src.name == name

module _ {F : Type 0} where
  -- the `where` of both queries, on a point joined with its source
  unfoldable pub is_match : MetricQuery → List MetricSource → MetricDataPoint F → Bool
  is_match query sources p =
      has_name query.source_name (find_row source_key p.source_id sources)
      && (p.metric_name == query.metric_name)
      && (leb query.start_time p.timestamp && leb p.timestamp query.end_time)

  -- `order_by(MetricDataPoint.timestamp)`
  unfoldable pub place : MetricDataPoint F → List (MetricDataPoint F) → List (MetricDataPoint F)
  place p [] = p ∷ []
  place p (q ∷ rest) =
      let more = place p rest in if leb p.timestamp q.timestamp then p ∷ q ∷ rest else q ∷ more

  unfoldable pub order_by_timestamp : List (MetricDataPoint F) → List (MetricDataPoint F)
  order_by_timestamp [] = []
  order_by_timestamp (p ∷ rest) = place p (order_by_timestamp rest)

  unfoldable pub query_metrics :
      MetricQuery → List MetricSource → List (MetricDataPoint F) → List (MetricDataPoint F)
  query_metrics query sources points = order_by_timestamp (keep (is_match query sources) points)

  -- `float(std) if std is not None else 0.0`, and 0.0 for what is not a number
  abbrev pub std_of : Aggregates F → Option F → F
  std_of agg none = agg.zero_float
  std_of agg (some std) = if agg.is_nan std then agg.zero_float else std

  -- the row of the aggregates, and `row[4] == 0`
  abbrev pub aggregate_row :
      Aggregates F → MetricQuery → List (MetricDataPoint F) → Option (MetricAggregation F)
  aggregate_row agg query [] = none
  aggregate_row agg query (p ∷ rest) =
      let values = map (λ (q : MetricDataPoint F). q.value) (p ∷ rest) in
      some record {
        metric_name = query.metric_name;
        avg = agg.avg_of values;
        min = agg.min_of values;
        max = agg.max_of values;
        std_dev = std_of agg (agg.stddev_pop_of values);
        count = length values;
        period_start = query.start_time;
        period_end = query.end_time;
      }

  unfoldable pub get_aggregation :
      Aggregates F
      → MetricQuery
      → List MetricSource
      → List (MetricDataPoint F)
      → Option (MetricAggregation F)
  get_aggregation agg query sources points =
      aggregate_row agg query (keep (is_match query sources) points)
