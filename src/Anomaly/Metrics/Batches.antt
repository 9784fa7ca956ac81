-- ===== src/Anomaly/Metrics/Batches.antt =====
-- What `ingest_batch` (app/services/metric_service.py) leaves in the tables.
use mathlib.Core.List.{append-nil, append_assoc}
use python_backend_projects.Base.{
  ℕ, suc, ◌≤◌, ◌≡◌, refl, sym, ◌∙◌, ap, String, List, [], ◌∷◌, ◌++◌, length, Result, return, raise,
  map, take, arith,
}
use python_backend_projects.Anomaly.Redis.{SortedSets}
use python_backend_projects.Anomaly.Window.{Member}
use python_backend_projects.Anomaly.Metrics.{
  MetricDataPoint, MetricIngest, Metrics, Setup, ingest_metric, after_ingest, ingest_batch,
}
use python_backend_projects.Anomaly.Metrics.Stored.{names, AreDistinct}
use python_backend_projects.Anomaly.Metrics.Ingested.{IsIngested, ingest_metric-IsIngested}

module _ {F : Type 0} (zs : SortedSets (Member F)) where
  -- the metric and the value of a point, and those of a request
  abbrev pub reading : MetricDataPoint F → String × F
  reading p = (p.metric_name, p.value)

  abbrev pub requested : MetricIngest F → String × F
  requested m = (m.metric_name, m.value)

  -- a batch's outcome, by the points that were stored
  abbrev pub AreReturned :
      List (MetricIngest F) → List (MetricDataPoint F) → Result (List (MetricDataPoint F)) → Type 0
  AreReturned ms stored (return out) = (out ≡ stored) × (length stored ≡ length ms)
  AreReturned ms stored (raise e) = length stored ≤ length ms

  pub record IsBatch (ms : List (MetricIngest F)) (st st' : Metrics zs)
      (r : Result (List (MetricDataPoint F))) : Type 0 where
    pub stored : List (MetricDataPoint F)
    pub points : st'.points ≡ st.points ++ stored
    pub readings : map reading stored ≡ take (length stored) (map requested ms)
    pub returned : AreReturned ms stored r
    pub distinct : AreDistinct (names st'.sources)

  -- the outcome of the first metric and of the others
  IsBatch-cons :
      (m : MetricIngest F) (ms : List (MetricIngest F)) (st st1 : Metrics zs) (now : ℕ)
      (r : Result (MetricDataPoint F)) (rest : Result (List (MetricDataPoint F)) × Metrics zs)
      → IsIngested zs now m st st1 r
      → IsBatch ms st1 rest.1 rest.0
      → let (all, end) = after_ingest zs r st1 rest in IsBatch (m ∷ ms) st end all
  IsBatch-cons m ms st st1 now (raise e) rest h ih = record {
    stored = h.point ∷ [];
    points = h.points;
    readings = ap (λ p. reading p ∷ []) h.is_point;
    returned = omega arith;
    distinct = h.source.2;
  }
  IsBatch-cons m ms st st1 now (return p) (raise e, end) h ih = record {
    stored = h.point ∷ ih.stored;
    points =
        ih.points
        ∙ ap (λ l. l ++ ih.stored) h.points
        ∙ append_assoc st.points (h.point ∷ []) ih.stored;
    readings =
        ap (λ q. reading q ∷ map reading ih.stored) h.is_point
        ∙ ap (λ l. requested m ∷ l) ih.readings;
    returned = omega (arith, ih.returned);
    distinct = ih.distinct;
  }
  IsBatch-cons m ms st st1 now (return p) (return out, end) h ih = record {
    stored = h.point ∷ ih.stored;
    points =
        ih.points
        ∙ ap (λ l. l ++ ih.stored) h.points
        ∙ append_assoc st.points (h.point ∷ []) ih.stored;
    readings =
        ap (λ q. reading q ∷ map reading ih.stored) h.is_point
        ∙ ap (λ l. requested m ∷ l) ih.readings;
    returned = (ground (arith, h.returned, ih.returned.0), ap suc ih.returned.1);
    distinct = ih.distinct;
  }

  -- Where no name of a source stands twice, a batch stores the points of its metrics in their
  -- order. It returns exactly the points that it stored, one for each metric; where it raises, the
  -- stored points, which stay in the session, are those of a first part of its metrics. Still no
  -- name stands twice.
  pub ingest_batch-IsBatch :
      (set_up : Setup F) (ms : List (MetricIngest F)) (st : Metrics zs)
      → AreDistinct (names st.sources)
      → let (r, st') = ingest_batch zs set_up ms st in IsBatch ms st st' r
  unfolding ingest_batch
  ingest_batch-IsBatch set_up [] st h = record {
    stored = [];
    points = sym (append-nil st.points);
    readings = refl;
    returned = (refl, refl);
    distinct = h;
  }
  ingest_batch-IsBatch set_up (m ∷ rest) st h =
      let (r, st1) = ingest_metric zs set_up m st in
      let first = ingest_metric-IsIngested zs set_up m st h in
      IsBatch-cons m rest st st1 set_up.out.now r (ingest_batch zs set_up rest st1) first
        (ingest_batch-IsBatch set_up rest st1 first.source.2)
