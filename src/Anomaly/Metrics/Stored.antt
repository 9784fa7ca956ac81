-- ===== src/Anomaly/Metrics/Stored.antt =====
-- What an ingestion stores (app/services/metric_service.py).
use text.Mathlib.TextEquality.{eq_iff}
use python_backend_projects.Base.{
  ℕ, ◌≡◌, refl, sym, ◌∙◌, ap, subst, String, false, Option, none, some, List, [], ◌∷◌, ◌++◌, Result,
  return, raise, contains, contains-append, arith,
}
use python_backend_projects.Anomaly.Redis.{SortedSets}
use python_backend_projects.Anomaly.Window.{
  Member, detection_window_size, split_last, get_sliding_window,
}
use python_backend_projects.Anomaly.Metrics.{
  MetricSource, MetricDataPoint, MetricIngest, Metrics, Setup, find_source, detect_window,
  detect_found, detect_stored, after_detection, after_publish,
}

abbrev pub names : List MetricSource → List String
names [] = []
names (src ∷ rest) = src.name ∷ names rest

-- no element twice
abbrev pub AreDistinct : List String → Type 0
AreDistinct [] = Unit
AreDistinct (x ∷ xs) = (contains xs x ≡ false) × AreDistinct xs

names-append : (xs ys : List MetricSource) → names (xs ++ ys) ≡ names xs ++ names ys
names-append [] ys = refl
names-append (x ∷ xs) ys = ap (λ l. x.name ∷ l) (names-append xs ys)

distinct_snoc :
    (xs : List String) (x : String)
    → AreDistinct xs
    → contains xs x ≡ false
    → AreDistinct (xs ++ (x ∷ []))
distinct_snoc [] x h new = (refl, tt)
distinct_snoc (y ∷ xs) x h new = (
  ground (arith, contains-append xs (x ∷ []) y, h.0, new),
  distinct_snoc xs x h.1 (ground (arith, new)),
)

find_source-none :
    (name : String) (srcs : List MetricSource)
    → find_source name srcs ≡ none
    → contains (names srcs) name ≡ false
find_source-none name [] h = refl
find_source-none name (src ∷ rest) h =
    ground (arith, find_source-none name rest, eq_iff src.name name, eq_iff name src.name)

pub find_source-snoc :
    (name : String) (srcs : List MetricSource) (src : MetricSource)
    → find_source name srcs ≡ none
    → src.name ≡ name
    → find_source name (srcs ++ (src ∷ [])) ≡ some src
find_source-snoc name [] src h e = ground (arith, eq_iff src.name name)
find_source-snoc name (x ∷ rest) src h e = ground (arith, find_source-snoc name rest src)

pub distinct_added :
    (name : String) (srcs : List MetricSource) (src : MetricSource)
    → find_source name srcs ≡ none
    → src.name ≡ name
    → AreDistinct (names srcs)
    → AreDistinct (names (srcs ++ (src ∷ [])))
distinct_added name srcs src new e h = subst AreDistinct (sym (names-append srcs (src ∷ []))) (
    distinct_snoc (names srcs) src.name h
      (ap (contains (names srcs)) e ∙ find_source-none name srcs new))

module _ {F : Type 0} (zs : SortedSets (Member F)) where
  -- the tables and the windows
  abbrev pub tables :
      Metrics zs → List MetricSource × List (MetricDataPoint F) × (ℕ → String → zs.Set) × ℕ
  tables st = (st.sources, st.points, st.windows, st.next_id)

  -- A detection writes anomalies and notifications only.
  pub detect_stored-tables :
      (set_up : Setup F) (name metric : String) (st : Metrics zs)
      → tables (detect_stored zs set_up name metric st).1 ≡ tables st
  unfolding detect_stored
  detect_stored-tables set_up name metric st = at_source (find_source name st.sources)
    where
      at_window :
          (src : MetricSource) (w : Option (List F × F))
          → tables (detect_window zs set_up src metric w st).1 ≡ tables st
      at_window src none = refl
      at_window src (some (before, current)) = refl

      at_source :
          (o : Option MetricSource) → tables (detect_found zs set_up metric o st).1 ≡ tables st
      at_source none = refl
      at_source (some src) =
          at_window src
            (split_last (get_sliding_window zs (st.windows src.id metric) detection_window_size))

  -- the outcome and the tables after a point was published
  pub after_publish-tables :
      (set_up : Setup F) (data_in : MetricIngest F) (point : MetricDataPoint F)
      (r : Result (Unit {0})) (st : Metrics zs)
      → tables (after_publish zs set_up data_in point r st).1 ≡ tables st
  after_publish-tables set_up data_in point (raise e) st = refl
  after_publish-tables set_up data_in point (return _) st =
      after_detection-tables (detect_stored zs set_up data_in.source_name data_in.metric_name st)
      ∙ detect_stored-tables set_up data_in.source_name data_in.metric_name st
    where
      after_detection-tables :
          (d : Result (Unit {0}) × Metrics zs) → tables (after_detection zs point d).1 ≡ tables d.1
      after_detection-tables (raise e, st') = refl
      after_detection-tables (return _, st') = refl

  -- what an outcome returns, if it returns, is this point
  abbrev pub ReturnsOnly : MetricDataPoint F → Result (MetricDataPoint F) → Type 0
  ReturnsOnly point (return p) = p ≡ point
  ReturnsOnly point (raise e) = Unit

  pub after_publish-ReturnsOnly :
      (set_up : Setup F) (data_in : MetricIngest F) (point : MetricDataPoint F)
      (r : Result (Unit {0})) (st : Metrics zs)
      → ReturnsOnly point (after_publish zs set_up data_in point r st).0
  after_publish-ReturnsOnly set_up data_in point (raise e) st = tt
  after_publish-ReturnsOnly set_up data_in point (return _) st =
      after_detection-ReturnsOnly
        (detect_stored zs set_up data_in.source_name data_in.metric_name st)
    where
      after_detection-ReturnsOnly :
          (d : Result (Unit {0}) × Metrics zs) → ReturnsOnly point (after_detection zs point d).0
      after_detection-ReturnsOnly (raise e, st') = tt
      after_detection-ReturnsOnly (return _, st') = refl
