-- ===== src/Anomaly/Metrics/Queries/Answers.antt =====
-- What the queries of the stored points (app/services/metric_service.py) answer.
use text.Mathlib.TextEquality.{eq_iff}
use python_backend_projects.Base.{
  ℕ, suc, ◌≤◌, ◌≡◌, inl, inr, refl, ap, String, Bool, true, false, Option, none, some, List, [],
  ◌∷◌, length, keep, leb, All, if-both, Bool-cases, ◌∙◌, sym, subst, length-map, arith,
}
use python_backend_projects.Base.Rows.{find_row}
use python_backend_projects.Base.Search.{keep_within}
use python_backend_projects.Anomaly.Metrics.{MetricSource, MetricDataPoint, source_key}
use python_backend_projects.Anomaly.Metrics.Queries.{
  MetricQuery, MetricAggregation, Aggregates, has_name, is_match, place, order_by_timestamp,
  query_metrics, aggregate_row, get_aggregation,
}

has_name-true :
    (name : String) (o : Option MetricSource)
    → has_name name o ≡ true
    → (src : MetricSource) × (o ≡ some src) × (src.name ≡ name)
has_name-true name none h = cc
has_name-true name (some src) h = (src, refl, ground (arith, h, eq_iff src.name name))

true-has_name :
    (name : String) (src : MetricSource) (o : Option MetricSource)
    → o ≡ some src
    → src.name ≡ name
    → has_name name o ≡ true
true-has_name name src none e h = cc
true-has_name name src (some x) e h =
    let same : x ≡ src = cc in
    ground (arith, h, eq_iff x.name name, ap (λ (y : MetricSource). y.name) same)

module _ {F : Type 0} where
  -- one after the other in time
  abbrev pub AreInOrder : List (MetricDataPoint F) → Type 0
  AreInOrder [] = Unit
  AreInOrder (p ∷ rest) = All (λ q. p.timestamp ≤ q.timestamp) rest × AreInOrder rest

  All-place :
      (P : MetricDataPoint F → Type 0) (p : MetricDataPoint F) (xs : List (MetricDataPoint F))
      → P p
      → All P xs
      → All P (place p xs)
  unfolding place
  All-place P p [] new h = (new, h)
  All-place P p (q ∷ rest) new h =
      if-both (All P) (leb p.timestamp q.timestamp) (new, h) (h.0, All-place P p rest new h.1)

  All-le :
      (a b : ℕ) (xs : List (MetricDataPoint F))
      → a ≤ b
      → All (λ q. b ≤ q.timestamp) xs
      → All (λ q. a ≤ q.timestamp) xs
  All-le a b [] le h = h
  All-le a b (q ∷ rest) le h = (omega (arith, h.0), All-le a b rest le h.1)

  place-AreInOrder :
      (p : MetricDataPoint F) (xs : List (MetricDataPoint F))
      → AreInOrder xs
      → AreInOrder (place p xs)
  unfolding place
  place-AreInOrder p [] h = (tt, tt)
  place-AreInOrder p (q ∷ rest) h = elim (Bool-cases (leb p.timestamp q.timestamp)) [
    | inl le ↦
        let le' : p.timestamp ≤ q.timestamp = ground (arith, le) in
        rw le ((le', All-le p.timestamp q.timestamp rest le' h.0), h)
    | inr gt ↦
        let ge : q.timestamp ≤ p.timestamp = ground (arith, gt) in
        rw gt
          (All-place (λ r. q.timestamp ≤ r.timestamp) p rest ge h.0, place-AreInOrder p rest h.1)
  ]

  order_by_timestamp-AreInOrder :
      (xs : List (MetricDataPoint F)) → AreInOrder (order_by_timestamp xs)
  unfolding order_by_timestamp
  order_by_timestamp-AreInOrder [] = tt
  order_by_timestamp-AreInOrder (p ∷ rest) =
      place-AreInOrder p (order_by_timestamp rest) (order_by_timestamp-AreInOrder rest)

  length-keep-place :
      (test : MetricDataPoint F → Bool) (p : MetricDataPoint F) (xs : List (MetricDataPoint F))
      → length (keep test (place p xs)) ≡ length (keep test (p ∷ xs))
  unfolding place
  length-keep-place test p [] = refl
  length-keep-place test p (q ∷ rest) = ground (arith, length-keep-place test p rest)

  length-keep-order :
      (test : MetricDataPoint F → Bool) (xs : List (MetricDataPoint F))
      → length (keep test (order_by_timestamp xs)) ≡ length (keep test xs)
  unfolding order_by_timestamp
  length-keep-order test [] = refl
  length-keep-order test (p ∷ rest) =
      length-keep-place test p (order_by_timestamp rest)
      ∙ ground (arith, length-keep-order test rest)

  -- what the filter asks of a point
  abbrev pub IsAsked : MetricQuery → List MetricSource → MetricDataPoint F → Type 0
  IsAsked query sources p =
      (p.metric_name ≡ query.metric_name)
      × (query.start_time ≤ p.timestamp)
      × (p.timestamp ≤ query.end_time)
      × ((src : MetricSource) × (find_row source_key p.source_id sources ≡ some src)
          × (src.name ≡ query.source_name))

  is_match-IsAsked :
      (query : MetricQuery) (sources : List MetricSource) (p : MetricDataPoint F)
      → is_match query sources p ≡ true
      → IsAsked query sources p
  unfolding is_match
  is_match-IsAsked query sources p h = (
    ground (arith, h, eq_iff p.metric_name query.metric_name),
    ground (arith, h),
    ground (arith, h),
    has_name-true query.source_name (find_row source_key p.source_id sources) (ground (arith, h)),
  )

  IsAsked-is_match :
      (query : MetricQuery) (sources : List MetricSource) (p : MetricDataPoint F)
      → IsAsked query sources p
      → is_match query sources p ≡ true
  unfolding is_match
  IsAsked-is_match query sources p (named, from, to, (src, found, same)) =
      let ok =
        true-has_name query.source_name src (find_row source_key p.source_id sources) found same in
      ground (arith, ok, named, from, to, eq_iff p.metric_name query.metric_name)

  All-keep :
      (P : MetricDataPoint F → Type 0) (test : MetricDataPoint F → Bool)
      (xs : List (MetricDataPoint F))
      → ((p : MetricDataPoint F) → test p ≡ true → P p)
      → All P (keep test xs)
  All-keep P test [] h = tt
  All-keep P test (p ∷ rest) h = one (test p) (h p) (All-keep P test rest h)
    where
      one :
          (b : Bool)
          → (b ≡ true → P p)
          → All P (keep test rest)
          → All P (elim b [ true ↦ p ∷ keep test rest | false ↦ keep test rest ])
      one true new more = (new refl, more)
      one false new more = more

  All-order_by_timestamp :
      (P : MetricDataPoint F → Type 0) (xs : List (MetricDataPoint F))
      → All P xs
      → All P (order_by_timestamp xs)
  unfolding order_by_timestamp
  All-order_by_timestamp P [] h = tt
  All-order_by_timestamp P (p ∷ rest) h =
      All-place P p (order_by_timestamp rest) h.0 (All-order_by_timestamp P rest h.1)

  -- whether there is an aggregate, and of how many points
  abbrev pub IsCounted : Option (MetricAggregation F) → ℕ → Type 0
  IsCounted none n = n ≡ 0
  IsCounted (some row) n = (1 ≤ n) × (row.count ≡ n)

  aggregate_row-IsCounted :
      (agg : Aggregates F) (query : MetricQuery) (xs : List (MetricDataPoint F))
      → IsCounted (aggregate_row agg query xs) (length xs)
  aggregate_row-IsCounted agg query [] = refl
  aggregate_row-IsCounted agg query (p ∷ rest) =
      (omega arith, ap suc (length-map (λ (q : MetricDataPoint F). q.value) rest))

  length-order : (xs : List (MetricDataPoint F)) → length (order_by_timestamp xs) ≡ length xs
  length-order xs =
      ap length (sym (keep_all (order_by_timestamp xs)))
      ∙ length-keep-order (λ p. true) xs
      ∙ ap length (keep_all xs)
    where
      keep_all : (ys : List (MetricDataPoint F)) → keep (λ p. true) ys ≡ ys
      keep_all [] = refl
      keep_all (y ∷ ys) = ap (λ l. y ∷ l) (keep_all ys)

  -- A query answers with points of the metric, at times between its bounds, both included, whose
  -- source has the name, in the order of their times. Whatever is counted among such points, it is
  -- in the answer as often as in the table. There is an aggregate exactly if the answer to the same
  -- query is not empty, and its count is the length of that answer.
  pub query_metrics-answer :
      (agg : Aggregates F) (query : MetricQuery) (sources : List MetricSource)
      (points : List (MetricDataPoint F))
      → let answer = query_metrics query sources points in
        All (IsAsked query sources) answer
        × AreInOrder answer
        × ((test : MetricDataPoint F → Bool)
            → ((p : MetricDataPoint F) → test p ≡ true → IsAsked query sources p)
            → length (keep test answer) ≡ length (keep test points))
        × IsCounted (get_aggregation agg query sources points) (length answer)
  unfolding query_metrics get_aggregation
  query_metrics-answer agg query sources points =
      let hits = keep (is_match query sources) points in
      (
        All-order_by_timestamp (IsAsked query sources) hits (
            All-keep (IsAsked query sources) (is_match query sources) points
              (is_match-IsAsked query sources)),
        order_by_timestamp-AreInOrder hits,
        (λ test only.
            length-keep-order test hits
            ∙ ap length (
                keep_within test (is_match query sources) points
                  (λ p t. IsAsked-is_match query sources p (only p t)))),
        subst (IsCounted (aggregate_row agg query hits)) (sym (length-order hits))
            (aggregate_row-IsCounted agg query hits),
      )
