-- ===== src/Anomaly/Metrics/Ingested.antt =====
-- What `ingest_metric` and `ingest_batch` (app/services/metric_service.py) leave in the tables and
-- in the windows, also when the publication or the detection raises.
use text.Mathlib.TextEquality.{eq_iff}
use python_backend_projects.Base.{
  ℕ, ◌≡◌, ◌⊎◌, inl, inr, refl, sym, ◌∙◌, ap, subst, String, false, ◌&&◌, Option, none, some, List,
  [], ◌∷◌, ◌++◌, Result, nat_eq, nat_eq_refl, ◌==◌, ==-refl, arith,
}
use python_backend_projects.Anomaly.Redis.{SortedSets}
use python_backend_projects.Anomaly.Window.{Member, detection_window_size, add_to_sliding_window}
use python_backend_projects.Anomaly.Metrics.{
  MetricSource, MetricDataPoint, MetricIngest, Metrics, Setup, find_source, or_now,
  application_source, source_or_new, get_or_create_source, new_point, set_window, store_point,
  publish_point, ingest_metric,
}
use python_backend_projects.Anomaly.Metrics.Stored.{
  names, AreDistinct, ReturnsOnly, after_publish-tables, after_publish-ReturnsOnly, distinct_added,
  find_source-snoc,
}

find_source-name :
    (name : String) (srcs : List MetricSource) (src : MetricSource)
    → find_source name srcs ≡ some src
    → src.name ≡ name
find_source-name name [] src h = cc
find_source-name name (x ∷ rest) src h =
    ground (arith, find_source-name name rest src, eq_iff x.name name)

module _ {F : Type 0} (zs : SortedSets (Member F)) where
  -- The source of that name that an ingestion uses, and the table of sources after it: the table
  -- as it was, or with a row of type "application" at its end.
  abbrev pub IsSourceFor : String → MetricSource → (before after : List MetricSource) → Type 0
  IsSourceFor name src before after =
      (src.name ≡ name)
      × (find_source name after ≡ some src)
      × AreDistinct (names after)
      × ((after ≡ before)
          ⊎ ((find_source name before ≡ none)
              × (src.source_type ≡ "application")
              × (after ≡ before ++ (src ∷ []))))

  source_or_new_lem :
      (name : String) (st : Metrics zs) (o : Option MetricSource)
      → find_source name st.sources ≡ o
      → AreDistinct (names st.sources)
      → IsSourceFor name
          (source_or_new zs name o st).0
          st.sources
          (source_or_new zs name o st).1.sources
  source_or_new_lem name st (some src) e h =
      (find_source-name name st.sources src e, e, h, inl refl)
  source_or_new_lem name st none e h =
      let src = application_source zs name st.next_id in
      (
        refl,
        find_source-snoc name st.sources src e refl,
        distinct_added name st.sources src e refl h,
        inr (e, refl, refl),
      )

  source_or_new-kept :
      (name : String) (st : Metrics zs) (o : Option MetricSource)
      → let st1 = (source_or_new zs name o st).1 in
        ◌≡◌ {A = List (MetricDataPoint F) × (ℕ → String → zs.Set)}
          (st1.points, st1.windows)
          (st.points, st.windows)
  source_or_new-kept name st (some src) = refl
  source_or_new-kept name st none = refl

  -- the window of the point's metric is what adding the value leaves, and the others are as they
  -- were
  abbrev pub AreWindowsWith : MetricDataPoint F → ℕ → (before after : ℕ → String → zs.Set) → Type 0
  AreWindowsWith point id before after =
      (after point.source_id point.metric_name
        ≡ add_to_sliding_window zs (before point.source_id point.metric_name) point.timestamp
            point.value id detection_window_size)
      × ((s : ℕ) (m : String)
          → (nat_eq s point.source_id && m == point.metric_name) ≡ false
          → after s m ≡ before s m)

  set_window-AreWindowsWith :
      (point : MetricDataPoint F) (id : ℕ) (ws : ℕ → String → zs.Set)
      → AreWindowsWith point id ws (
          set_window zs point.source_id point.metric_name
            (add_to_sliding_window zs
              (ws point.source_id point.metric_name)
              point.timestamp
              point.value
              id
              detection_window_size)
            ws)
  set_window-AreWindowsWith point id ws = (
    ground (arith, nat_eq_refl point.source_id, ==-refl point.metric_name),
    λ s m other. rw other refl,
  )

  pub record IsIngested (now : ℕ) (data_in : MetricIngest F) (st st' : Metrics zs)
      (r : Result (MetricDataPoint F)) : Type 0 where
    pub src : MetricSource
    pub source : IsSourceFor data_in.source_name src st.sources st'.sources
    pub point : MetricDataPoint F
    pub id : ℕ
    pub is_point : point ≡ new_point zs id src (or_now data_in.timestamp now) data_in
    pub points : st'.points ≡ st.points ++ (point ∷ [])
    pub windows : AreWindowsWith point id st.windows st'.windows
    pub returned : ReturnsOnly zs point r

  pub ingest_metric-IsIngested :
      (set_up : Setup F) (data_in : MetricIngest F) (st : Metrics zs)
      → AreDistinct (names st.sources)
      → let (r, st') = ingest_metric zs set_up data_in st in
        IsIngested set_up.out.now data_in st st' r
  unfolding ingest_metric get_or_create_source store_point
  ingest_metric-IsIngested set_up data_in st h =
      let found = find_source data_in.source_name st.sources in
      let chosen = source_or_new zs data_in.source_name found st in
      let st1 = chosen.1 in
      let point_in =
        new_point zs st1.next_id chosen.0 (or_now data_in.timestamp set_up.out.now) data_in in
      let stored = store_point zs point_in st1 in
      let sent = publish_point zs set_up.publish point_in in
      let end = after_publish-tables zs set_up data_in point_in sent stored in
      let of_source = source_or_new_lem data_in.source_name st found refl h in
      let kept = source_or_new-kept data_in.source_name st found in
      record {
        src = chosen.0;
        source =
            subst (IsSourceFor data_in.source_name chosen.0 st.sources) (sym (ap (λ t. t.0) end))
              of_source;
        point = point_in;
        id = st1.next_id;
        is_point = refl;
        points = ap (λ t. t.1) end ∙ ap (λ l. l ++ (point_in ∷ [])) (ap (λ t. t.0) kept);
        windows = subst (AreWindowsWith point_in st1.next_id st.windows) (sym (ap (λ t. t.2) end)) (
            subst
              (λ ws. AreWindowsWith point_in st1.next_id ws (
                set_window zs point_in.source_id point_in.metric_name
                  (add_to_sliding_window zs (st1.windows point_in.source_id point_in.metric_name)
                    point_in.timestamp point_in.value st1.next_id detection_window_size)
                  st1.windows))
              (ap (λ t. t.1) kept) (set_window-AreWindowsWith point_in st1.next_id st1.windows));
        returned = after_publish-ReturnsOnly zs set_up data_in point_in sent stored;
      }
