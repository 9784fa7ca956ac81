-- ===== src/Anomaly/Metrics/Judged.antt =====
-- What an ingestion hands to the detectors: app/services/metric_service.py, the window of
-- app/cache/redis_client.py and app/services/detection_engine.py together.
use python_backend_projects.Base.{
  suc, ◌-◌, ◌<◌, ◌≡◌, ◌≢◌, refl, sym, ap, ◌∙◌, subst, String, Option, none, some, List, length,
  drop, All, Result, return, raise, keep, nat_eq_refl, ==-refl, arith,
}
use python_backend_projects.Anomaly.Redis.{SortedSets, IsRedis, members}
use python_backend_projects.Anomaly.Window.{
  Member, written, detection_window_size, read_values, split_last, get_sliding_window,
  add_to_sliding_window,
}
use python_backend_projects.Anomaly.Window.Latest.{add_to_sliding_window_current}
use python_backend_projects.Anomaly.Detection.{Platform, run_detection}
use python_backend_projects.Anomaly.Metrics.{
  MetricSource, MetricDataPoint, MetricIngest, Metrics, Setup, find_source, or_now, source_or_new,
  get_or_create_source, new_point, store_point, with_platform, detect_window, detect_found,
  detect_stored, publish_point, after_detection, after_publish, ingest_metric,
}

module _ {F : Type 0} (zs : SortedSets (Member F)) where
  -- the end of an ingestion by that of the detection
  abbrev pub EndsLike :
      MetricDataPoint F
      → Result (Unit {0}) × Platform F
      → Result (MetricDataPoint F) × Metrics zs
      → Type 0
  EndsLike point (return _, p) (r, st) = (r ≡ return point) × (st.platform ≡ p)
  EndsLike point (raise e, p) (r, st) = (r ≡ raise e) × (st.platform ≡ p)

  after_detection-EndsLike :
      (point : MetricDataPoint F) (st : Metrics zs) (d : Result (Unit {0}) × Platform F)
      → EndsLike point d (after_detection zs point (with_platform zs st d))
  after_detection-EndsLike point st (return _, p) = (refl, refl)
  after_detection-EndsLike point st (raise e, p) = (refl, refl)

  detect_found_lem :
      (set_up : Setup F) (metric : String) (st : Metrics zs) (src : MetricSource)
      (o : Option MetricSource) (before : List F) (current : F)
      → o ≡ some src
      → split_last (get_sliding_window zs (st.windows src.id metric) detection_window_size)
        ≡ some (before, current)
      → detect_found zs set_up metric o st
        ≡ with_platform zs st (
            run_detection F set_up.out set_up.enc set_up.detect_with_all src.id metric
              (keep (λ rule. rule.enabled) set_up.rules)
              before
              (some current)
              st.platform)
  detect_found_lem set_up metric st src o before current eo ew =
      ap (λ o'. detect_found zs set_up metric o' st) eo
      ∙ ap (λ w. detect_window zs set_up src metric w st) ew

  -- the values before the new one that the window keeps
  abbrev pub values_before : zs.Set → List F
  values_before s =
      read_values
        (members (drop (suc (length (zs.entries s)) - detection_window_size) (zs.entries s)))

  -- An ingestion without a producer, for a source that is there, with a time after those in the
  -- window of its metric, ends as the detection of the very value that it was given ends, judged
  -- against the values that the window keeps of those before it: it returns the stored point
  -- where the detection returns, raises what it raises, and leaves the anomalies, the notifications
  -- and the cooldowns that it leaves. The id of the new member is fresh, and Redis keeps its laws.
  pub ingest_metric-EndsLike :
      IsRedis zs
      → (set_up : Setup F) (data_in : MetricIngest F) (st : Metrics zs) (src : MetricSource)
      → set_up.publish ≡ none
      → find_source data_in.source_name st.sources ≡ some src
      → let time = or_now data_in.timestamp set_up.out.now in
        let s = st.windows src.id data_in.metric_name in
        All (λ e. e.0 ≢ written data_in.value time st.next_id) (zs.entries s)
        → All (λ e. e.1 < time) (zs.entries s)
        → EndsLike
            (new_point zs st.next_id src time data_in)
            (run_detection F set_up.out set_up.enc set_up.detect_with_all src.id data_in.metric_name
              (keep (λ rule. rule.enabled) set_up.rules)
              (values_before s)
              (some data_in.value)
              st.platform)
            (ingest_metric zs set_up data_in st)
  unfolding ingest_metric get_or_create_source detect_stored store_point
  ingest_metric-EndsLike laws set_up data_in st src quiet found fresh late =
      let time = or_now data_in.timestamp set_up.out.now in
      let metric = data_in.metric_name in
      let s = st.windows src.id metric in
      let point = new_point zs st.next_id src time data_in in
      let stored = store_point zs point st in
      let window = add_to_sliding_window zs s time data_in.value st.next_id detection_window_size in
      let own : stored.windows src.id metric ≡ window =
        ground (arith, nat_eq_refl src.id, ==-refl metric) in
      let current =
        add_to_sliding_window_current zs laws s time data_in.value st.next_id detection_window_size
          fresh (omega arith) late in
      let detected =
        detect_found_lem set_up metric stored src (find_source data_in.source_name stored.sources)
          (values_before s) data_in.value found
          (ap (λ w. split_last (get_sliding_window zs w detection_window_size)) own ∙ current) in
      let d =
        run_detection F set_up.out set_up.enc set_up.detect_with_all src.id metric
          (keep (λ rule. rule.enabled) set_up.rules) (values_before s) (some data_in.value)
          st.platform in
      let rest = λ (chosen : MetricSource × Metrics zs).
        after_publish zs set_up data_in (new_point zs chosen.1.next_id chosen.0 time data_in)
          (publish_point zs set_up.publish (new_point zs chosen.1.next_id chosen.0 time data_in))
          (store_point zs (new_point zs chosen.1.next_id chosen.0 time data_in) chosen.1) in
      let path : ingest_metric zs set_up data_in st
          ≡ after_detection zs point (with_platform zs stored d) =
        ap (λ o. rest (source_or_new zs data_in.source_name o st)) found
        ∙ ap (λ p. after_publish zs set_up data_in point (publish_point zs p point) stored) quiet
        ∙ ap (after_detection zs point) detected in
      subst (EndsLike point d) (sym path) (after_detection-EndsLike point stored d)
