-- ===== src/Anomaly/Workers/Batches.antt =====
-- The detection of a batch (app/workers/detection_task.py): all of it, or nothing but cooldowns.
use python_backend_projects.Base.{
  ℕ, suc, ◌+◌, String, ◌≡◌, refl, ◌∙◌, List, [], ◌∷◌, length, Result, return, raise, arith,
}
use python_backend_projects.Anomaly.Redis.{SortedSets}
use python_backend_projects.Anomaly.Window.{Member}
use python_backend_projects.Anomaly.Metrics.{Metrics, Setup, detect_stored}
use python_backend_projects.Anomaly.Metrics.Stored.{tables, detect_stored-tables}
use python_backend_projects.Anomaly.Workers.{process, after_row, committed, run_batch_detection}

module _ {F : Type 0} (zs : SortedSets (Member F)) where
  -- how a batch ends
  abbrev pub IsBatchEnd :
      List (String × String) → (before : Metrics zs) → Result ℕ × Metrics zs → Type 0
  IsBatchEnd rows before (return n, st) = (n ≡ length rows) × (tables zs st ≡ tables zs before)
  IsBatchEnd rows before (raise e, st) =
      (tables zs st ≡ tables zs before)
      × (st.platform.records ≡ before.platform.records)
      × (st.platform.notifications ≡ before.platform.notifications)

  process_lem :
      (set_up : Setup F) (rows : List (String × String)) (processed : ℕ) (st : Metrics zs)
      → (tables zs (process zs set_up rows processed st).1 ≡ tables zs st)
        × ((n : ℕ)
            → (process zs set_up rows processed st).0 ≡ return n
            → n ≡ processed + length rows)
  unfolding process
  process_lem set_up [] processed st = (refl, λ n h. ground (arith, h))
  process_lem set_up ((source_name, metric_name) ∷ rest) processed st =
      step (detect_stored zs set_up source_name metric_name st)
        (detect_stored-tables zs set_up source_name metric_name st)
        (λ st'. process_lem set_up rest (suc processed) st')
    where
      step :
          (d : Result (Unit {0}) × Metrics zs)
          → tables zs d.1 ≡ tables zs st
          → ((st' : Metrics zs)
              → (tables zs (process zs set_up rest (suc processed) st').1 ≡ tables zs st')
                × ((n : ℕ)
                    → (process zs set_up rest (suc processed) st').0 ≡ return n
                    → n ≡ suc processed + length rest))
          → let end = after_row zs d.0 d.1 (process zs set_up rest (suc processed) d.1) in
            (tables zs end.1 ≡ tables zs st)
            × ((n : ℕ) → end.0 ≡ return n → n ≡ processed + suc (length rest))
      step (raise e, st') same ih = (same, λ n h. absurd cc)
      step (return _, st') same ih =
          ((ih st').0 ∙ same, λ n h. let m = (ih st').1 n h in omega (arith, m))

  -- A batch that returns has counted every row of its query. One that raises has changed no anomaly
  -- and no notification. Neither changes a source, a point or a window.
  pub run_batch_detection-IsBatchEnd :
      (set_up : Setup F) (rows : List (String × String)) (st : Metrics zs)
      → IsBatchEnd rows st (run_batch_detection zs set_up rows st)
  unfolding run_batch_detection
  run_batch_detection-IsBatchEnd set_up rows st =
      close (process zs set_up rows 0 st) (process_lem set_up rows 0 st)
    where
      close :
          (d : Result ℕ × Metrics zs)
          → (tables zs d.1 ≡ tables zs st) × ((n : ℕ) → d.0 ≡ return n → n ≡ 0 + length rows)
          → IsBatchEnd rows st (committed zs st d)
      close (raise e, st') h = (refl, refl, refl)
      close (return n, st') h = (omega (arith, h.1 n refl), h.0)
