-- ===== src/Anomaly/Workers/Cleaned.antt =====
-- What the clean-ups (app/workers/cleanup_task.py) delete and keep.
use text.Mathlib.TextEquality.{eq_iff}
use python_backend_projects.Base.{
  ℕ, ◌+◌, ◌*◌, ◌≤◌, ◌≡◌, ◌≢◌, ◌⊎◌, inl, inr, refl, ap, Bool, true, false, not, Option, none, some,
  List, [], ◌∷◌, length, keep, All, Bool-cases, ◌==◌, Result, return, raise, arith,
}
use python_backend_projects.Base.Search.{keep_within}
use python_backend_projects.Anomaly.Records.{AnomalyRecord}
use python_backend_projects.Anomaly.Metrics.{MetricDataPoint}
use python_backend_projects.Anomaly.Workers.{
  resolved_anomaly_archive_days, is_before_cutoff, delete_where, is_past, is_old_metric,
  cleanup_old_metrics, is_old_resolved, cleanup_resolved_anomalies,
}

module _ {A : Type 0} where
  -- A task that deletes every row that is not `Kept`: on a commit the count and the rows that are
  -- left make up the table, every row that is left is `Kept`, whatever is counted among the rows
  -- that are `Kept` is as before, and to do it again deletes nothing; without a commit nothing is
  -- deleted.
  abbrev pub IsCleaned :
      (old : A → Bool) → (Kept : A → Type 0) → (rows : List A) → Result ℕ × List A → Type 0
  IsCleaned old Kept rows (raise e, left) = left ≡ rows
  IsCleaned old Kept rows (return n, left) =
      (n + length left ≡ length rows)
      × All Kept left
      × ((test : A → Bool)
          → ((x : A) → test x ≡ true → Kept x)
          → length (keep test left) ≡ length (keep test rows))
      × (delete_where old (return tt) left ≡ (return 0, left))

  keep_split :
      (old : A → Bool) (rows : List A)
      → length (keep old rows) + length (keep (λ x. not (old x)) rows) ≡ length rows
  keep_split old [] = omega arith
  keep_split old (x ∷ rest) = ground (arith, keep_split old rest)

  All-keep-not :
      (old : A → Bool) (Kept : A → Type 0) (rows : List A)
      → ((x : A) → old x ≡ false → Kept x)
      → All Kept (keep (λ x. not (old x)) rows)
  All-keep-not old Kept [] h = tt
  All-keep-not old Kept (x ∷ rest) h = one (old x) (h x) (All-keep-not old Kept rest h)
    where
      more : List A
      more = keep (λ y. not (old y)) rest

      one :
          (b : Bool)
          → (b ≡ false → Kept x)
          → All Kept more
          → All Kept (elim (not b) [ true ↦ x ∷ more | false ↦ more ])
      one true new rest_kept = rest_kept
      one false new rest_kept = (new refl, rest_kept)

  keep_none :
      (old : A → Bool) (rows : List A)
      → (keep old (keep (λ x. not (old x)) rows) ≡ [])
        × (keep (λ x. not (old x)) (keep (λ x. not (old x)) rows) ≡ keep (λ x. not (old x)) rows)
  keep_none old [] = (refl, refl)
  keep_none old (x ∷ rest) =
      let ih = keep_none old rest in (ground (arith, ih.0), ground (arith, ih.1))

  delete_where-IsCleaned :
      (old : A → Bool) (Kept : A → Type 0) (commit : Result (Unit {0})) (rows : List A)
      → ((x : A) → old x ≡ false → Kept x)
      → ((x : A) → Kept x → old x ≡ false)
      → IsCleaned old Kept rows (delete_where old commit rows)
  delete_where-IsCleaned old Kept (raise e) rows h new = refl
  delete_where-IsCleaned old Kept (return _) rows h new =
      let again = keep_none old rows in
      (
        keep_split old rows,
        All-keep-not old Kept rows h,
        (λ test only.
            ap length
              (keep_within test (λ x. not (old x)) rows (λ x t. ap not (new x (only x t))))),
        ground (arith, again.0, again.1),
      )

-- A point that stays is not older than the retention.
abbrev pub IsRecent : {F : Type 0} → ℕ → MetricDataPoint F → Type 0
IsRecent now point = now ≤ point.timestamp + 90 * 86400

-- An anomaly that stays is not resolved, or has no time of its resolution, or not so old a one.
abbrev pub IsTimely : ℕ → Option ℕ → Type 0
IsTimely now none = Unit
IsTimely now (some at_) = now ≤ at_ + 365 * 86400

abbrev pub IsOpenOrRecent : {F : Type 0} → ℕ → AnomalyRecord F → Type 0
IsOpenOrRecent now rec = (rec.status ≢ "resolved") ⊎ IsTimely now rec.resolved_at

is_past-IsTimely :
    (now : ℕ) (o : Option ℕ) → is_past o now resolved_anomaly_archive_days ≡ false → IsTimely now o
unfolding is_before_cutoff
is_past-IsTimely now none h = tt
is_past-IsTimely now (some at_) h = ground (arith, h)

IsTimely-is_past :
    (now : ℕ) (o : Option ℕ) → IsTimely now o → is_past o now resolved_anomaly_archive_days ≡ false
unfolding is_before_cutoff
IsTimely-is_past now none h = refl
IsTimely-is_past now (some at_) h = ground (arith, h)

module _ {F : Type 0} where
  is_old_metric-IsRecent :
      (now : ℕ) (point : MetricDataPoint F) → is_old_metric now point ≡ false → IsRecent now point
  unfolding is_old_metric is_before_cutoff
  is_old_metric-IsRecent now point h = ground (arith, h)

  IsRecent-is_old_metric :
      (now : ℕ) (point : MetricDataPoint F) → IsRecent now point → is_old_metric now point ≡ false
  unfolding is_old_metric is_before_cutoff
  IsRecent-is_old_metric now point h = ground (arith, h)

  IsOpenOrRecent-is_old_resolved :
      (now : ℕ) (rec : AnomalyRecord F) → IsOpenOrRecent now rec → is_old_resolved now rec ≡ false
  unfolding is_old_resolved
  IsOpenOrRecent-is_old_resolved now rec (inl other) =
      ground (arith, other, eq_iff rec.status "resolved")
  IsOpenOrRecent-is_old_resolved now rec (inr h) =
      ground (arith, IsTimely-is_past now rec.resolved_at h)

  is_old_resolved-IsOpenOrRecent :
      (now : ℕ) (rec : AnomalyRecord F) → is_old_resolved now rec ≡ false → IsOpenOrRecent now rec
  unfolding is_old_resolved
  is_old_resolved-IsOpenOrRecent now rec h = elim (Bool-cases (rec.status == "resolved")) [
    | inl resolved ↦ inr (is_past-IsTimely now rec.resolved_at (ground (arith, h, resolved)))
    | inr other ↦ inl (λ e. ground (arith, other, e, eq_iff rec.status "resolved"))
  ]

  -- The two clean-ups, once their deletion is committed: the count and the rows that are left make
  -- up the table; no point is left that is older than 90 days, and no anomaly whose status is
  -- resolved and that was resolved more than 365 days ago; whatever is counted among the points
  -- that are not older, or among the anomalies that are not resolved, have no time of it or a later
  -- one, is the same as before; and to do it again at that time deletes nothing. If the commit
  -- raises, the table is as it was.
  pub cleanup-IsCleaned :
      (now : ℕ) (commit : Result (Unit {0})) (points : List (MetricDataPoint F))
      (records : List (AnomalyRecord F))
      → IsCleaned (is_old_metric now) (IsRecent now) points (cleanup_old_metrics now commit points)
        × IsCleaned
            (is_old_resolved now)
            (IsOpenOrRecent now)
            records
            (cleanup_resolved_anomalies now commit records)
  unfolding cleanup_old_metrics cleanup_resolved_anomalies
  cleanup-IsCleaned now commit points records = (
    delete_where-IsCleaned (is_old_metric now) (IsRecent now) commit points
        (is_old_metric-IsRecent now) (IsRecent-is_old_metric now),
    delete_where-IsCleaned (is_old_resolved now) (IsOpenOrRecent now) commit records
        (is_old_resolved-IsOpenOrRecent now) (IsOpenOrRecent-is_old_resolved now),
  )
