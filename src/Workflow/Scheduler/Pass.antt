-- ===== src/Workflow/Scheduler/Pass.antt =====
-- A pass of the scheduler gives back the locks it took (app/engine/scheduler.py).
use python_backend_projects.Base.{
  ℕ, ◌≡◌, ◌∙◌, refl, Bool, false, not, ◌&&◌, Option, none, some, List, [], ◌∷◌, Result, return,
  raise, Bool-cases, if-both, inl, inr, arith, nat_eq, keep, ap, ltb,
}
use python_backend_projects.Workflow.Models.{WorkflowDefinition, WorkflowSchedule}
use python_backend_projects.Workflow.Scheduler.{
  Croniter, Desk, Round, holds, enqueue, store_trigger, store_first, trigger_due, check_next,
  check_locked, check_one, after_round, check_and_trigger,
}

holds-keep :
    (k j : ℕ) (locks : List ℕ)
    → holds j (keep (λ x. not (nat_eq k x)) locks) ≡ (not (nat_eq k j) && holds j locks)
holds-keep k j [] = ground arith
holds-keep k j (x ∷ locks) = ground (arith, holds-keep k j locks)

-- Taking a free lock and giving it back leaves the locks as they were.
take_back :
    (k j : ℕ) (locks : List ℕ)
    → holds k locks ≡ false
    → holds j (keep (λ x. not (nat_eq k x)) (k ∷ locks)) ≡ holds j locks
take_back k j locks free = elim (Bool-cases (nat_eq k j)) [
  | inl same ↦
      let eq : j ≡ k = ground (arith, same) in
      ground (arith, holds-keep k j locks, ap (λ x. holds x locks) eq, free, same)
  | inr other ↦ ground (arith, holds-keep k j locks, other)
]

module _ (cron : Croniter) where
  store_trigger-locks :
      (now : ℕ) (sched : WorkflowSchedule) (d : Desk) (r : Result ℕ)
      → (store_trigger now sched d r).2.locks ≡ d.locks
  store_trigger-locks now sched d (raise e) = refl
  store_trigger-locks now sched d (return next) = refl

  store_first-locks :
      (sched : WorkflowSchedule) (d : Desk) (r : Result ℕ)
      → (store_first sched d r).2.locks ≡ d.locks
  store_first-locks sched d (raise e) = refl
  store_first-locks sched d (return next) = refl

  trigger_due-locks :
      (now : ℕ) (sched : WorkflowSchedule) (wf : Option WorkflowDefinition) (d : Desk)
      → (trigger_due cron now sched wf d).2.locks ≡ d.locks
  unfolding trigger_due
  trigger_due-locks now sched none d = refl
  trigger_due-locks now sched (some wf) d = elim (Bool-cases wf.is_active) [
    | inl e ↦
        rw e (
          store_trigger-locks now sched (enqueue sched d) (cron.get_next sched.cron_expression now))
    | inr e ↦ rw e refl
  ]

  check_next-locks :
      (now : ℕ) (sched : WorkflowSchedule) (next : Option ℕ) (wf : Option WorkflowDefinition)
      (d : Desk)
      → (check_next cron now sched next wf d).2.locks ≡ d.locks
  unfolding check_next
  check_next-locks now sched none wf d =
      store_first-locks sched d (cron.get_next sched.cron_expression now)
  check_next-locks now sched (some next) wf d = elim (Bool-cases (ltb now next)) [
    | inl e ↦ rw e refl
    | inr e ↦ rw e (trigger_due-locks now sched wf d)
  ]

  check_locked-locks :
      (now : ℕ) (sched : WorkflowSchedule) (wf : Option WorkflowDefinition) (d : Desk)
      → (check_locked cron now sched wf d).2.locks ≡ d.locks
  unfolding check_locked
  check_locked-locks now sched wf d =
      if-both (λ (r : Round). r.2.locks ≡ d.locks) (not sched.is_active) refl
        (check_next-locks now sched sched.next_run_at wf d)

  -- A round holds the locks that were held before it, however it ended.
  check_one-locks :
      (workflows : List WorkflowDefinition) (now : ℕ) (sched : WorkflowSchedule) (d : Desk) (j : ℕ)
      → holds j (check_one cron workflows now sched d).2.locks ≡ holds j d.locks
  unfolding check_one
  check_one-locks workflows now sched d j = elim (Bool-cases (holds sched.id d.locks)) [
    | inl e ↦ rw e refl
    | inr e ↦ rw e (
        ap (λ l. holds j (keep (λ x. not (nat_eq sched.id x)) l))
          (check_locked-locks now sched _ (record d { locks = sched.id ∷ d.locks }))
        ∙ take_back sched.id j d.locks e)
  ]

  after_round-locks :
      (r : Result (Unit {0})) (sched : WorkflowSchedule) (rest : List WorkflowSchedule)
      (more : Result (Unit {0}) × List WorkflowSchedule × Desk) (d : Desk) (held : Bool) (j : ℕ)
      → holds j d.locks ≡ held
      → holds j more.2.locks ≡ held
      → holds j (after_round cron r sched rest more d).2.locks ≡ held
  after_round-locks (raise e) sched rest more d held j here there = here
  after_round-locks (return _) sched rest more d held j here there = there

  -- However a pass ends, by an exception too, it holds the locks that were held before it.
  pub check_and_trigger-locks :
      (workflows : List WorkflowDefinition) (now : ℕ) (scheds : List WorkflowSchedule) (d : Desk)
      (j : ℕ)
      → holds j (check_and_trigger cron workflows now scheds d).2.locks ≡ holds j d.locks
  unfolding check_and_trigger
  check_and_trigger-locks workflows now [] d j = refl
  check_and_trigger-locks workflows now (sched ∷ rest) d j =
      let (r, sched', d') = check_one cron workflows now sched d in
      let one = check_one-locks workflows now sched d j in
      if-both
        (λ (r : Result (Unit {0}) × List WorkflowSchedule × Desk).
          holds j r.2.locks ≡ holds j d.locks)
        (not sched.is_active) (check_and_trigger-locks workflows now rest d j)
        (after_round-locks r sched' rest (check_and_trigger cron workflows now rest d') d'
          (holds j d.locks) j one (check_and_trigger-locks workflows now rest d' j ∙ one))
