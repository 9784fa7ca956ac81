-- ===== src/Workflow/Scheduler/Once.antt =====
-- When a round of the scheduler triggers a schedule, and that it does so once (app/engine/
-- scheduler.py).
use python_backend_projects.Base.{
  if-both, ℕ, ◌≡◌, ◌∙◌, refl, ap, Bool, true, false, not, ◌&&◌, Option, none, some, List, [], ◌∷◌,
  ◌++◌, Result, return, raise, arith, if◌then◌else◌, ltb, lt→ltb,
}
use python_backend_projects.Base.Rows.{find_row}
use python_backend_projects.Workflow.Models.{WorkflowDefinition, WorkflowSchedule}
use python_backend_projects.Workflow.Services.{workflow_key}
use python_backend_projects.Workflow.Scheduler.{
  Croniter, IsCroniter, Desk, Round, holds, triggered, trigger_message, enqueue, store_trigger,
  store_first, trigger_due, check_next, check_locked, check_one,
}

abbrev pub due_next : ℕ → Option ℕ → Bool
due_next now none = false
due_next now (some next) = not (ltb now next)

abbrev pub runnable : Option WorkflowDefinition → Bool
runnable none = false
runnable (some wf) = wf.is_active

-- The schedule is active, its time has come, and its workflow is stored and active.
abbrev pub is_due : List WorkflowDefinition → ℕ → WorkflowSchedule → Bool
is_due workflows now sched =
    sched.is_active
    && due_next now sched.next_run_at
    && runnable (find_row workflow_key sched.workflow_id workflows)

module _ (cron : Croniter) where
  store_trigger-queue :
      (now : ℕ) (sched : WorkflowSchedule) (d : Desk) (r : Result ℕ)
      → (store_trigger now sched d r).2.queue ≡ d.queue
  store_trigger-queue now sched d (raise e) = refl
  store_trigger-queue now sched d (return next) = refl

  store_first-queue :
      (sched : WorkflowSchedule) (d : Desk) (r : Result ℕ)
      → (store_first sched d r).2.queue ≡ d.queue
  store_first-queue sched d (raise e) = refl
  store_first-queue sched d (return next) = refl

  trigger_due-queue :
      (now : ℕ) (sched : WorkflowSchedule) (wf : Option WorkflowDefinition) (d : Desk)
      → (trigger_due cron now sched wf d).2.queue
        ≡ (if runnable wf then d.queue ++ (trigger_message sched ∷ []) else d.queue)
  unfolding trigger_due
  trigger_due-queue now sched none d = refl
  trigger_due-queue now sched (some wf) d = ground (
    arith,
    store_trigger-queue now sched (enqueue sched d) (cron.get_next sched.cron_expression now),
  )

  check_next-queue :
      (now : ℕ) (sched : WorkflowSchedule) (next : Option ℕ) (wf : Option WorkflowDefinition)
      (d : Desk)
      → (check_next cron now sched next wf d).2.queue ≡ (
          if due_next now next && runnable wf
          then d.queue ++ (trigger_message sched ∷ [])
          else d.queue)
  unfolding check_next
  check_next-queue now sched none wf d =
      store_first-queue sched d (cron.get_next sched.cron_expression now)
  check_next-queue now sched (some next) wf d = ground (arith, trigger_due-queue now sched wf d)

  check_locked-queue :
      (now : ℕ) (sched : WorkflowSchedule) (wf : Option WorkflowDefinition) (d : Desk)
      → (check_locked cron now sched wf d).2.queue ≡ (
          if sched.is_active && due_next now sched.next_run_at && runnable wf
          then d.queue ++ (trigger_message sched ∷ [])
          else d.queue)
  unfolding check_locked
  check_locked-queue now sched wf d =
      ground (arith, check_next-queue now sched sched.next_run_at wf d)

  -- A round that gets the lock sends the worker one message if the schedule is due, and else none;
  -- a round that does not get it sends none and leaves the schedule.
  pub check_one-queue :
      (workflows : List WorkflowDefinition) (now : ℕ) (sched : WorkflowSchedule) (d : Desk)
      → (holds sched.id d.locks ≡ false
          → (check_one cron workflows now sched d).2.queue ≡ (
              if is_due workflows now sched
              then d.queue ++ (trigger_message sched ∷ [])
              else d.queue))
        × (holds sched.id d.locks ≡ true
            → check_one cron workflows now sched d ≡ (return tt, sched, d))
  unfolding check_one
  check_one-queue workflows now sched d = (
    λ free. rw free (
        check_locked-queue now sched (find_row workflow_key sched.workflow_id workflows)
          (record d { locks = sched.id ∷ d.locks })),
    λ held. rw held refl,
  )

module _ (cron : Croniter) (laws : IsCroniter cron) where
  store_trigger-next :
      (now : ℕ) (sched : WorkflowSchedule) (d : Desk) (r : Result ℕ)
      → cron.get_next sched.cron_expression now ≡ r
      → (store_trigger now sched d r).0 ≡ return tt
      → due_next now (store_trigger now sched d r).1.next_run_at ≡ false
  unfolding triggered
  store_trigger-next now sched d (raise e) known done = cc
  store_trigger-next now sched d (return next) known done =
      ground (arith, lt→ltb now next (laws.later sched.cron_expression now next known))

  store_first-next :
      (now : ℕ) (sched : WorkflowSchedule) (d : Desk) (r : Result ℕ)
      → cron.get_next sched.cron_expression now ≡ r
      → (store_first sched d r).0 ≡ return tt
      → due_next now (store_first sched d r).1.next_run_at ≡ false
  store_first-next now sched d (raise e) known done = cc
  store_first-next now sched d (return next) known done =
      ground (arith, lt→ltb now next (laws.later sched.cron_expression now next known))

  trigger_due-next :
      (now : ℕ) (sched : WorkflowSchedule) (wf : Option WorkflowDefinition) (d : Desk)
      → (trigger_due cron now sched wf d).0 ≡ return tt
      → (due_next now (trigger_due cron now sched wf d).1.next_run_at && runnable wf) ≡ false
  unfolding trigger_due
  trigger_due-next now sched none d done = ground arith
  trigger_due-next now sched (some wf) d done =
      let later =
        store_trigger-next now sched (enqueue sched d) (cron.get_next sched.cron_expression now)
          refl in
      ground (arith, done, later)

  check_next-next :
      (now : ℕ) (sched : WorkflowSchedule) (next : Option ℕ) (wf : Option WorkflowDefinition)
      (d : Desk)
      → sched.next_run_at ≡ next
      → (check_next cron now sched next wf d).0 ≡ return tt
      → (due_next now (check_next cron now sched next wf d).1.next_run_at && runnable wf) ≡ false
  unfolding check_next
  check_next-next now sched none wf d e done =
      let later = store_first-next now sched d (cron.get_next sched.cron_expression now) refl in
      ground (arith, done, later)
  check_next-next now sched (some next) wf d e done =
      let later = trigger_due-next now sched wf d in
      ground (arith, done, later, ap (due_next now) e)

  check_locked-next :
      (now : ℕ) (sched : WorkflowSchedule) (wf : Option WorkflowDefinition) (d : Desk)
      → (check_locked cron now sched wf d).0 ≡ return tt
      → ((check_locked cron now sched wf d).1.is_active
          && due_next now (check_locked cron now sched wf d).1.next_run_at
          && runnable wf)
        ≡ false
  unfolding check_locked
  check_locked-next now sched wf d done =
      let later = check_next-next now sched sched.next_run_at wf d refl in
      ground (arith, done, later)

  store_trigger-workflow :
      (now : ℕ) (sched : WorkflowSchedule) (d : Desk) (r : Result ℕ)
      → (store_trigger now sched d r).1.workflow_id ≡ sched.workflow_id
  unfolding triggered
  store_trigger-workflow now sched d (raise e) = refl
  store_trigger-workflow now sched d (return next) = refl

  store_first-workflow :
      (sched : WorkflowSchedule) (d : Desk) (r : Result ℕ)
      → (store_first sched d r).1.workflow_id ≡ sched.workflow_id
  store_first-workflow sched d (raise e) = refl
  store_first-workflow sched d (return next) = refl

  trigger_due-workflow :
      (now : ℕ) (sched : WorkflowSchedule) (wf : Option WorkflowDefinition) (d : Desk)
      → (trigger_due cron now sched wf d).1.workflow_id ≡ sched.workflow_id
  unfolding trigger_due
  trigger_due-workflow now sched none d = refl
  trigger_due-workflow now sched (some wf) d =
      if-both (λ (r : Round). r.1.workflow_id ≡ sched.workflow_id) (not wf.is_active) refl
        (store_trigger-workflow now sched (enqueue sched d)
          (cron.get_next sched.cron_expression now))

  check_next-workflow :
      (now : ℕ) (sched : WorkflowSchedule) (next : Option ℕ) (wf : Option WorkflowDefinition)
      (d : Desk)
      → (check_next cron now sched next wf d).1.workflow_id ≡ sched.workflow_id
  unfolding check_next
  check_next-workflow now sched none wf d =
      store_first-workflow sched d (cron.get_next sched.cron_expression now)
  check_next-workflow now sched (some next) wf d =
      if-both (λ (r : Round). r.1.workflow_id ≡ sched.workflow_id) (ltb now next) refl
        (trigger_due-workflow now sched wf d)

  check_locked-workflow :
      (now : ℕ) (sched : WorkflowSchedule) (wf : Option WorkflowDefinition) (d : Desk)
      → (check_locked cron now sched wf d).1.workflow_id ≡ sched.workflow_id
  unfolding check_locked
  check_locked-workflow now sched wf d =
      if-both (λ (r : Round). r.1.workflow_id ≡ sched.workflow_id) (not sched.is_active) refl
        (check_next-workflow now sched sched.next_run_at wf d)

  -- A schedule whose round got the lock and ended without an exception is not due any more at that
  -- time, so that a second pass at the same time does not trigger it again.
  pub check_one-not_due :
      (workflows : List WorkflowDefinition) (now : ℕ) (sched : WorkflowSchedule) (d : Desk)
      → holds sched.id d.locks ≡ false
      → (check_one cron workflows now sched d).0 ≡ return tt
      → is_due workflows now (check_one cron workflows now sched d).1 ≡ false
  unfolding check_one
  check_one-not_due workflows now sched d free =
      let wf = find_row workflow_key sched.workflow_id workflows in
      let d' = record d { locks = sched.id ∷ d.locks } in
      let same = check_locked-workflow now sched wf d' in
      rw free λ done.
        ap
          (λ k.
            (check_locked cron now sched wf d').1.is_active
            && due_next now (check_locked cron now sched wf d').1.next_run_at
            && runnable (find_row workflow_key k workflows))
          same
        ∙ check_locked-next now sched wf d' done
