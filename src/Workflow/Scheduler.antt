-- ===== src/Workflow/Scheduler.antt =====
-- app/engine/scheduler.py: `WorkflowScheduler.check_and_trigger`, one pass over the schedules. The
-- package croniter is not part of the repository and is a parameter. The locks (app/cache/
-- redis_client.py) are the keys that are set in Redis; that a key expires is not modelled.
pub mod Pass
pub mod Once
use python_backend_projects.Base.{
  ℕ, ◌+◌, ◌<◌, ◌≡◌, ◌<>◌, String, Bool, true, false, not, ◌||◌, Option, none, some, List, [], ◌∷◌,
  ◌++◌, Result, return, raise, Action, nat_eq, ltb, keep, if◌then◌else◌,
}
use python_backend_projects.Base.Value.{Fields, end}
use python_backend_projects.Base.Rows.{find_row}
use python_backend_projects.Workflow.Models.{WorkflowDefinition, WorkflowSchedule}
use python_backend_projects.Workflow.Services.{Message, trigger_scheduled_workflow, workflow_key}

-- `croniter(expression, base).get_next(datetime)`; a malformed expression raises.
pub record Croniter : Type 0 where
  pub get_next : (expression : String) (base : ℕ) → Result ℕ

-- The next time of a schedule lies after its base.
pub record IsCroniter (cron : Croniter) : Type 0 where
  pub later :
      (expression : String) (base next : ℕ)
      → cron.get_next expression base ≡ return next
      → base < next

-- What a pass works on: the held locks, by the schedule in their key, and the queue.
pub record Desk : Type 0 where
  pub locks : List ℕ
  pub queue : List Message

abbrev pub holds : ℕ → List ℕ → Bool
holds k [] = false
holds k (x ∷ xs) = nat_eq k x || holds k xs

-- `acquire_lock`: SET with NX succeeds if the key is not there.
abbrev pub acquire_lock : ℕ → Desk → Bool × Desk
acquire_lock k d = if holds k d.locks then (false, d) else (true, record d { locks = k ∷ d.locks })

-- `release_lock`: DEL
abbrev pub release_lock : ℕ → Desk → Desk
release_lock k d = record d { locks = keep (λ x. not (nat_eq k x)) d.locks }

-- what `.get_next` gives for the schedule's expression, and the columns it is stored in
abbrev pub set_next : WorkflowSchedule → ℕ → WorkflowSchedule
set_next sched next = record sched { next_run_at = some next }

abbrev pub or_empty : Option Fields → Fields
or_empty none = end
or_empty (some f) = f

-- the columns of a schedule that has been triggered
unfoldable pub triggered : ℕ → WorkflowSchedule → ℕ → WorkflowSchedule
triggered now sched next = record sched {
  last_run_at = some now;
  total_runs = sched.total_runs + 1;
  next_run_at = some next;
}

-- the message to the worker
abbrev pub trigger_message : WorkflowSchedule → Message
trigger_message sched =
    trigger_scheduled_workflow sched.workflow_id sched.id (or_empty sched.input_data)

abbrev pub enqueue : WorkflowSchedule → Desk → Desk
enqueue sched d = record d { queue = d.queue ++ (trigger_message sched ∷ []) }

-- The outcome of one round of the loop: how it ended, the schedule's row as it is committed, and
-- the desk. The assignments that an exception cuts off from their commit are lost.
abbrev pub Round : Type 0
Round = Result (Unit {0}) × WorkflowSchedule × Desk

-- the end of a round that triggers: the message is sent before the next time is computed
abbrev pub store_trigger : ℕ → WorkflowSchedule → Desk → Result ℕ → Round
store_trigger now sched d (raise e) = (raise e, sched, d)
store_trigger now sched d (return next) = (return tt, triggered now sched next, d)

-- a first `next_run_at`, for a schedule without one
abbrev pub store_first : WorkflowSchedule → Desk → Result ℕ → Round
store_first sched d (raise e) = (raise e, sched, d)
store_first sched d (return next) = (return tt, set_next sched next, d)

module _ (cron : Croniter) where
  -- a schedule that is due, by its workflow
  unfoldable pub trigger_due : ℕ → WorkflowSchedule → Option WorkflowDefinition → Desk → Round
  trigger_due now sched none d = (return tt, sched, d)
  trigger_due now sched (some wf) d =
      if not wf.is_active
      then (return tt, sched, d)
      else store_trigger now sched (enqueue sched d) (cron.get_next sched.cron_expression now)

  -- an active schedule, by its `next_run_at`
  unfoldable pub check_next :
      ℕ → WorkflowSchedule → Option ℕ → Option WorkflowDefinition → Desk → Round
  check_next now sched none wf d = store_first sched d (cron.get_next sched.cron_expression now)
  check_next now sched (some next) wf d =
      if ltb now next then (return tt, sched, d) else trigger_due now sched wf d

  -- the body of the `try`
  unfoldable pub check_locked : ℕ → WorkflowSchedule → Option WorkflowDefinition → Desk → Round
  check_locked now sched wf d =
      if not sched.is_active
      then (return tt, sched, d)
      else check_next now sched sched.next_run_at wf d

  -- `finally: await self._redis.release_lock(lock_key)`
  abbrev pub finally_release : ℕ → Round → Round
  finally_release k (r, sched, d) = (r, sched, release_lock k d)

  -- One round of the loop. `sched` is the row as the refresh reads it.
  unfoldable pub check_one : List WorkflowDefinition → ℕ → WorkflowSchedule → Desk → Round
  check_one workflows now sched d =
      let wf = find_row workflow_key sched.workflow_id workflows in
      let (acquired, d') = acquire_lock sched.id d in
      if not acquired
      then (return tt, sched, d)
      else finally_release sched.id (check_locked now sched wf d')

  -- the rounds after one that ended so
  abbrev pub after_round :
      Result (Unit {0})
      → WorkflowSchedule
      → List WorkflowSchedule
      → (Result (Unit {0}) × List WorkflowSchedule × Desk)
      → Desk
      → Result (Unit {0}) × List WorkflowSchedule × Desk
  after_round (raise e) sched rest more d = (raise e, sched ∷ rest, d)
  after_round (return _) sched rest more d = (more.0, sched ∷ more.1, more.2)

  -- The pass. The query gives the active schedules; an exception ends it.
  unfoldable pub check_and_trigger :
      List WorkflowDefinition
      → ℕ
      → List WorkflowSchedule
      → Desk
      → Result (Unit {0}) × List WorkflowSchedule × Desk
  check_and_trigger workflows now [] d = (return tt, [], d)
  check_and_trigger workflows now (sched ∷ rest) d =
      let (r, sched', d') = check_one workflows now sched d in
      let skipped = check_and_trigger workflows now rest d in
      let more = check_and_trigger workflows now rest d' in
      if not sched.is_active
      then (skipped.0, sched ∷ skipped.1, skipped.2)
      else after_round r sched' rest more d'
