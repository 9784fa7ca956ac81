-- ===== src/Workflow/Executor/Loop.antt =====
-- The loop over the attempts of a task (app/engine/executor.py) ends within its rounds.
use mathlib.Core.Option
use python_backend_projects.Base.{
  ℕ, zero, suc, ◌+◌, ◌-◌, ◌≤◌, ◌<◌, String, ◌≡◌, ◌≢◌, refl, sym, ◌∙◌, ap, Bool, true, false, Option,
  none, some, [], ◌∷◌, Result, return, raise, Bool-cases, inl, inr, arith, length, length-append,
  leb, ==-ne,
}
use python_backend_projects.Base.Value.{Fields}
use python_backend_projects.Workflow.StateMachine.{ExecutionState, value}
use python_backend_projects.Base.Int.{ℤ}
use python_backend_projects.Workflow.Retry.{RetryStrategy, get_retry_strategy, dump, get_delay}
use python_backend_projects.Workflow.Retry.Delays.{get_delay_raises}
use python_backend_projects.Workflow.Models.{TaskStatus, TaskExecution}
use python_backend_projects.Workflow.Dag.{DagNode}
use python_backend_projects.Workflow.Executor.State.{Env, Session, Step, find_task, tick}
use python_backend_projects.Workflow.Executor.Attempts.{
  attempt_of, max_attempts_in, execute_task_once, wait_and_prepare, prepare_retry, next_round,
  after_once, retry_rounds, execute_task_with_retries,
}
use python_backend_projects.Workflow.Executor.Retries.{find-update_first, execute_task_once-RanOr}
use python_backend_projects.Workflow.Executor.Verdicts.{Ran, RanOr, Attempted, AttemptedOr}

abbrev cancelled_value : String
cancelled_value = value ExecutionState.cancelled

-- the row as the wait before the next attempt leaves it
abbrev next_attempt : TaskExecution → TaskExecution
next_attempt te = record te { attempt = te.attempt + 1; status = TaskStatus.pending }

record Prepared (node : DagNode) (te : TaskExecution) (s s' : Session) : Type 0 where
  found : find_task node.task_id s'.execution.task_executions ≡ some (next_attempt te)
  same_status : s'.execution.status ≡ s.execution.status
  one_sleep : length s'.sleeps ≡ length s.sleeps + 1

wait_and_prepare-Prepared :
    (node : DagNode) (te : TaskExecution) (s : Session) (delay : ℤ)
    → find_task node.task_id s.execution.task_executions ≡ some te
    → Prepared node te s (wait_and_prepare node (return delay) (tick s)).1
unfolding wait_and_prepare
wait_and_prepare-Prepared node te s delay found = record {
  found =
      find-update_first node.task_id next_attempt s.execution.task_executions te found (λ t. refl);
  same_status = refl;
  one_sleep = length-append s.sleeps (delay ∷ []);
}

-- the loop from there on, as an induction hypothesis
abbrev Loops : Env → RetryStrategy → Step (Option Bool) → DagNode → Fields → ℕ → Type 0
Loops env strategy again node input rounds =
    (te : TaskExecution) (s : Session)
    → find_task node.task_id s.execution.task_executions ≡ some te
    → te.attempt ≤ te.max_attempts
    → s.execution.status ≢ cancelled_value
    → te.max_attempts < te.attempt + rounds
    → AttemptedOr env strategy node input te s (again s).0 (again s).1

AttemptedOr-from :
    (env : Env) (strategy : RetryStrategy) (node : DagNode) (input : Fields)
    (te te' : TaskExecution) (s s' after : Session) (r : Result (Option Bool))
    → te'.max_attempts ≡ te.max_attempts
    → length s'.sleeps + te.attempt ≡ length s.sleeps + te'.attempt
    → AttemptedOr env strategy node input te' s' r after
    → AttemptedOr env strategy node input te s r after
AttemptedOr-from env strategy node input te te' s s' after (raise e) same waited (inl passed) =
    inl passed
AttemptedOr-from env strategy node input te te' s s' after (raise e) same waited (inr late) =
    inr (late.0, omega (arith, same, late.1), late.2)
AttemptedOr-from env strategy node input te te' s s' after (return none) same waited h = h
AttemptedOr-from env strategy node input te te' s s' after (return (some ok)) same waited h =
    record {
      after = h.after;
      found = h.found;
      recorded = h.recorded;
      same_max = h.same_max ∙ same;
      attempts_bounded = omega (arith, same, h.attempts_bounded);
      verdict = h.verdict;
      exhausted = λ lost. h.exhausted lost ∙ same;
      waits = omega (arith, waited, h.waits);
      saved = h.saved;
    }

attempt_of-found :
    (task : String) (te : TaskExecution) (s : Session)
    → find_task task s.execution.task_executions ≡ some te
    → attempt_of task s ≡ te.attempt
unfolding attempt_of
attempt_of-found task te s found = rw (found, attempt_of)

max_attempts_in-found :
    (task : String) (te : TaskExecution) (s : Session)
    → find_task task s.execution.task_executions ≡ some te
    → max_attempts_in task s ≡ te.max_attempts
unfolding max_attempts_in
max_attempts_in-found task te s found = rw (found, max_attempts_in)

-- A failed attempt that was the last one.
stops :
    (env : Env) (node : DagNode) (input : Fields) (te : TaskExecution) (s s' : Session)
    (ran : Ran env node input te s s' false)
    → te.attempt ≤ te.max_attempts
    → ran.after.max_attempts ≤ ran.after.attempt
    → Attempted env node input te s s' false
stops env node input te s s' ran le last = record {
  after = ran.after;
  found = ran.found;
  recorded = ran.recorded;
  same_max = ran.same_max;
  attempts_bounded = omega (arith, ran.same_attempt, le);
  verdict = ran.verdict;
  exhausted = λ _. omega (arith, ran.same_attempt, ran.same_max, last, le);
  waits = omega (arith, ran.same_attempt, ap length ran.no_sleep);
  saved = ran.saved;
}

-- A failed attempt with one more to come.
after_wait :
    (again : Step (Option Bool)) (rounds : ℕ) (env : Env) (strategy : RetryStrategy)
    (node : DagNode) (input : Fields) (te : TaskExecution) (s s' : Session)
    (ran : Ran env node input te s s' false) (random : ℕ) (delay : Result ℤ)
    → get_delay strategy random ran.after.attempt ≡ delay
    → Loops env strategy again node input rounds
    → s.execution.status ≢ cancelled_value
    → te.max_attempts < te.attempt + suc rounds
    → ran.after.attempt < ran.after.max_attempts
    → let next = next_round again (wait_and_prepare node delay (tick s')) in
      AttemptedOr env strategy node input te s next.0 next.1
unfolding wait_and_prepare
after_wait again rounds env strategy node input te s s' ran random (raise e) known ih live enough
      more =
    let (same, late, is_exponential) = get_delay_raises strategy random ran.after.attempt e known in
    inr (same, omega (arith, late, more, ran.same_max), is_exponential)
after_wait again rounds env strategy node input te s s' ran random (return delay) known ih live
      enough more =
    let prepared = wait_and_prepare-Prepared node ran.after s' delay ran.found in
    let next = (wait_and_prepare node (return delay) (tick s')).1 in
    AttemptedOr-from env strategy node input te (next_attempt ran.after) s next _ _ ran.same_max
      (omega (arith, prepared.one_sleep, ap length ran.no_sleep, ran.same_attempt))
      (ih (next_attempt ran.after) next prepared.found (omega (arith, more))
        (λ e. live (sym (prepared.same_status ∙ ran.same_status) ∙ e))
        (omega (arith, ran.same_attempt, ran.same_max, enough)))

goes_on :
    (again : Step (Option Bool)) (rounds : ℕ) (env : Env) (strategy : RetryStrategy)
    (node : DagNode) (input : Fields) (te : TaskExecution) (s s' : Session)
    (ran : Ran env node input te s s' false)
    → Loops env strategy again node input rounds
    → s.execution.status ≢ cancelled_value
    → te.max_attempts < te.attempt + suc rounds
    → ran.after.attempt < ran.after.max_attempts
    → let next = next_round again (prepare_retry env strategy node s') in
      AttemptedOr env strategy node input te s next.0 next.1
unfolding prepare_retry
goes_on again rounds env strategy node input te s s' ran ih live enough more =
    let att = attempt_of-found node.task_id ran.after s' ran.found in
    after_wait again rounds env strategy node input te s s' ran (env.random s'.ticks) _
      (ap (get_delay strategy (env.random s'.ticks)) (sym att)) ih live enough more

after_failure :
    (again : Step (Option Bool)) (rounds : ℕ) (env : Env) (strategy : RetryStrategy)
    (node : DagNode) (input : Fields) (te : TaskExecution) (s s' : Session)
    → Loops env strategy again node input rounds
    → te.attempt ≤ te.max_attempts
    → s.execution.status ≢ cancelled_value
    → te.max_attempts < te.attempt + suc rounds
    → Ran env node input te s s' false
    → AttemptedOr env strategy node input te s
        (after_once again env strategy node (return false) s').0
        (after_once again env strategy node (return false) s').1
unfolding after_once
after_failure again rounds env strategy node input te s s' ih le live enough ran =
    let att = attempt_of-found node.task_id ran.after s' ran.found in
    let top = max_attempts_in-found node.task_id ran.after s' ran.found in
    elim (Bool-cases (leb (max_attempts_in node.task_id s') (attempt_of node.task_id s'))) [
      | inl last ↦ rw last (stops env node input te s s' ran le (ground (arith, last, att, top)))
      | inr more ↦ rw more (
          goes_on again rounds env strategy node input te s s' ran ih live enough
            (ground (arith, more, att, top)))
    ]

after_once-AttemptedOr :
    (again : Step (Option Bool)) (rounds : ℕ) (env : Env) (strategy : RetryStrategy)
    (node : DagNode) (input : Fields) (te : TaskExecution) (s s' : Session) (ok : Result Bool)
    → Loops env strategy again node input rounds
    → te.attempt ≤ te.max_attempts
    → s.execution.status ≢ cancelled_value
    → te.max_attempts < te.attempt + suc rounds
    → RanOr env node input te s ok s'
    → AttemptedOr env strategy node input te s
        (after_once again env strategy node ok s').0
        (after_once again env strategy node ok s').1
unfolding after_once
after_once-AttemptedOr again rounds env strategy node input te s s' (raise e) ih le live enough
      ran =
    inl ran
after_once-AttemptedOr again rounds env strategy node input te s s' (return true) ih le live enough
      ran =
    record {
      after = ran.after;
      found = ran.found;
      recorded = ran.recorded;
      same_max = ran.same_max;
      attempts_bounded = omega (arith, ran.same_attempt, le);
      verdict = ran.verdict;
      exhausted = λ lost. absurd (cc);
      waits = omega (arith, ran.same_attempt, ap length ran.no_sleep);
      saved = ran.saved;
    }
after_once-AttemptedOr again rounds env strategy node input te s s' (return false) ih le live enough
      ran =
    after_failure again rounds env strategy node input te s s' ih le live enough ran

-- A loop with rounds for all the attempts that are left ends by itself.
retry_rounds-AttemptedOr :
    (rounds : ℕ) (env : Env) (strategy : RetryStrategy) (node : DagNode) (input : Fields)
    → Loops env strategy (retry_rounds rounds env strategy node input) node input rounds
unfolding retry_rounds
retry_rounds-AttemptedOr zero env strategy node input te s found le live enough =
    absurd (omega arith)
retry_rounds-AttemptedOr (suc rounds) env strategy node input te s found le live enough =
    let att = attempt_of-found node.task_id te s found in
    let top = max_attempts_in-found node.task_id te s found in
    let within : leb (attempt_of node.task_id s) (max_attempts_in node.task_id s) ≡ true =
      ground (arith, att, top, le) in
    rw (within, ==-ne s.execution.status cancelled_value live)
      (after_once-AttemptedOr (retry_rounds rounds env strategy node input) rounds env strategy node
        input te s (execute_task_once env node input s).1 (execute_task_once env node input s).0
        (retry_rounds-AttemptedOr rounds env strategy node input) le live enough
        (execute_task_once-RanOr env node input te s found))

-- A task that has a row with attempts left, in an execution that is not cancelled, is run until it
-- completes or its attempts are used up: the loop ends, no run is made beyond the maximum, there is
-- one wait between two runs, and the row is committed as completed or failed by the verdict, with
-- the output and the error of a result of the handler, or failed as timed out. An exception passes
-- on only if the task's type has no handler, or its handler raised that exception, or it is the
-- OverflowError of an exponential backoff of a task with more than 1025 attempts.
pub execute_task_with_retries-AttemptedOr :
    (env : Env) (node : DagNode) (input : Fields) (te : TaskExecution) (s : Session)
    → find_task node.task_id s.execution.task_executions ≡ some te
    → te.attempt ≤ te.max_attempts
    → s.execution.status ≢ value ExecutionState.cancelled
    → AttemptedOr env
        (get_retry_strategy (Option.map dump node.retry_config))
        node
        input
        te
        s
        (execute_task_with_retries env node input s).0
        (execute_task_with_retries env node input s).1
unfolding execute_task_with_retries
execute_task_with_retries-AttemptedOr env node input te s found le live =
    let att = attempt_of-found node.task_id te s found in
    let top = max_attempts_in-found node.task_id te s found in
    retry_rounds-AttemptedOr (suc (max_attempts_in node.task_id s - attempt_of node.task_id s)) env
      (get_retry_strategy (Option.map dump node.retry_config)) node input te s found le live
      (omega (arith, att, top, le))
