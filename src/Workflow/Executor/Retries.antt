-- ===== src/Workflow/Executor/Retries.antt =====
-- What the attempts of a task do to its row (app/engine/executor.py).

use python_backend_projects.Base.{
  ℕ, String, ◌≡◌, refl, Bool, true, false, none, some, List, [], ◌∷◌, Result, return, raise,
  Exception, ◌∙◌, arith, if◌then◌else◌,
}
use python_backend_projects.Base.Int.{ℤ}
use python_backend_projects.Base.Value.{Fields}
use python_backend_projects.Workflow.Models.{TaskStatus, TaskExecution}
use python_backend_projects.Workflow.Dag.{DagNode}
use python_backend_projects.Workflow.Tasks.{
  get_task_class, TaskClass, TaskResult, Outcome, finished, timed_out, crashed,
}
use python_backend_projects.Workflow.Executor.State.{
  Env, Session, Event, task_failed, task_completed, update_first, find_task, tick,
}
use python_backend_projects.Workflow.Executor.Attempts.{
  settle, finish_run, milliseconds, output_column, or_unknown, timeout_of, timed_out_task,
  completed_task, failed_task, record_outcome, start_task, run_handler, execute_task_once,
}
use python_backend_projects.Workflow.Executor.Verdicts.{
  IsRecorded, Holds, Ran, Passed, no_handler, handler_raised, RanOr,
}

pub find-update_first :
    (task : String) (f : TaskExecution → TaskExecution) (l : List TaskExecution)
    (te : TaskExecution)
    → find_task task l ≡ some te
    → ((t : TaskExecution) → (f t).task_definition_id ≡ t.task_definition_id)
    → find_task task (update_first task f l) ≡ some (f te)
find-update_first task f [] te h keeps = cc
find-update_first task f (t ∷ l) te h keeps = ground (arith, keeps t, find-update_first task f l te)

module _ (env : Env) (node : DagNode) (input : Fields) (te : TaskExecution) (s : Session)
    (found : find_task node.task_id s.execution.task_executions ≡ some te) where
  settle-Ran :
      (f : TaskExecution → TaskExecution) (event : Event) (ok : Bool)
      → ((t : TaskExecution)
          → ((f t).task_definition_id ≡ t.task_definition_id)
            × ((f t).attempt ≡ t.attempt)
            × ((f t).max_attempts ≡ t.max_attempts)
            × ((f t).status ≡ (if ok then TaskStatus.completed else TaskStatus.failed)))
      → IsRecorded env node input (f te) ok
      → Ran env node input te s (settle node f event ok s).1 ok
  unfolding settle
  settle-Ran f event ok keeps recorded = record {
    after = f te;
    found =
        find-update_first node.task_id f s.execution.task_executions te found (λ t. (keeps t).0);
    recorded = recorded;
    same_attempt = (keeps te).1;
    same_max = (keeps te).2;
    verdict = (keeps te).3;
    same_status = refl;
    saved = refl;
    no_sleep = refl;
  }

Ran-from :
    (env : Env) (node : DagNode) (input : Fields) (te te' : TaskExecution) (s s' after : Session)
    (ok : Bool)
    → te'.attempt ≡ te.attempt
    → te'.max_attempts ≡ te.max_attempts
    → s'.execution.status ≡ s.execution.status
    → s'.sleeps ≡ s.sleeps
    → Ran env node input te' s' after ok
    → Ran env node input te s after ok
Ran-from env node input te te' s s' after ok a m st sl r = record {
  after = r.after;
  found = r.found;
  recorded = r.recorded;
  same_attempt = r.same_attempt ∙ a;
  same_max = r.same_max ∙ m;
  verdict = r.verdict;
  same_status = r.same_status ∙ st;
  saved = r.saved;
  no_sleep = r.no_sleep ∙ sl;
}

RanOr-from :
    (env : Env) (node : DagNode) (input : Fields) (te te' : TaskExecution) (s s' after : Session)
    (r : Result Bool)
    → te'.attempt ≡ te.attempt
    → te'.max_attempts ≡ te.max_attempts
    → s'.execution.status ≡ s.execution.status
    → s'.sleeps ≡ s.sleeps
    → RanOr env node input te' s' r after
    → RanOr env node input te s r after
RanOr-from env node input te te' s s' after (return ok) a m st sl r =
    Ran-from env node input te te' s s' after ok a m st sl r
RanOr-from env node input te te' s s' after (raise e) a m st sl r = r

-- Reading the clock changes nothing of a run.
Ran-tick :
    (env : Env) (node : DagNode) (input : Fields) (te : TaskExecution) (s : Session)
    (r : Result Bool) (after : Session)
    → RanOr env node input te (tick s) r after
    → RanOr env node input te s r after
Ran-tick env node input te s r after h =
    RanOr-from env node input te te s (tick s) after r refl refl refl refl h

settle-RanOr :
    (env : Env) (node : DagNode) (input : Fields) (te : TaskExecution) (s : Session)
    → find_task node.task_id s.execution.task_executions ≡ some te
    → (f : TaskExecution → TaskExecution) (event : Event) (ok : Bool)
    → ((t : TaskExecution)
        → ((f t).task_definition_id ≡ t.task_definition_id)
          × ((f t).attempt ≡ t.attempt)
          × ((f t).max_attempts ≡ t.max_attempts)
          × ((f t).status ≡ (if ok then TaskStatus.completed else TaskStatus.failed)))
    → IsRecorded env node input (f te) ok
    → RanOr env node input te s (settle node f event ok s).0 (settle node f event ok s).1
unfolding settle
settle-RanOr env node input te s found f event ok keeps =
    settle-Ran env node input te s found f event ok keeps

finish_run-RanOr :
    (env : Env) (node : DagNode) (input : Fields) (te : TaskExecution) (s : Session) (now : ℕ)
    (duration : ℤ) (result : TaskResult) (success : Bool)
    → ((after : TaskExecution)
        → (after.output_data ≡ output_column result.output)
          × (after.error ≡ (if success then none else some (or_unknown result.error)))
        → IsRecorded env node input after success)
    → find_task node.task_id s.execution.task_executions ≡ some te
    → RanOr env node input te s
        (finish_run node now duration result success s).0
        (finish_run node now duration result success s).1
unfolding finish_run
finish_run-RanOr env node input te s now duration result true holds found =
    settle-Ran env node input te s found (completed_task now duration result)
      (task_completed s.execution.id node.task_id) true (λ t. (refl, refl, refl, refl))
      (holds _ (refl, refl))
finish_run-RanOr env node input te s now duration result false holds found =
    settle-Ran env node input te s found (failed_task now duration result)
      (task_failed s.execution.id node.task_id (some (or_unknown result.error))) false
      (λ t. (refl, refl, refl, refl)) (holds _ (refl, refl))

record_outcome-RanOr :
    (env : Env) (node : DagNode) (input : Fields) (te : TaskExecution) (s : Session) (started : ℕ)
    (o : Outcome)
    → ((e : Exception) → o ≡ crashed e → Passed env node input e)
    → ((after : TaskExecution) (ok : Bool) → Holds o after ok → IsRecorded env node input after ok)
    → find_task node.task_id s.execution.task_executions ≡ some te
    → RanOr env node input te s
        (record_outcome env node started o s).0
        (record_outcome env node started o s).1
unfolding record_outcome
record_outcome-RanOr env node input te s started (crashed e) came holds found = came e refl
record_outcome-RanOr env node input te s started timed_out came holds found =
    Ran-tick env node input te s (return false) _ (
      settle-RanOr env node input te (tick s) found (timed_out_task node (env.now s.ticks))
        (task_failed s.execution.id node.task_id (some "Task timed out")) false
        (λ t. (refl, refl, refl, refl)) (holds _ false (refl, refl)))
record_outcome-RanOr env node input te s started (finished result) came holds found =
    let now = env.now s.ticks in
    Ran-tick env node input te s _ _ (
      finish_run-RanOr env node input te (tick s) now (milliseconds started now) result
        result.success (λ after h. holds after result.success (refl, h.0, h.1)) found)

start_task-found :
    (env : Env) (node : DagNode) (te : TaskExecution) (s : Session)
    → find_task node.task_id s.execution.task_executions ≡ some te
    → find_task node.task_id (start_task env node s).1.execution.task_executions
      ≡ some (record te {
        status = TaskStatus.running;
        started_at = some (env.now s.ticks);
        error = none;
      })
unfolding start_task
start_task-found env node te s found =
    find-update_first node.task_id
      (λ t. record t {
        status = TaskStatus.running;
        started_at = some (env.now s.ticks);
        error = none;
      })
      s.execution.task_executions te found (λ t. refl)

start_task-status :
    (env : Env) (node : DagNode) (s : Session)
    → (start_task env node s).1.execution.status ≡ s.execution.status
unfolding start_task
start_task-status env node s = refl

start_task-sleeps :
    (env : Env) (node : DagNode) (s : Session) → (start_task env node s).1.sleeps ≡ s.sleeps
unfolding start_task
start_task-sleeps env node s = refl

run_handler-RanOr :
    (env : Env) (node : DagNode) (input : Fields) (te : TaskExecution) (s : Session)
    (class : Result TaskClass)
    → get_task_class node.task_type ≡ class
    → find_task node.task_id s.execution.task_executions ≡ some te
    → RanOr env node input te s
        (run_handler env node input class s).0
        (run_handler env node input class s).1
unfolding run_handler
run_handler-RanOr env node input te s (raise e) known found = no_handler known
run_handler-RanOr env node input te s (return class) known found =
    let started = (start_task env node s).1 in
    RanOr-from env node input te
      (record te { status = TaskStatus.running; started_at = some (env.now s.ticks); error = none })
      s started _ _ refl refl (start_task-status env node s) (start_task-sleeps env node s)
      (Ran-tick env node input _ started _ _ (
        record_outcome-RanOr env node input _ (tick started) (env.now s.ticks)
          (env.run_task started.ticks class node.config input (timeout_of node))
          (λ e crash. handler_raised started.ticks class known crash)
          (λ after ok h. (started.ticks, class, known, h)) (start_task-found env node te s found)))

-- One run of a task that has a row: the row ends completed or failed by the verdict, which is that
-- of the handler's result; it holds the output of that result, and no error after a success, the
-- error of the result or "Unknown error" after a failure; a run that takes too long ends failed
-- with its message. The attempt count stays, and the row is committed. An exception passes on only
-- if the task's type has no handler or its handler raised that exception.
pub execute_task_once-RanOr :
    (env : Env) (node : DagNode) (input : Fields) (te : TaskExecution) (s : Session)
    → find_task node.task_id s.execution.task_executions ≡ some te
    → RanOr env node input te s
        (execute_task_once env node input s).0
        (execute_task_once env node input s).1
unfolding execute_task_once
execute_task_once-RanOr env node input te s found =
    run_handler-RanOr env node input te s (get_task_class node.task_type) refl found
