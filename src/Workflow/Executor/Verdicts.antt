-- ===== src/Workflow/Executor/Verdicts.antt =====
-- What a run and the attempts of a task (app/engine/executor.py) come to.
use python_backend_projects.Base.{
  ℕ, ◌+◌, ◌≤◌, ◌<◌, ◌⊎◌, ◌≡◌, Bool, false, Option, none, some, Result, return, raise, Exception,
  length, if◌then◌else◌,
}
use python_backend_projects.Base.Int.{ℤ}
use python_backend_projects.Base.Value.{Fields}
use python_backend_projects.Workflow.Retry.{RetryStrategy, exponential, overflow_error}
use python_backend_projects.Workflow.Models.{TaskStatus, TaskExecution}
use python_backend_projects.Workflow.Dag.{DagNode}
use python_backend_projects.Workflow.Tasks.{
  get_task_class, TaskClass, Outcome, finished, timed_out, crashed,
}
use python_backend_projects.Workflow.Executor.State.{Env, Session, find_task}
use python_backend_projects.Workflow.Executor.Attempts.{output_column, or_unknown, timeout_of}

-- The row holds the outcome of the handler: its verdict, and the output and the error of its result
-- or the message of a run that takes too long.
abbrev pub Holds : Outcome → TaskExecution → Bool → Type 0
Holds (finished result) after ok =
    (ok ≡ result.success)
    × (after.output_data ≡ output_column result.output)
    × (after.error ≡ (if ok then none else some (or_unknown result.error)))
Holds timed_out after ok = (ok ≡ false) × (after.error ≡ some "Task timed out")
Holds (crashed e) after ok = ⊥

-- So it does of a run of the task's handler with its configuration, this input and its limit of
-- time.
abbrev pub IsRecorded : Env → DagNode → Fields → TaskExecution → Bool → Type 0
IsRecorded env node input after ok =
    (n : ℕ) × (class : TaskClass) × (get_task_class node.task_type ≡ return class)
    × Holds (env.run_task n class node.config input (timeout_of node)) after ok

-- From `s` to `s'` the task's row became `te'`, all else of it but the columns of a run stayed.
pub record Ran (env : Env) (node : DagNode) (input : Fields) (te : TaskExecution) (s s' : Session)
    (ok : Bool) : Type 0 where
  pub after : TaskExecution
  pub found : find_task node.task_id s'.execution.task_executions ≡ some after
  pub recorded : IsRecorded env node input after ok
  pub same_attempt : after.attempt ≡ te.attempt
  pub same_max : after.max_attempts ≡ te.max_attempts
  pub verdict : after.status ≡ (if ok then TaskStatus.completed else TaskStatus.failed)
  pub same_status : s'.execution.status ≡ s.execution.status
  pub saved : s'.committed ≡ s'.execution
  pub no_sleep : s'.sleeps ≡ s.sleeps

-- Where an exception that passes on comes from: the task's type has no handler, or the handler, run
-- with the task's configuration, this input and its limit of time, raised it.
pub data Passed (env : Env) (node : DagNode) (input : Fields) (e : Exception) : Type 0 where
  no_handler : get_task_class node.task_type ≡ raise e → Passed env node input e
  handler_raised :
      (n : ℕ) (class : TaskClass)
      → get_task_class node.task_type ≡ return class
      → env.run_task n class node.config input (timeout_of node) ≡ crashed e
      → Passed env node input e

abbrev pub RanOr : Env → DagNode → Fields → TaskExecution → Session → Result Bool → Session → Type 0
RanOr env node input te s (return ok) s' = Ran env node input te s s' ok
RanOr env node input te s (raise e) s' = Passed env node input e

-- What a task's attempts have come to.
pub record Attempted (env : Env) (node : DagNode) (input : Fields) (te : TaskExecution)
    (s s' : Session) (ok : Bool) : Type 0 where
  pub after : TaskExecution
  pub found : find_task node.task_id s'.execution.task_executions ≡ some after
  pub recorded : IsRecorded env node input after ok
  pub same_max : after.max_attempts ≡ te.max_attempts
  pub attempts_bounded : after.attempt ≤ te.max_attempts
  pub verdict : after.status ≡ (if ok then TaskStatus.completed else TaskStatus.failed)
  pub exhausted : ok ≡ false → after.attempt ≡ te.max_attempts
  pub waits : length s'.sleeps + te.attempt ≡ length s.sleeps + after.attempt
  pub saved : s'.committed ≡ s'.execution

-- The wait after a failed attempt raised: the backoff is exponential and there are more than 1025
-- attempts.
abbrev pub Overflows : RetryStrategy → TaskExecution → Exception → Type 0
Overflows strategy te e =
    (e ≡ overflow_error)
    × (1025 < te.max_attempts)
    × ((base_delay : ℤ) × (max_delay : ℤ) × (jitter : Bool) × (strategy
          ≡ exponential base_delay max_delay jitter))

abbrev pub AttemptedOr :
    Env
    → RetryStrategy
    → DagNode
    → Fields
    → TaskExecution
    → Session
    → Result (Option Bool)
    → Session
    → Type 0
AttemptedOr env strategy node input te s (return (some ok)) s' = Attempted env node input te s s' ok
AttemptedOr env strategy node input te s (return none) s' = ⊥
AttemptedOr env strategy node input te s (raise e) s' =
    Passed env node input e ⊎ Overflows strategy te e
