-- ===== src/Workflow/Executor/Attempts.antt =====
-- app/engine/executor.py: `_get_or_create_task_execution`, `_execute_task_once`,
-- `_execute_task_with_retries` and `_normalize_output`.
use mathlib.Core.Option
use python_backend_projects.Base.{
  ℕ, zero, suc, ◌+◌, ◌-◌, ◌/◌, String, Bool, true, false, not, Option, none, some, [], ◌∷◌, ◌++◌,
  Result, return, raise, pure, ◌>>◌, ◌==◌, leb, if◌then◌else◌,
}
use python_backend_projects.Base.Int.{at_least_one, ℤ, pos, negsuc, ◌*ℤ◌}
use python_backend_projects.Base.Value.{Value, text, null, Fields}
use python_backend_projects.Workflow.StateMachine.{ExecutionState, value}
use python_backend_projects.Workflow.Retry.{get_retry_strategy, get_delay, dump, RetryStrategy}
use python_backend_projects.Workflow.Models.{TaskStatus, TaskExecution}
use python_backend_projects.Workflow.Dag.{DagNode}
use python_backend_projects.Workflow.Tasks.{
  TaskClass, get_task_class, Output, json, model, opaque, TaskResult, Outcome, finished, timed_out,
  crashed,
}
use python_backend_projects.Workflow.Executor.State.{
  Env, Session, Step, Event, task_running, task_completed, task_failed, commit, broadcast, tick,
  update_task, find_task, sleep,
}

-- settings.MAX_RETRY_ATTEMPTS and settings.TASK_DEFAULT_TIMEOUT, as app/config.py sets them
abbrev pub max_retry_attempts : ℤ
max_retry_attempts = pos 3

abbrev pub task_default_timeout : ℤ
task_default_timeout = pos 300

abbrev pub max_attempts_of : DagNode → ℕ
max_attempts_of node = elim node.retry_config [
  | none ↦ at_least_one max_retry_attempts
  | some config ↦ at_least_one config.max_attempts
]

abbrev pub new_task_execution : Env → Session → DagNode → TaskExecution
new_task_execution env s node = record {
  id = env.new_id s.ticks;
  execution_id = s.execution.id;
  task_definition_id = node.task_id;
  task_name = node.task_name;
  task_type = node.task_type;
  status = TaskStatus.pending;
  input_data = none;
  output_data = none;
  error = none;
  attempt = 1;
  max_attempts = max_attempts_of node;
  started_at = none;
  completed_at = none;
  duration_ms = none;
  created_at = env.now s.ticks;
}

-- The returned object is the one of the list that has the node's id. The row that is flushed here
-- is committed with the next commit.
unfoldable pub get_or_create_task_execution : Env → DagNode → Step TaskExecution
get_or_create_task_execution env node s =
    elim (find_task node.task_id s.execution.task_executions) [
      | some te ↦ (return te, s)
      | none ↦
          let te = new_task_execution env s node in
          let ex = s.execution in
          (
            return te,
            tick (record s {
              execution = record ex { task_executions = ex.task_executions ++ (te ∷ []) };
            }),
          )
    ]

unfoldable pub normalize_output : Output → Value
normalize_output (json v) = v
normalize_output (model v) = v
normalize_output (opaque s) = text s

-- a JSON column: None is NULL
abbrev pub to_column : Value → Option Value
to_column null = none
to_column v = some v

abbrev pub output_column : Option Output → Option Value
output_column none = none
output_column (some o) = to_column (normalize_output o)

-- `int((b - a).total_seconds() * 1000)` of two times in microseconds, cut toward zero
abbrev pub milliseconds : ℕ → ℕ → ℤ
milliseconds a b = if leb a b then pos ((b - a) / 1000) else minus ((a - b) / 1000)
  where
    minus : ℕ → ℤ
    minus zero = pos 0
    minus (suc n) = negsuc n

-- `node.timeout_seconds or settings.TASK_DEFAULT_TIMEOUT`
abbrev pub timeout_of : DagNode → ℤ
timeout_of node = elim node.timeout_seconds [ pos zero ↦ task_default_timeout | other ↦ other ]

abbrev pub or_unknown : Option String → String
or_unknown none = "Unknown error"
or_unknown (some e) = if e == "" then "Unknown error" else e

-- The end that every way of running has: assignments to the task, a commit, an event, the verdict.
unfoldable pub settle : DagNode → (TaskExecution → TaskExecution) → Event → Bool → Step Bool
settle node f event ok = do update_task node.task_id f; commit; broadcast event; pure ok

unfoldable pub timed_out_task : DagNode → (now : ℕ) → TaskExecution → TaskExecution
unfolding ◌*ℤ◌
timed_out_task node now te = record te {
  status = TaskStatus.failed;
  error = some "Task timed out";
  completed_at = some now;
  duration_ms = some (timeout_of node *ℤ 1000);
}

unfoldable pub completed_task :
    (now : ℕ) → (duration : ℤ) → TaskResult → TaskExecution → TaskExecution
unfolding normalize_output
completed_task now duration result te = record te {
  status = TaskStatus.completed;
  output_data = output_column result.output;
  error = none;
  completed_at = some now;
  duration_ms = some duration;
}

unfoldable pub failed_task : (now : ℕ) → (duration : ℤ) → TaskResult → TaskExecution → TaskExecution
unfolding normalize_output
failed_task now duration result te = record te {
  status = TaskStatus.failed;
  error = some (or_unknown result.error);
  output_data = output_column result.output;
  completed_at = some now;
  duration_ms = some duration;
}

-- what follows a handler that returned, by `result.success`
unfoldable pub finish_run : DagNode → (now : ℕ) → (duration : ℤ) → TaskResult → Bool → Step Bool
unfolding settle completed_task failed_task
finish_run node now duration result true s =
    settle node (completed_task now duration result) (task_completed s.execution.id node.task_id)
      true s
finish_run node now duration result false s =
    settle node (failed_task now duration result)
      (task_failed s.execution.id node.task_id (some (or_unknown result.error))) false s

-- what follows the handler's run, by how it ended; an exception but the timeout passes on
unfoldable pub record_outcome : Env → DagNode → (started : ℕ) → Outcome → Step Bool
unfolding finish_run settle timed_out_task
record_outcome env node started (crashed e) s = (raise e, s)
record_outcome env node started timed_out s =
    settle node (timed_out_task node (env.now s.ticks))
      (task_failed s.execution.id node.task_id (some "Task timed out")) false (tick s)
record_outcome env node started (finished result) s =
    finish_run node (env.now s.ticks) (milliseconds started (env.now s.ticks)) result result.success
      (tick s)

-- the `attempt` that the event reports
unfoldable pub attempt_of : String → Session → ℕ
attempt_of task s = elim (find_task task s.execution.task_executions) [
  | none ↦ 1
  | some te ↦ te.attempt
]

-- the task as it stands before its handler runs
unfoldable pub start_task : Env → DagNode → Step (Unit {0})
start_task env node s =
    (do
      update_task node.task_id λ te. record te {
        status = TaskStatus.running;
        started_at = some (env.now s.ticks);
        error = none;
      }
      commit
      broadcast (task_running s.execution.id node.task_id (attempt_of node.task_id s)))
      (tick s)

-- `_execute_task_once` once the handler's class is looked up; an unknown type raises before
-- anything is written
unfoldable pub run_handler : Env → DagNode → Fields → Result TaskClass → Step Bool
unfolding start_task record_outcome
run_handler env node merged_input (raise e) s = (raise e, s)
run_handler env node merged_input (return class) s =
    let started = (start_task env node s).1 in
    record_outcome env node (env.now s.ticks)
      (env.run_task started.ticks class node.config merged_input (timeout_of node)) (tick started)

unfoldable pub execute_task_once : Env → DagNode → Fields → Step Bool
unfolding get_task_class run_handler
execute_task_once env node merged_input =
    run_handler env node merged_input (get_task_class node.task_type)

unfoldable pub max_attempts_in : String → Session → ℕ
max_attempts_in task s = elim (find_task task s.execution.task_executions) [
  | none ↦ 0
  | some te ↦ te.max_attempts
]

-- the wait that the strategy gives, and the next attempt
unfoldable pub wait_and_prepare : DagNode → (delay : Result ℤ) → Step (Unit {0})
wait_and_prepare node (raise e) s = (raise e, s)
wait_and_prepare node (return delay) s =
    (do
      sleep delay
      update_task node.task_id
          λ te. record te { attempt = te.attempt + 1; status = TaskStatus.pending }
      commit)
      s

-- the end of a round of the loop
unfoldable pub prepare_retry : Env → RetryStrategy → DagNode → Step (Unit {0})
unfolding get_delay wait_and_prepare
prepare_retry env strategy node s =
    wait_and_prepare node (get_delay strategy (env.random s.ticks) (attempt_of node.task_id s))
      (tick s)

-- the next round, if the wait did not raise
abbrev pub next_round :
    Step (Option Bool) → Result (Unit {0}) × Session → Result (Option Bool) × Session
next_round again (raise e, s) = (raise e, s)
next_round again (return _, s) = again s

-- the body of the loop behind the run of the task; `again` is the loop
unfoldable pub after_once :
    Step (Option Bool) → Env → RetryStrategy → DagNode → Result Bool → Step (Option Bool)
after_once again env strategy node (raise e) s = (raise e, s)
after_once again env strategy node (return true) s = (return (some true), s)
after_once again env strategy node (return false) s =
    if leb (max_attempts_in node.task_id s) (attempt_of node.task_id s)
    then (return (some false), s)
    else next_round again (prepare_retry env strategy node s)

-- The `while` loop, a number of rounds at most; `none` is a loop that has rounds to go.
unfoldable pub retry_rounds : ℕ → Env → RetryStrategy → DagNode → Fields → Step (Option Bool)
retry_rounds zero env strategy node merged_input s = (return none, s)
retry_rounds (suc rounds) env strategy node merged_input s =
    let again = retry_rounds rounds env strategy node merged_input in
    if not (leb (attempt_of node.task_id s) (max_attempts_in node.task_id s))
    then (return (some false), s)
    else if s.execution.status == value ExecutionState.cancelled
    then (return (some false), s)
    else let (ok, s') = execute_task_once env node merged_input s in
      after_once again env strategy node ok s'

-- Each round but the last raises `attempt` by one, so the rounds given here are enough.
unfoldable pub execute_task_with_retries : Env → DagNode → Fields → Step (Option Bool)
execute_task_with_retries env node merged_input s =
    retry_rounds (suc (max_attempts_in node.task_id s - attempt_of node.task_id s)) env
      (get_retry_strategy (Option.map dump node.retry_config)) node merged_input s
