-- ===== src/Workflow/Executor/Finish.antt =====
-- app/engine/executor.py: `_complete_execution`, `_fail_execution` and `cancel_execution`.
use python_backend_projects.Base.{
  ℕ, suc, String, Bool, true, false, none, some, List, [], ◌∷◌, Result, return, lift, ◌>>=◌, ◌>>◌,
  if◌then◌else◌,
}
use python_backend_projects.Base.Value.{Value, object, field, end, from_pairs}
use python_backend_projects.Workflow.StateMachine.{
  ExecutionState, value, of_value, can_transition_to, transition_to,
}
use python_backend_projects.Workflow.Models.{TaskStatus, TaskExecution, WorkflowExecution}
use python_backend_projects.Workflow.Executor.State.{
  Env, Step, execution_cancelled, commit, broadcast, read_clock, set_execution,
}

-- `{"tasks": task_outputs}`
abbrev pub tasks_output : List (String × Value) → Value
tasks_output outputs = object (field "tasks" (object (from_pairs outputs)) end)

-- `sm.transition_to(target)` on a machine of its own
abbrev pub request : ExecutionState → ExecutionState → Result ExecutionState
request state target = (transition_to target state).0

unfoldable pub complete_execution : Env → List (String × Value) → Step (Unit {0})
complete_execution env task_outputs s =
    (do
      state ← lift (of_value s.execution.status)
      lift (request state ExecutionState.completed)
      set_execution λ ex. record ex { status = value ExecutionState.completed }
      now ← read_clock env
      set_execution λ ex. record ex {
        completed_at = some now;
        output_data = some (tasks_output task_outputs);
        error = none;
      }
      commit)
      s

-- the assignment that is made only if the transition is allowed
abbrev pub if_allowed : ExecutionState → ExecutionState → WorkflowExecution → WorkflowExecution
if_allowed state target ex =
    if can_transition_to state target then record ex { status = value target } else ex

unfoldable pub fail_execution : Env → Step (Unit {0})
fail_execution env s =
    (do
      state ← lift (of_value s.execution.status)
      set_execution (if_allowed state ExecutionState.failed)
      now ← read_clock env
      set_execution λ ex. record ex { completed_at = some now }
      commit)
      s

-- `te.status in ("pending", "running")`
unfoldable pub is_unfinished : TaskStatus → Bool
is_unfinished TaskStatus.pending = true
is_unfinished TaskStatus.running = true
is_unfinished _ = false

-- The loop of `cancel_execution`; each assignment reads the clock.
unfoldable pub cancel_tasks : Env → ℕ → List TaskExecution → List TaskExecution × ℕ
unfolding is_unfinished
cancel_tasks env ticks [] = ([], ticks)
cancel_tasks env ticks (te ∷ rest) =
    let after = cancel_tasks env (if is_unfinished te.status then suc ticks else ticks) rest in
    (
      (if is_unfinished te.status
            then record te { status = TaskStatus.cancelled; completed_at = some (env.now ticks) }
            else te)
          ∷ after.0,
      after.1,
    )

-- the execution's own columns
unfoldable pub cancel_columns : Env → ExecutionState → Step (Unit {0})
cancel_columns env state s =
    if can_transition_to state ExecutionState.cancelled
    then (do
      now ← read_clock env
      set_execution
          λ ex. record ex { status = value ExecutionState.cancelled; completed_at = some now })
        s
    else (return tt, s)

-- the tasks' columns
unfoldable pub cancel_all_tasks : Env → Step (Unit {0})
unfolding cancel_tasks
cancel_all_tasks env s =
    let ex = s.execution in
    let done = cancel_tasks env s.ticks ex.task_executions in
    (return tt, record s { execution = record ex { task_executions = done.0 }; ticks = done.1 })

-- `cancel_execution` of an execution that was found
unfoldable pub cancel_execution : Env → Step (Unit {0})
cancel_execution env = do
  s ← λ now. (return now, now)
  state ← lift (of_value s.execution.status)
  cancel_columns env state
  cancel_all_tasks env
  commit
  after ← λ now. (return now, now)
  broadcast (execution_cancelled after.execution.id after.execution.status)
