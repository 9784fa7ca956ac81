-- ===== src/Workflow/Executor/Run.antt =====
-- app/engine/executor.py: `execute_workflow`.
-- The first round of its `while` loop that finds the execution neither cancelled nor failed enters
-- `async with lock`, and no name `lock` is bound in the method, its module or the builtins (the
-- lock of the method is called `glock`): it raises NameError. So the loop has no second round, and
-- what stands behind that line, `run_node` with it, is never reached.
use python_backend_projects.Base.{
  ℕ, ◌+◌, String, Bool, true, false, Option, none, some, List, [], ◌∷◌, ◌++◌, Exception, return,
  raise, name_error, get, lift, pure, ◌>>=◌, ◌>>◌, contains, length, ltb, ◌==◌, if◌then◌else◌,
}
use python_backend_projects.Base.Dict.{Dict, insert}
use python_backend_projects.Base.Value.{Value}
use python_backend_projects.Workflow.StateMachine.{
  ExecutionState, value, of_value, can_transition_to,
}
use python_backend_projects.Workflow.Models.{TaskStatus, TaskExecution, WorkflowDefinition}
use python_backend_projects.Workflow.Graphs.{Networkx}
use python_backend_projects.Workflow.Dag.{create}
use python_backend_projects.Workflow.Executor.State.{
  Env, Step, execution_started, execution_cancelled, execution_failed, execution_completed, commit,
  broadcast, read_clock, set_execution, refresh,
}
use python_backend_projects.Workflow.Executor.Finish.{complete_execution, fail_execution}

-- `set.add`
abbrev pub set_add : String → List String → List String
set_add x xs = if contains xs x then xs else xs ++ (x ∷ [])

-- the local variables of `execute_workflow`
pub record Settled : Type 0 where
  pub completed : List String
  pub skipped : List String
  pub task_outputs : Dict Value

abbrev pub store_output : String → Option Value → Dict Value → Dict Value
store_output task none outputs = outputs
store_output task (some v) outputs = insert task v outputs

-- the loop over the task executions, by their status
unfoldable pub note_task : TaskExecution → TaskStatus → Settled → Settled
note_task te TaskStatus.completed l = record l {
  completed = set_add te.task_definition_id l.completed;
  task_outputs = store_output te.task_definition_id te.output_data l.task_outputs;
}
note_task te TaskStatus.skipped l = record l { skipped = set_add te.task_definition_id l.skipped }
note_task te _ l = l

unfoldable pub scan_tasks : List TaskExecution → Settled → Settled
unfolding note_task
scan_tasks [] l = l
scan_tasks (te ∷ rest) l = scan_tasks rest (note_task te te.status l)

abbrev pub nothing_settled : Settled
nothing_settled = record { completed = []; skipped = []; task_outputs = [] }

abbrev pub lock_unbound : Exception
lock_unbound = name_error "name 'lock' is not defined"

-- `await is_cancelled()`
abbrev pub is_cancelled : Env → Step Bool
is_cancelled env = do
  refresh env
  s ← get
  pure (s.execution.status == value ExecutionState.cancelled)

-- the move to RUNNING before the loop, if it is allowed
unfoldable pub start_execution : Env → ExecutionState → Step (Unit {0})
start_execution env state s =
    if can_transition_to state ExecutionState.running
    then (do
      now ← read_clock env
      set_execution λ ex. record ex { status = value ExecutionState.running; started_at = some now }
      commit)
        s
    else (return tt, s)

-- the first round of the loop, up to the line that raises
unfoldable pub first_round : Env → (failed cancelled : Bool) → Step (Unit {0})
first_round env failed true s = broadcast (execution_cancelled s.execution.id s.execution.status) s
first_round env true false s =
    (do
      fail_execution env
      after ← get
      broadcast (execution_failed after.execution.id after.execution.status))
      s
first_round env false false s = (raise lock_unbound, s)

-- what follows the loop
unfoldable pub after_loop : Env → Dict Value → (failed cancelled : Bool) → Step (Unit {0})
after_loop env task_outputs failed true s = (return tt, s)
after_loop env task_outputs true false s = (return tt, s)
after_loop env task_outputs false false s =
    (do
      complete_execution env task_outputs
      after ← get
      broadcast (execution_completed after.execution.id after.execution.status))
      s

module _ (nx : Networkx) (env : Env) where
  -- the loop and what follows it, for a dag of so many nodes; `failed` is still False
  unfoldable pub run_loop : ℕ → Settled → Step (Unit {0})
  run_loop count l = do
    cancelled ← is_cancelled env
    if ltb (length l.completed + length l.skipped) count
        then first_round env false cancelled
        else after_loop env l.task_outputs false cancelled

  -- `execute_workflow` of an execution that was found, with its workflow
  unfoldable pub execute_workflow : Option WorkflowDefinition → Step (Unit {0})
  execute_workflow none = pure tt
  execute_workflow (some wf) = do
    dag ← lift (create nx wf.dag_definition)
    s ← get
    state ← lift (of_value s.execution.status)
    start_execution env state
    started ← get
    broadcast (execution_started started.execution.id wf.id started.execution.status)
    run_loop (length dag.nodes) (scan_tasks started.execution.task_executions nothing_settled)
