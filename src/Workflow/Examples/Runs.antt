-- ===== src/Workflow/Examples/Runs.antt =====
-- Runs of the executor (app/engine/executor.py) at concrete inputs.
use mathlib.Core.Option
use python_backend_projects.Base.{
  str_dec, ◌≡◌, ◌≢◌, refl, some, [], ◌∷◌, ◌++◌, return, raise, arith,
}
use python_backend_projects.Base.Dict.{Dict}
use python_backend_projects.Base.Value.{Value, end}
use python_backend_projects.Workflow.StateMachine.{ExecutionState, pending, running, value}
use python_backend_projects.Workflow.StateMachine.Lifecycle.{of_value-value, value-injective}
use python_backend_projects.Workflow.Retry.{get_retry_strategy, dump}
use python_backend_projects.Workflow.Models.{TaskStatus}
use python_backend_projects.Workflow.Graphs.Adjacency.{adjacency}
use python_backend_projects.Workflow.Executor.{
  Session, execution_started, execute_task_once, execute_task_with_retries, execute_workflow,
  cancel_execution, lock_unbound, scan_tasks,
}
use python_backend_projects.Workflow.Executor.Retries.{execute_task_once-RanOr}
use python_backend_projects.Workflow.Executor.Verdicts.{RanOr, AttemptedOr}
use python_backend_projects.Workflow.Executor.Loop.{execute_task_with_retries-AttemptedOr}
use python_backend_projects.Workflow.Executor.Cancel.{
  Pointwise, StatusAfter, cancel_execution_stops,
}
use python_backend_projects.Workflow.Executor.Outcomes.{
  IsAlone, started_row, execute_workflow_stuck,
}
use python_backend_projects.Workflow.Examples.Fixtures.{
  workflow, fetch_node, fetch_row, store_row, fetch_dag, execution_of, session_of, quiet,
}
use python_backend_projects.Workflow.Examples.Graph.{fetch-created}

-- the execution under way, no task begun
abbrev under_way : Session
under_way = session_of (execution_of running (fetch_row ∷ store_row ∷ []))

execute_task_once-RanOr_example :
    RanOr quiet fetch_node end fetch_row under_way
      (execute_task_once quiet fetch_node end under_way).0
      (execute_task_once quiet fetch_node end under_way).1
unfolding str_dec
execute_task_once-RanOr_example =
    execute_task_once-RanOr quiet fetch_node end fetch_row under_way refl

running-ne-cancelled : value running ≢ value ExecutionState.cancelled
running-ne-cancelled e = absurd (cc (value-injective running ExecutionState.cancelled e))

execute_task_with_retries-AttemptedOr_example :
    AttemptedOr quiet
      (get_retry_strategy (Option.map dump fetch_node.retry_config))
      fetch_node
      end
      fetch_row
      under_way
      (execute_task_with_retries quiet fetch_node end under_way).0
      (execute_task_with_retries quiet fetch_node end under_way).1
unfolding str_dec
execute_task_with_retries-AttemptedOr_example =
    execute_task_with_retries-AttemptedOr quiet fetch_node end fetch_row under_way refl
      (omega arith) running-ne-cancelled

pub quiet-IsAlone : IsAlone quiet
quiet-IsAlone = record { unchanged = λ n row. refl }

-- a new execution
abbrev pub submitted : Session
submitted = session_of (execution_of pending [])

execute_workflow_stuck_example :
    let (r, s') = execute_workflow adjacency quiet (some workflow) submitted in
    (r ≡ raise lock_unbound)
    × (s'.committed ≡ started_row quiet submitted)
    × (s'.events ≡ [] ++ (execution_started 5 7 (value running) ∷ []))
unfolding fetch_dag scan_tasks
execute_workflow_stuck_example =
    execute_workflow_stuck adjacency quiet quiet-IsAlone workflow fetch_dag submitted fetch-created
      refl (omega arith)

-- both tasks were completed before the worker took the execution up again
abbrev resubmitted : Session
resubmitted = session_of (
    execution_of pending (
      record fetch_row { status = TaskStatus.completed }
      ∷ record store_row { status = TaskStatus.completed }
      ∷ []))

cancel_execution_stops_example :
    let (r, s') = cancel_execution quiet under_way in
    (r ≡ return tt)
    × (s'.committed ≡ s'.execution)
    × Pointwise under_way.execution.task_executions s'.committed.task_executions
    × StatusAfter running (value running) s'.committed.status
cancel_execution_stops_example =
    cancel_execution_stops quiet running under_way (of_value-value running)
