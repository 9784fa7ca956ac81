-- ===== src/Workflow/Examples/Calls.antt =====
-- The services (app/services) at concrete inputs.
use python_backend_projects.Base.{
  str_dec, ℕ, ◌≡◌, refl, false, none, some, List, [], ◌∷◌, return, arith,
}
use python_backend_projects.Base.Rows.{find_row}
use python_backend_projects.Workflow.StateMachine.{running, failed, of_value, can_transition_to}
use python_backend_projects.Workflow.StateMachine.Lifecycle.{of_value-value}
use python_backend_projects.Workflow.Models.{TaskStatus, WorkflowExecution}
use python_backend_projects.Workflow.Graphs.Adjacency.{adjacency}
use python_backend_projects.Workflow.Dag.{create}
use python_backend_projects.Workflow.Executor.{
  execute_workflow, start_execution, run_loop, first_round, scan_tasks,
}
use python_backend_projects.Workflow.Services.{Store}
use python_backend_projects.Workflow.Services.Executions.{get_execution, retry_execution}
use python_backend_projects.Workflow.Services.Executions.Retry.{
  RetriesAs, retry_execution-RetriesAs,
}
use python_backend_projects.Workflow.Services.Executions.Stuck.{retry_execution_stuck}
use python_backend_projects.Workflow.Services.Workflows.{
  WorkflowCreate, WorkflowUpdate, WorkflowTriggerRequest, Fresh, create_workflow, update_workflow,
  delete_workflow,
}
use python_backend_projects.Workflow.Services.Workflows.Accepted.{
  AllAccepted, workflows-AllAccepted,
}
use python_backend_projects.Workflow.Examples.Fixtures.{
  workflow, fetch_row, store_row, fetch_dag, execution_of, quiet,
}
use python_backend_projects.Workflow.Examples.Graph.{fetch-created}
use python_backend_projects.Workflow.Examples.Runs.{quiet-IsAlone, submitted}

abbrev store_of : List WorkflowExecution → Store
store_of rows = record {
  executions = rows;
  committed = rows;
  workflows = workflow ∷ [];
  schedules = [];
  queue = [];
}

abbrev running_store : Store
running_store = store_of (execution_of running [] ∷ [])

abbrev failed_execution : WorkflowExecution
failed_execution = execution_of failed (
    record fetch_row { status = TaskStatus.completed }
    ∷ record store_row { status = TaskStatus.failed }
    ∷ [])

abbrev failed_store : Store
failed_store = store_of (failed_execution ∷ [])

retry_execution-RetriesAs_example :
    RetriesAs 5 failed_store failed_execution failed (retry_execution 5 failed_store)
unfolding get_execution find_row
retry_execution-RetriesAs_example =
    retry_execution-RetriesAs 5 failed_store failed_execution failed refl (of_value-value failed)

abbrev three_rows : List ℕ
three_rows = 10 ∷ 20 ∷ 30 ∷ []

-- the row as the run that is left by NameError commits it
abbrev stuck_store : Store
stuck_store =
    store_of ((execute_workflow adjacency quiet (some workflow) submitted).1.committed ∷ [])

retry_execution_stuck_example :
    ((execute_workflow adjacency quiet (some workflow) submitted).1.committed.status ≡ "running")
    × (retry_execution 5 stuck_store ≡ (return false, stuck_store))
unfolding fetch_dag get_execution find_row scan_tasks execute_workflow create str_dec of_value
    start_execution can_transition_to run_loop first_round
retry_execution_stuck_example =
    retry_execution_stuck adjacency quiet quiet-IsAlone workflow fetch_dag submitted 5 stuck_store
      fetch-created refl (omega arith) refl

workflows-AllAccepted_example :
    ((fresh : Fresh) (d : WorkflowCreate)
      → AllAccepted adjacency (create_workflow adjacency fresh d running_store).1)
    × ((pk : ℕ) (d : WorkflowUpdate)
        → AllAccepted adjacency (update_workflow adjacency pk d running_store).1)
    × ((pk : ℕ) → AllAccepted adjacency (delete_workflow pk running_store).1)
workflows-AllAccepted_example =
    workflows-AllAccepted adjacency running_store ((fetch_dag, fetch-created), tt)

abbrev fresh : Fresh
fresh = record { id = 6; now = 50; hex = "0a" }

abbrev by_hand : WorkflowTriggerRequest
by_hand = record { input_data = none; triggered_by = "manual"; correlation_id = none }
