-- ===== src/Workflow/Examples/Lives.antt =====
-- The life of an execution's row at concrete inputs.
use python_backend_projects.Base.{◌≡◌, refl, ◌⊎◌, some}
use python_backend_projects.Workflow.StateMachine.{ExecutionState, pending}
use python_backend_projects.Workflow.Models.{WorkflowExecution}
use python_backend_projects.Workflow.Graphs.Adjacency.{adjacency}
use python_backend_projects.Workflow.Executor.{execute_workflow, cancel_execution}
use python_backend_projects.Workflow.History.{History, loaded, then_moves, run, cancel}
use python_backend_projects.Workflow.History.Refines.{Tracks, History-Tracks}
use python_backend_projects.Workflow.Examples.Fixtures.{workflow, session_of, quiet}
use python_backend_projects.Workflow.Examples.Runs.{quiet-IsAlone, submitted}

abbrev first : WorkflowExecution
first = submitted.execution

-- the row after a run
abbrev ran : WorkflowExecution
ran = (execute_workflow adjacency quiet (some workflow) submitted).1.committed

-- and after the cancellation of that
abbrev stopped : WorkflowExecution
stopped = (cancel_execution quiet (session_of ran)).1.committed

run_and_cancel : History adjacency first stopped
run_and_cancel =
    then_moves
      (then_moves loaded
        (run quiet (some workflow) submitted quiet-IsAlone (record { held = refl; stored = refl })))
      (cancel quiet (session_of ran) (record { held = refl; stored = refl }))

History-Tracks_example :
    Tracks pending stopped
    × ((pending ≡ ExecutionState.completed) ⊎ (pending ≡ ExecutionState.cancelled)
        → stopped.status ≡ first.status)
History-Tracks_example = History-Tracks adjacency first stopped pending refl run_and_cancel
