-- ===== src/Workflow/History.antt =====
-- The life of an execution's row across the parts that write its status: the worker's run
-- (app/engine/executor.py), cancellation, failure, and the retry of
-- app/services/execution_service.py.
pub mod Steps
pub mod Refines
use python_backend_projects.Base.{◌≡◌, false, Option, return}
use python_backend_projects.Workflow.StateMachine.{ExecutionState, of_value, contains_state}
use python_backend_projects.Workflow.Models.{WorkflowExecution, WorkflowDefinition}
use python_backend_projects.Workflow.Graphs.{Networkx}
use python_backend_projects.Workflow.Executor.{
  Env, Session, execute_workflow, cancel_execution, fail_execution,
}
use python_backend_projects.Workflow.Executor.Outcomes.{IsAlone}
use python_backend_projects.Workflow.Services.Executions.{reset_execution, refused_states}

-- The row that a session has just loaded.
pub record IsLoaded (s : Session) (row : WorkflowExecution) : Type 0 where
  pub held : s.execution ≡ row
  pub stored : s.committed ≡ row

module _ (nx : Networkx) where
  -- From one committed row to the next.
  pub data Moves (row : WorkflowExecution) : WorkflowExecution → Type 0 where
    run :
        (env : Env) (wf : Option WorkflowDefinition) (s : Session)
        → IsAlone env
        → IsLoaded s row
        → Moves row (execute_workflow nx env wf s).1.committed
    cancel :
        (env : Env) (s : Session) → IsLoaded s row → Moves row (cancel_execution env s).1.committed
    fail : (env : Env) (s : Session) → IsLoaded s row → Moves row (fail_execution env s).1.committed
    retry :
        (state : ExecutionState)
        → of_value row.status ≡ return state
        → contains_state refused_states state ≡ false
        → Moves row (reset_execution row)

  -- any number of such moves, by any of the parts, in any order
  pub data History (row : WorkflowExecution) : WorkflowExecution → Type 0 where
    loaded : History row row
    then_moves :
        {middle after : WorkflowExecution}
        → History row middle
        → Moves middle after
        → History row after
