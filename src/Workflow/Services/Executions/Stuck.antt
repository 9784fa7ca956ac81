-- ===== src/Workflow/Services/Executions/Stuck.antt =====
-- What is left of an execution whose run raised NameError (app/engine/executor.py) when the API is
-- asked to retry it (app/services/execution_service.py).
use python_backend_projects.Base.{ℕ, ◌<◌, ◌≡◌, ◌∙◌, refl, ap, false, some, return, length}
use python_backend_projects.Workflow.StateMachine.{
  pending, running, value, of_value, contains_state,
}
use python_backend_projects.Workflow.StateMachine.Lifecycle.{of_value-value}
use python_backend_projects.Workflow.Models.{WorkflowExecution, WorkflowDefinition}
use python_backend_projects.Workflow.Graphs.{Networkx}
use python_backend_projects.Workflow.Dag.{Dag, create}
use python_backend_projects.Workflow.Executor.{Env, Session, execute_workflow}
use python_backend_projects.Workflow.Executor.Outcomes.{
  IsAlone, settled_count, execute_workflow_stuck,
}
use python_backend_projects.Workflow.Services.Tables.{Store}
use python_backend_projects.Workflow.Services.Executions.{get_execution, retry_execution}
use python_backend_projects.Workflow.Services.Executions.Retry.{retry_execution_refuses}

-- While no other session changes its row, the run of a pending execution that has a valid dag and
-- fewer tasks settled than the dag has commits it as running, and then a retry of it is refused and
-- changes nothing.
pub retry_execution_stuck :
    (nx : Networkx) (env : Env) (alone : IsAlone env) (wf : WorkflowDefinition) (dag : Dag nx)
    (s : Session) (pk : ℕ) (store : Store)
    → create nx wf.dag_definition ≡ return dag
    → s.execution.status ≡ value pending
    → settled_count s < length dag.nodes
    → get_execution pk store ≡ some (execute_workflow nx env (some wf) s).1.committed
    → ((execute_workflow nx env (some wf) s).1.committed.status ≡ "running")
      × (retry_execution pk store ≡ (return false, store))
unfolding contains_state
retry_execution_stuck nx env alone wf dag s pk store built status more found =
    let (raised, row, events) = execute_workflow_stuck nx env alone wf dag s built status more in
    (
      ap (λ (r : WorkflowExecution). r.status) row,
      retry_execution_refuses pk store (execute_workflow nx env (some wf) s).1.committed running
          found (ap (λ (r : WorkflowExecution). of_value r.status) row ∙ of_value-value running)
          refl,
    )
