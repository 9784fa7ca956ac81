-- ===== src/Workflow/Examples/Replies.antt =====
-- The theorem about the routes of workflows at a concrete input.
use python_backend_projects.Base.{
  ℕ, String, some, [], ◌∷◌, Exception, raise, value_error, ◌≡◌, refl,
}
use python_backend_projects.Workflow.Schemas.{DagDefinition}
use python_backend_projects.Workflow.Models.{WorkflowDefinition}
use python_backend_projects.Workflow.Graphs.Adjacency.{adjacency}
use python_backend_projects.Workflow.Dag.{create}
use python_backend_projects.Workflow.Services.{Store}
use python_backend_projects.Workflow.Services.Workflows.{
  Fresh, WorkflowCreate, WorkflowUpdate, WorkflowTriggerRequest, get_workflow,
}
use python_backend_projects.Workflow.Routes.{
  refused, create_workflow_route, update_workflow_route, delete_workflow_route,
  trigger_workflow_route,
}
use python_backend_projects.Workflow.Routes.Refused.{RefusesCleanly, workflow_routes-RefuseCleanly}
use python_backend_projects.Workflow.Examples.Fixtures.{workflow}

abbrev one_workflow : Store
one_workflow = record {
  executions = [];
  committed = [];
  workflows = workflow ∷ [];
  schedules = [];
  queue = [];
}

workflow_routes-RefuseCleanly_example :
    ((fresh : Fresh) (data_in : WorkflowCreate)
      → RefusesCleanly one_workflow (create_workflow_route adjacency fresh data_in one_workflow)
        × ((m : String)
            → create adjacency data_in.dag_definition ≡ raise (value_error m)
            → create_workflow_route adjacency fresh data_in one_workflow
              ≡ (refused 400 m, one_workflow)))
    × ((pk : ℕ) (data_in : WorkflowUpdate)
        → RefusesCleanly one_workflow (update_workflow_route adjacency pk data_in one_workflow)
          × ((wf : WorkflowDefinition) (definition : DagDefinition) (e : Exception)
              → get_workflow pk one_workflow ≡ some wf
              → data_in.dag_definition ≡ some definition
              → create adjacency definition ≡ raise e
              → update_workflow_route adjacency pk data_in one_workflow
                ≡ (refused 500 "Internal Server Error", one_workflow)))
    × ((pk : ℕ) → RefusesCleanly one_workflow (delete_workflow_route pk one_workflow))
    × ((fresh : Fresh) (pk : ℕ) (req : WorkflowTriggerRequest)
        → RefusesCleanly one_workflow (trigger_workflow_route fresh pk req one_workflow))
workflow_routes-RefuseCleanly_example = workflow_routes-RefuseCleanly adjacency one_workflow refl
