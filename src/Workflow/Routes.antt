-- ===== src/Workflow/Routes.antt =====
-- app/api/routes/workflows.py, executions.py and schedules.py, with the transaction of `get_db`
-- (app/models/database.py) around a request. FastAPI answers an HTTPException with its status, and
-- any other exception with 500. The lists and the statistics are answered as the services give
-- them; cancel_execution is the call of the executor.
pub mod Refused
use python_backend_projects.Base.{
  ℕ, String, Bool, true, false, not, Option, none, some, List, Action, Result, return, raise,
  Exception, value_error, if◌then◌else◌,
}
use python_backend_projects.Workflow.Models.{
  WorkflowDefinition, WorkflowExecution, WorkflowSchedule,
}
use python_backend_projects.Workflow.Graphs.{Networkx}
use python_backend_projects.Workflow.Scheduler.{Croniter}
use python_backend_projects.Workflow.Services.{Store}
use python_backend_projects.Workflow.Services.Workflows.{
  Fresh, WorkflowCreate, WorkflowUpdate, WorkflowTriggerRequest, create_workflow, update_workflow,
  delete_workflow, get_workflow, trigger_workflow, validate_dag, commit_executions,
}
use python_backend_projects.Workflow.Services.Executions.{get_execution, retry_execution}
use python_backend_projects.Workflow.Services.Schedules.{
  ScheduleCreate, ScheduleUpdate, toggle_schedule, delete_schedule, create_schedule,
  update_schedule,
}

pub data Reply (A : Type 0) : Type 0 where
  answered : (status : ℕ) → A → Reply A
  refused : (status : ℕ) → (detail : String) → Reply A

-- `session.rollback()`: what was sent to the queue stays sent.
abbrev pub roll_back : (before after : Store) → Store
roll_back before after = record after {
  executions = after.committed;
  workflows = before.workflows;
  schedules = before.schedules;
}

module _ {A : Type 0} where
  -- `get_db`: commit after the route, or rollback of what raised
  abbrev pub end_of_request : (before : Store) → Reply A → (after : Store) → Reply A × Store
  end_of_request before (answered status a) after = (answered status a, commit_executions after)
  end_of_request before (refused status detail) after =
      (refused status detail, roll_back before after)

  abbrev pub transaction :
      {B : Type 0} → (Result B → Reply A) → (before : Store) → Result B × Store → Reply A × Store
  transaction reply before (r, after) = end_of_request before (reply r) after

  abbrev pub server_error : Reply A
  server_error = refused 500 "Internal Server Error"

  -- `except ValueError as e: raise HTTPException(400, detail=str(e))`
  abbrev pub or_bad_request : (status : ℕ) → Result A → Reply A
  or_bad_request status (return a) = answered status a
  or_bad_request status (raise (value_error m)) = refused 400 m
  or_bad_request status (raise e) = server_error

  abbrev pub or_not_found : (status : ℕ) → (detail : String) → Option A → Reply A
  or_not_found status detail none = refused 404 detail
  or_not_found status detail (some a) = answered status a

  -- no `except`, and 404 for none
  abbrev pub found_or_error : (status : ℕ) → (detail : String) → Result (Option A) → Reply A
  found_or_error status detail (return o) = or_not_found status detail o
  found_or_error status detail (raise e) = server_error

-- no `except`, and a refusal for `False`
abbrev pub done_or : (status refusal : ℕ) → (detail : String) → Result Bool → Reply (Unit {0})
done_or status refusal detail (return true) = answered status tt
done_or status refusal detail (return false) = refused refusal detail
done_or status refusal detail (raise e) = server_error

abbrev pub if_active : Option WorkflowDefinition → Option WorkflowDefinition
if_active none = none
if_active (some wf) = if wf.is_active then some wf else none

unfoldable pub get_workflow_route : ℕ → Store → Reply WorkflowDefinition × Store
get_workflow_route pk s =
    end_of_request s (or_not_found 200 "Workflow not found" (if_active (get_workflow pk s))) s

unfoldable pub delete_workflow_route : ℕ → Store → Reply (Unit {0}) × Store
delete_workflow_route pk s =
    transaction (done_or 204 404 "Workflow not found") s (delete_workflow pk s)

unfoldable pub trigger_workflow_route :
    Fresh → ℕ → WorkflowTriggerRequest → Store → Reply WorkflowExecution × Store
trigger_workflow_route fresh pk req s =
    transaction (or_bad_request 202) s (trigger_workflow fresh pk req s)

unfoldable pub get_execution_route : ℕ → Store → Reply WorkflowExecution × Store
get_execution_route pk s =
    end_of_request s (or_not_found 200 "Execution not found" (get_execution pk s)) s

unfoldable pub retry_execution_route : ℕ → Store → Reply (Unit {0}) × Store
retry_execution_route pk s =
    transaction (done_or 202 400 "Cannot retry execution") s (retry_execution pk s)

unfoldable pub toggle_schedule_route : ℕ → Store → Reply WorkflowSchedule × Store
toggle_schedule_route pk s =
    transaction (found_or_error 200 "Schedule not found") s (toggle_schedule pk s)

unfoldable pub delete_schedule_route : ℕ → Store → Reply (Unit {0}) × Store
delete_schedule_route pk s =
    transaction (done_or 204 404 "Schedule not found") s (delete_schedule pk s)

module _ (nx : Networkx) where
  unfoldable pub create_workflow_route :
      Fresh → WorkflowCreate → Store → Reply WorkflowDefinition × Store
  create_workflow_route fresh data_in s =
      transaction (or_bad_request 201) s (create_workflow nx fresh data_in s)

  unfoldable pub update_workflow_route :
      ℕ → WorkflowUpdate → Store → Reply WorkflowDefinition × Store
  update_workflow_route pk data_in s =
      transaction (found_or_error 200 "Workflow not found") s (update_workflow nx pk data_in s)

  -- the order of a stored definition; what its DAG raises is not caught
  abbrev pub ordered : Result (List (List String)) → Reply (List (List String))
  ordered (return order) = answered 200 order
  ordered (raise e) = server_error

  abbrev pub validate_found : Option WorkflowDefinition → Reply (List (List String))
  validate_found none = refused 404 "Workflow not found"
  validate_found (some wf) = ordered (validate_dag nx wf.dag_definition)

  unfoldable pub validate_workflow_route : ℕ → Store → Reply (List (List String)) × Store
  validate_workflow_route pk s = end_of_request s (validate_found (get_workflow pk s)) s

-- a value or none, or a refusal of what raised ValueError
abbrev pub found_or_bad_request :
    {A : Type 0} → (status : ℕ) → (detail : String) → Result (Option A) → Reply A
found_or_bad_request status detail (return o) = or_not_found status detail o
found_or_bad_request status detail (raise (value_error m)) = refused 400 m
found_or_bad_request status detail (raise e) = server_error

module _ (cron : Croniter) (bad : String → Option String) where
  unfoldable pub create_schedule_route :
      Fresh → ScheduleCreate → Store → Reply WorkflowSchedule × Store
  create_schedule_route fresh data_in s =
      transaction (or_bad_request 201) s (create_schedule cron bad fresh data_in s)

  unfoldable pub update_schedule_route :
      ℕ → (now : ℕ) → ScheduleUpdate → Store → Reply WorkflowSchedule × Store
  update_schedule_route pk now data_in s =
      transaction (found_or_bad_request 200 "Schedule not found") s
        (update_schedule cron bad pk now data_in s)
