-- ===== src/Workflow/Services/Workflows.antt =====
-- app/services/workflow_service.py: `WorkflowService`, and the worker's
-- `trigger_scheduled_workflow` (app/workers/workflow_worker.py), which calls it.
pub mod Accepted
use python_backend_projects.Base.{
  any, ◌&&◌, nat_eq, ◌==◌, Exception, other_error, ℕ, ◌+◌, ◌<>◌, String, Bool, true, false, not,
  Option, none, some, List, [], ◌∷◌, ◌++◌, Action, Result, return, raise, value_error,
  if◌then◌else◌,
}
use python_backend_projects.Base.Value.{Fields}
use python_backend_projects.Base.Rows.{find_row, update_row}
use python_backend_projects.Workflow.StateMachine.{ExecutionState, value}
use python_backend_projects.Workflow.Schemas.{DagDefinition}
use python_backend_projects.Workflow.Models.{WorkflowDefinition, WorkflowExecution}
use python_backend_projects.Workflow.Graphs.{Networkx}
use python_backend_projects.Workflow.Dag.{Dag, create, get_execution_order}
use python_backend_projects.Workflow.Services.Tables.{
  Store, execute_workflow_task, workflow_key, send_task,
}

pub record WorkflowCreate : Type 0 where
  pub name : String
  pub description : Option String
  pub dag_definition : DagDefinition
  pub input_schema : Option Fields
  pub created_by : String

pub record WorkflowUpdate : Type 0 where
  pub name : Option String
  pub description : Option String
  pub dag_definition : Option DagDefinition
  pub input_schema : Option Fields
  pub is_active : Option Bool

pub record WorkflowTriggerRequest : Type 0 where
  pub input_data : Option Fields
  pub triggered_by : String
  pub correlation_id : Option String

-- What the database and the clock put into a new row.
pub record Fresh : Type 0 where
  pub id : ℕ
  pub now : ℕ
  -- `uuid.uuid4().hex`
  pub hex : String

abbrev pub new_workflow : Fresh → WorkflowCreate → WorkflowDefinition
new_workflow fresh data_in = record {
  id = fresh.id;
  name = data_in.name;
  description = data_in.description;
  version = 1;
  dag_definition = data_in.dag_definition;
  input_schema = data_in.input_schema;
  is_active = true;
  created_by = data_in.created_by;
  created_at = fresh.now;
  updated_at = fresh.now;
}

-- the assignment under `if x is not None`
abbrev pub or_kept {ℓ} : {A : Type ℓ} → Option A → A → A
or_kept none old = old
or_kept (some new) old = new

abbrev pub or_kept_option {ℓ} : {A : Type ℓ} → Option A → Option A → Option A
or_kept_option none old = old
or_kept_option (some new) old = some new

-- the first two assignments of an update, which come before the new DAG is checked
unfoldable pub rename : WorkflowUpdate → WorkflowDefinition → WorkflowDefinition
rename data_in wf = record wf {
  name = or_kept data_in.name wf.name;
  description = or_kept_option data_in.description wf.description;
}

-- the last two
unfoldable pub finish_update : WorkflowUpdate → WorkflowDefinition → WorkflowDefinition
finish_update data_in wf = record wf {
  input_schema = or_kept_option data_in.input_schema wf.input_schema;
  is_active = or_kept data_in.is_active wf.is_active;
}

unfoldable pub replace_dag : DagDefinition → WorkflowDefinition → WorkflowDefinition
replace_dag definition wf = record wf { dag_definition = definition; version = wf.version + 1 }

abbrev pub put_workflow : ℕ → (WorkflowDefinition → WorkflowDefinition) → Store → Store
put_workflow pk f s = record s { workflows = update_row workflow_key pk f s.workflows }

unfoldable pub get_workflow : ℕ → Store → Option WorkflowDefinition
get_workflow pk s = find_row workflow_key pk s.workflows

-- The name of a workflow is unique: the flush of a second one raises, and the request is rolled
-- back.
abbrev pub integrity_error : Exception
integrity_error = other_error "IntegrityError"

abbrev pub add_workflow : WorkflowDefinition → Action Store WorkflowDefinition
add_workflow wf s =
    if any (λ (w : WorkflowDefinition). w.name == wf.name) s.workflows
    then (raise integrity_error, s)
    else (return wf, record s { workflows = s.workflows ++ (wf ∷ []) })

-- another workflow has the new name
abbrev pub clashes : ℕ → Option String → Store → Bool
clashes pk none s = false
clashes pk (some name) s =
    any (λ (w : WorkflowDefinition). not (nat_eq w.id pk) && w.name == name) s.workflows

-- `delete_workflow` only marks the row.
unfoldable pub delete_workflow : ℕ → Action Store Bool
delete_workflow pk s = elim (get_workflow pk s) [
  | none ↦ (return false, s)
  | some wf ↦ (return true, put_workflow pk (λ w. record w { is_active = false }) s)
]

abbrev pub new_execution : Fresh → WorkflowDefinition → WorkflowTriggerRequest → WorkflowExecution
new_execution fresh wf req = record {
  id = fresh.id;
  execution_id = "ex-" <> fresh.hex;
  workflow_id = wf.id;
  status = value ExecutionState.pending;
  input_data = req.input_data;
  output_data = none;
  error = none;
  started_at = none;
  completed_at = none;
  created_at = fresh.now;
  triggered_by = req.triggered_by;
  correlation_id = req.correlation_id;
  task_executions = [];
}

abbrev pub not_triggered : Result WorkflowExecution
not_triggered = raise (value_error "Workflow not found or inactive")

-- `trigger_workflow` of the workflow that was found, if any
unfoldable pub trigger_found :
    Fresh → WorkflowTriggerRequest → Option WorkflowDefinition → Action Store WorkflowExecution
trigger_found fresh req none s = (not_triggered, s)
trigger_found fresh req (some wf) s =
    let ex = new_execution fresh wf req in
    if not wf.is_active then (not_triggered, s) else (
      return ex,
      send_task (execute_workflow_task ex.id) (record s { executions = s.executions ++ (ex ∷ []) }),
    )

unfoldable pub trigger_workflow :
    Fresh → ℕ → WorkflowTriggerRequest → Action Store WorkflowExecution
trigger_workflow fresh pk req s = trigger_found fresh req (get_workflow pk s) s

-- `session.commit()`
abbrev pub commit_executions : Store → Store
commit_executions s = record s { committed = s.executions }

abbrev pub after_trigger : Result WorkflowExecution → Action Store (Unit {0})
after_trigger (raise e) s = (raise e, s)
after_trigger (return ex) s = (return tt, commit_executions s)

-- the worker's task: a workflow that is gone or inactive is passed over
unfoldable pub trigger_scheduled :
    Fresh → Option WorkflowDefinition → (schedule : String) → Fields → Action Store (Unit {0})
trigger_scheduled fresh none schedule input s = (return tt, s)
trigger_scheduled fresh (some wf) schedule input s =
    let req : WorkflowTriggerRequest = record {
      input_data = some input;
      triggered_by = "schedule";
      correlation_id = some schedule;
    } in
    let (r, s') = trigger_workflow fresh wf.id req s in
    if not wf.is_active then (return tt, s) else after_trigger r s'

module _ (nx : Networkx) where
  unfoldable pub create_workflow : Fresh → WorkflowCreate → Action Store WorkflowDefinition
  create_workflow fresh data_in s = elim (create nx data_in.dag_definition) [
    | raise e ↦ (raise e, s)
    | return dag ↦ add_workflow (new_workflow fresh data_in) s
  ]

  -- the check and the assignment of a new DAG, if one is given
  unfoldable pub update_dag : ℕ → Option DagDefinition → Action Store (Unit {0})
  update_dag pk none s = (return tt, s)
  update_dag pk (some definition) s = elim (create nx definition) [
    | raise e ↦ (raise e, s)
    | return dag ↦ (return tt, put_workflow pk (replace_dag definition) s)
  ]

  abbrev pub after_dag :
      ℕ → WorkflowUpdate → Result (Unit {0}) → Action Store (Option WorkflowDefinition)
  after_dag pk data_in (raise e) s = (raise e, s)
  after_dag pk data_in (return _) s =
      let s' = put_workflow pk (finish_update data_in) s in
      if clashes pk data_in.name s'
      then (raise integrity_error, s')
      else (return (get_workflow pk s'), s')

  -- The name and the description are assigned before the new DAG is checked.
  unfoldable pub update_workflow : ℕ → WorkflowUpdate → Action Store (Option WorkflowDefinition)
  update_workflow pk data_in s = elim (get_workflow pk s) [
    | none ↦ (return none, s)
    | some wf ↦
        let (r, s') = update_dag pk data_in.dag_definition (put_workflow pk (rename data_in) s) in
        after_dag pk data_in r s'
  ]

  -- `validate_dag`: the execution order of a definition that is accepted
  unfoldable pub validate_dag : DagDefinition → Result (List (List String))
  validate_dag definition = elim (create nx definition) [
    | raise e ↦ raise e
    | return dag ↦ return (get_execution_order nx dag)
  ]
