-- ===== src/Workflow/Services/Executions.antt =====
-- app/services/execution_service.py: `ExecutionService`.
pub mod Logs
pub mod Retry
pub mod Pages
pub mod Stuck
use python_backend_projects.Base.{
  ℕ, ◌+◌, ◌-◌, ◌*◌, min, max, Bool, true, false, ◌&&◌, Option, none, some, List, [], ◌∷◌, map,
  Action, Result, return, raise, String, keep, length, take, drop, nat_eq, ◌==◌, if◌then◌else◌,
}
use python_backend_projects.Base.Int.{at_least_one, ℤ, pos, negsuc}
use python_backend_projects.Base.Dict.{Dict, insert, lookup}
use python_backend_projects.Base.Rows.{find_row, update_row}
use python_backend_projects.Workflow.StateMachine.{ExecutionState, value, of_value, contains_state}
use python_backend_projects.Workflow.Models.{
  WorkflowDefinition, TaskStatus, TaskExecution, WorkflowExecution,
}
use python_backend_projects.Workflow.Services.Tables.{
  Store, execute_workflow_task, execution_key, send_task,
}

unfoldable pub get_execution : ℕ → Store → Option WorkflowExecution
get_execution pk s = find_row execution_key pk s.executions

-- the assignments to a task whose status is "failed"
abbrev pub reset_failed : TaskExecution → TaskStatus → TaskExecution
reset_failed te TaskStatus.failed = record te {
  status = TaskStatus.pending;
  error = none;
  output_data = none;
  attempt = 1;
  started_at = none;
  completed_at = none;
  duration_ms = none;
}
reset_failed te _ = te

unfoldable pub reset_tasks : List TaskExecution → List TaskExecution
reset_tasks [] = []
reset_tasks (te ∷ rest) = reset_failed te te.status ∷ reset_tasks rest

-- the execution as a retry leaves it
unfoldable pub reset_execution : WorkflowExecution → WorkflowExecution
reset_execution ex = record ex {
  status = value ExecutionState.pending;
  error = none;
  completed_at = none;
  output_data = none;
  task_executions = reset_tasks ex.task_executions;
}

abbrev pub refused_states : List ExecutionState
refused_states = ExecutionState.completed ∷ ExecutionState.cancelled ∷ ExecutionState.running ∷ []

-- The writes to the row, the commit, and the message. The move of the state machine to PENDING
-- concerns an object that is dropped: the row becomes pending with or without it.
unfoldable pub resubmit : WorkflowExecution → Action Store Bool
resubmit ex s =
    let rows = update_row execution_key ex.id reset_execution s.executions in
    (
      return true,
      send_task (execute_workflow_task ex.id) (record s { executions = rows; committed = rows }),
    )

-- `retry_execution` of an execution that was found, by the state it is in
unfoldable pub retry_found : WorkflowExecution → Result ExecutionState → Action Store Bool
retry_found ex (raise e) s = (raise e, s)
retry_found ex (return state) s =
    if contains_state refused_states state then (return false, s) else resubmit ex s

unfoldable pub retry_execution : ℕ → Action Store Bool
retry_execution pk s = elim (get_execution pk s) [
  | none ↦ (return false, s)
  | some ex ↦ retry_found ex (of_value ex.status) s
]

-- one page of a list
pub record Page (A : Type 0) : Type 0 where
  pub items : List A
  pub total : ℕ
  pub page : ℕ
  pub size : ℕ

-- the rows in their order, from `.offset((page - 1) * size).limit(size)`
unfoldable pub page_of : {A : Type 0} → List A → (page size : ℤ) → Page A
page_of rows page size =
    let p = at_least_one page in
    let n = min 100 (at_least_one size) in
    record { items = take n (drop ((p - 1) * n) rows); total = length rows; page = p; size = n }

-- the `where` clauses that are added for the filters that are given
unfoldable pub selected : Option ℕ → Option String → WorkflowExecution → Bool
selected workflow_id status ex =
    elim workflow_id [ none ↦ true | some w ↦ nat_eq ex.workflow_id w ]
    && elim status [ none ↦ true | some t ↦ if t == "" then true else ex.status == t ]

-- The rows of the table come newest first, as the database orders them.
unfoldable pub list_executions :
    List WorkflowExecution → Option ℕ → Option String → (page size : ℤ) → Page WorkflowExecution
unfolding page_of selected
list_executions newest_first workflow_id status page size =
    page_of (keep (selected workflow_id status) newest_first) page size

-- `by_status.get(status, 0)`
abbrev pub count_of : String → Dict ℕ → ℕ
count_of status by_status = elim (lookup status by_status) [ none ↦ 0 | some n ↦ n ]

-- `by_status[e.status] = by_status.get(e.status, 0) + 1` over the rows
unfoldable pub count_status : List WorkflowExecution → Dict ℕ → Dict ℕ
count_status [] by_status = by_status
count_status (e ∷ rest) by_status =
    count_status rest (insert e.status (count_of e.status by_status + 1) by_status)

-- `list_workflows` of app/services/workflow_service.py, over the rows with the newest first
unfoldable pub list_workflows :
    List WorkflowDefinition → (page size : ℤ) → List WorkflowDefinition × ℕ
list_workflows newest_first page size =
    let p = page_of (keep (λ (wf : WorkflowDefinition). wf.is_active) newest_first) page size in
    (p.items, p.total)
