-- ===== src/Workflow/Services/Executions/Logs.antt =====
-- app/services/execution_service.py: the task executions of an execution in the order of their
-- creation, as `to_response` and `get_logs` give them.
use python_backend_projects.Base.{
  ℕ, suc, ◌≤◌, String, Option, none, some, List, [], ◌∷◌, map, length, leb, if◌then◌else◌, if-both,
  Bool-cases, inl, inr, All, ◌≡◌, refl, ap, ◌∙◌, arith,
}
use python_backend_projects.Base.Value.{Value}
use python_backend_projects.Workflow.Models.{TaskExecution, TaskStatus, WorkflowExecution}
use python_backend_projects.Workflow.Services.Tables.{Store}
use python_backend_projects.Workflow.Services.Executions.{get_execution}

-- app/schemas/execution.py
pub record TaskLogEntry : Type 0 where
  pub task_execution_id : ℕ
  pub task_name : String
  pub task_type : String
  pub status : TaskStatus
  pub attempt : ℕ
  pub error : Option String
  pub output_summary : Option String

-- `sorted(task_executions, key=lambda x: x.created_at)`, which is stable
unfoldable pub put_task : TaskExecution → List TaskExecution → List TaskExecution
put_task te [] = te ∷ []
put_task te (x ∷ rest) =
    let more = put_task te rest in
    if leb te.created_at x.created_at then te ∷ x ∷ rest else x ∷ more

unfoldable pub by_creation : List TaskExecution → List TaskExecution
by_creation [] = []
by_creation (te ∷ rest) = put_task te (by_creation rest)

unfoldable pub to_response : WorkflowExecution → WorkflowExecution
to_response e = record e { task_executions = by_creation e.task_executions }

-- `str(output)[:500]`, if there is an output
abbrev pub summary_of : (Value → String) → Option Value → Option String
summary_of first_500 none = none
summary_of first_500 (some v) = some (first_500 v)

abbrev pub log_entry : (Value → String) → TaskExecution → TaskLogEntry
log_entry first_500 te = record {
  task_execution_id = te.id;
  task_name = te.task_name;
  task_type = te.task_type;
  status = te.status;
  attempt = te.attempt;
  error = te.error;
  output_summary = summary_of first_500 te.output_data;
}

abbrev pub logs_found : (Value → String) → Option WorkflowExecution → List TaskLogEntry
logs_found first_500 none = []
logs_found first_500 (some ex) = map (log_entry first_500) (by_creation ex.task_executions)

unfoldable pub get_logs : (Value → String) → ℕ → Store → List TaskLogEntry
get_logs first_500 pk s = logs_found first_500 (get_execution pk s)

-- one after the other in time
abbrev pub AreInOrder : List TaskExecution → Type 0
AreInOrder [] = Unit
AreInOrder (te ∷ rest) = All (λ x. te.created_at ≤ x.created_at) rest × AreInOrder rest

All-put_task :
    (P : TaskExecution → Type 0) (te : TaskExecution) (xs : List TaskExecution)
    → P te
    → All P xs
    → All P (put_task te xs)
unfolding put_task
All-put_task P te [] new h = (new, h)
All-put_task P te (x ∷ rest) new h =
    if-both (All P) (leb te.created_at x.created_at) (new, h) (h.0, All-put_task P te rest new h.1)

All-later :
    (a b : ℕ) (xs : List TaskExecution)
    → a ≤ b
    → All (λ x. b ≤ x.created_at) xs
    → All (λ x. a ≤ x.created_at) xs
All-later a b [] le h = h
All-later a b (x ∷ rest) le h = (omega (arith, h.0), All-later a b rest le h.1)

put_task-AreInOrder :
    (te : TaskExecution) (xs : List TaskExecution) → AreInOrder xs → AreInOrder (put_task te xs)
unfolding put_task
put_task-AreInOrder te [] h = (tt, tt)
put_task-AreInOrder te (x ∷ rest) h = elim (Bool-cases (leb te.created_at x.created_at)) [
  | inl le ↦
      let le' : te.created_at ≤ x.created_at = ground (arith, le) in
      rw le ((le', All-later te.created_at x.created_at rest le' h.0), h)
  | inr gt ↦
      let ge : x.created_at ≤ te.created_at = ground (arith, gt) in
      rw gt (
        All-put_task (λ y. x.created_at ≤ y.created_at) te rest ge h.0,
        put_task-AreInOrder te rest h.1,
      )
]

length-put_task :
    (te : TaskExecution) (xs : List TaskExecution) → length (put_task te xs) ≡ suc (length xs)
unfolding put_task
length-put_task te [] = refl
length-put_task te (x ∷ rest) = ground (arith, length-put_task te rest)

-- A response holds as many task executions as the row, in the order of their creation.
to_response-AreInOrder :
    (e : WorkflowExecution)
    → AreInOrder (to_response e).task_executions
      × (length (to_response e).task_executions ≡ length e.task_executions)
unfolding to_response by_creation
to_response-AreInOrder e = (ordered e.task_executions, kept e.task_executions)
  where
    ordered : (xs : List TaskExecution) → AreInOrder (by_creation xs)
    ordered [] = tt
    ordered (x ∷ xs) = put_task-AreInOrder x (by_creation xs) (ordered xs)

    kept : (xs : List TaskExecution) → length (by_creation xs) ≡ length xs
    kept [] = refl
    kept (x ∷ xs) = length-put_task x (by_creation xs) ∙ ap suc (kept xs)
