-- ===== src/Workflow/Services/Tables.antt =====
-- The tables and the queue that the services write to.
use python_backend_projects.Base.{ℕ, List, ◌++◌, [], ◌∷◌}
use python_backend_projects.Base.Value.{Fields}
use python_backend_projects.Workflow.Models.{
  WorkflowExecution, WorkflowDefinition, WorkflowSchedule,
}

-- The tasks that are sent to Celery, by their arguments.
pub data Message : Type 0 where
  execute_workflow_task : (execution : ℕ) → Message
  trigger_scheduled_workflow : (workflow schedule : ℕ) (input : Fields) → Message

-- The rows as the session holds them, the rows as they are committed, and the queue.
pub record Store : Type 0 where
  pub executions : List WorkflowExecution
  pub committed : List WorkflowExecution
  pub workflows : List WorkflowDefinition
  pub schedules : List WorkflowSchedule
  pub queue : List Message

abbrev pub execution_key : WorkflowExecution → ℕ
execution_key ex = ex.id

abbrev pub workflow_key : WorkflowDefinition → ℕ
workflow_key wf = wf.id

abbrev pub schedule_key : WorkflowSchedule → ℕ
schedule_key sched = sched.id

-- `celery_app.send_task(...)`
abbrev pub send_task : Message → Store → Store
send_task m s = record s { queue = s.queue ++ (m ∷ []) }
