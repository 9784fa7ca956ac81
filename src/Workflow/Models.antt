-- ===== src/Workflow/Models.antt =====
-- app/models: the rows of the tables. A UUID key is a number, since it is only compared; a time is
-- a number of microseconds. A JSON column is absent (NULL) or a value.
use python_backend_projects.Base.{ℕ, String, Bool, Option, List}
use python_backend_projects.Base.Int.{ℤ}
use python_backend_projects.Base.Value.{Value, Fields}
use python_backend_projects.Workflow.Schemas.{DagDefinition}

-- the values that the code writes to `TaskExecution.status`
pub data TaskStatus : Type 0 where
  pending running completed failed skipped cancelled : TaskStatus

pub record TaskExecution : Type 0 where
  pub id : ℕ
  pub execution_id : ℕ
  pub task_definition_id : String
  pub task_name : String
  pub task_type : String
  pub status : TaskStatus
  pub input_data : Option Fields
  pub output_data : Option Value
  pub error : Option String
  pub attempt : ℕ
  pub max_attempts : ℕ
  pub started_at : Option ℕ
  pub completed_at : Option ℕ
  pub duration_ms : Option ℤ
  pub created_at : ℕ

-- The status column holds a text; what the code writes is the value of an `ExecutionState`.
pub record WorkflowExecution : Type 0 where
  pub id : ℕ
  pub execution_id : String
  pub workflow_id : ℕ
  pub status : String
  pub input_data : Option Fields
  pub output_data : Option Value
  pub error : Option String
  pub started_at : Option ℕ
  pub completed_at : Option ℕ
  pub created_at : ℕ
  pub triggered_by : String
  pub correlation_id : Option String
  pub task_executions : List TaskExecution

-- The JSON column `dag_definition` is always written by `model_dump` and read by `model_validate`
-- of the same schema, so it is that schema here.
pub record WorkflowDefinition : Type 0 where
  pub id : ℕ
  pub name : String
  pub description : Option String
  pub version : ℕ
  pub dag_definition : DagDefinition
  pub input_schema : Option Fields
  pub is_active : Bool
  pub created_by : String
  pub created_at : ℕ
  pub updated_at : ℕ

pub record WorkflowSchedule : Type 0 where
  pub id : ℕ
  pub workflow_id : ℕ
  pub name : String
  pub cron_expression : String
  pub timezone : String
  pub is_active : Bool
  pub input_data : Option Fields
  pub last_run_at : Option ℕ
  pub next_run_at : Option ℕ
  pub total_runs : ℕ
  pub created_at : ℕ
  pub updated_at : ℕ
