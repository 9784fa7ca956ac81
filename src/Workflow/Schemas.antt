-- ===== src/Workflow/Schemas.antt =====
-- app/schemas/workflow.py: the definition of a workflow as it is sent to the API and stored.
use python_backend_projects.Base.{String, Option, List}
use python_backend_projects.Base.Int.{ℤ}
use python_backend_projects.Base.Value.{Fields}

pub record RetryConfig : Type 0 where
  pub max_attempts : ℤ
  pub strategy : String
  pub delay_seconds : ℤ
  pub max_delay_seconds : ℤ

pub record TaskConfig : Type 0 where
  pub id : String
  pub type : String
  pub name : String
  pub config : Fields
  pub retry : Option RetryConfig
  pub timeout_seconds : Option ℤ

pub record EdgeConfig : Type 0 where
  pub from_task : String
  pub to_task : String
  pub condition : Option String

pub record DagDefinition : Type 0 where
  pub tasks : List TaskConfig
  pub edges : List EdgeConfig
