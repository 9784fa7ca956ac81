-- ===== src/Workflow/Tasks.antt =====
-- app/tasks/__init__.py and app/tasks/base.py: the registry of the task handlers and their results.
use python_backend_projects.Base.{
  ℕ, String, ◌<>◌, Bool, Option, Result, return, raise, Exception, value_error, ◌==◌, if◌then◌else◌,
}
use python_backend_projects.Base.Value.{Value}

pub data TaskClass : Type 0 where
  http_task python_task delay_task condition_task transform_task : TaskClass

unfoldable pub get_task_class : String → Result TaskClass
get_task_class task_type =
    if task_type == "http"
    then return http_task
    else if task_type == "python"
    then return python_task
    else if task_type == "delay"
    then return delay_task
    else if task_type == "condition"
    then return condition_task
    else if task_type == "transform"
    then return transform_task
    else raise (value_error ("Unknown task type: " <> task_type))

-- What a handler puts out: a JSON value, an object with `model_dump`, or any other object, which is
-- kept by its `str`.
pub data Output : Type 0 where
  json : Value → Output
  model : Value → Output
  opaque : String → Output

-- `output` is absent for None.
pub record TaskResult : Type 0 where
  pub success : Bool
  pub output : Option Output
  pub error : Option String
  pub duration_ms : ℕ

-- How `asyncio.wait_for(handler.execute(config, input), timeout)` ends.
pub data Outcome : Type 0 where
  finished : TaskResult → Outcome
  timed_out : Outcome
  crashed : Exception → Outcome
