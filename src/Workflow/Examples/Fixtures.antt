-- ===== src/Workflow/Examples/Fixtures.antt =====
-- Concrete data for the tests: a workflow of two tasks, its executions, and a quiet outside.
use python_backend_projects.Base.{◌+◌, ◌*◌, String, false, true, none, some, List, [], ◌∷◌}
use python_backend_projects.Base.Int.{pos}
use python_backend_projects.Base.Value.{end}
use python_backend_projects.Workflow.StateMachine.{ExecutionState, value}
use python_backend_projects.Workflow.Schemas.{TaskConfig, DagDefinition}
use python_backend_projects.Workflow.Models.{
  TaskStatus, TaskExecution, WorkflowExecution, WorkflowDefinition,
}
use python_backend_projects.Workflow.Graphs.Adjacency.{adjacency}
use python_backend_projects.Workflow.Dag.{DagNode, Dag, task_node}
use python_backend_projects.Workflow.Tasks.{finished}
use python_backend_projects.Workflow.Executor.{Env, Session}

abbrev pub task : String → TaskConfig
task id = record {
  id = id;
  type = "http";
  name = id;
  config = end;
  retry = some (record {
    max_attempts = pos 3;
    strategy = "linear";
    delay_seconds = pos 2;
    max_delay_seconds = pos 60;
  });
  timeout_seconds = none;
}

abbrev pub fetch_and_store : DagDefinition
fetch_and_store = record {
  tasks = task "fetch" ∷ task "store" ∷ [];
  edges = record { from_task = "fetch"; to_task = "store"; condition = none } ∷ [];
}

abbrev pub workflow : WorkflowDefinition
workflow = record {
  id = 7;
  name = "nightly";
  description = none;
  version = 1;
  dag_definition = fetch_and_store;
  input_schema = none;
  is_active = true;
  created_by = "ops";
  created_at = 0;
  updated_at = 0;
}

abbrev pub fetch_node : DagNode
fetch_node = task_node (task "fetch")

-- what `create` builds of the two tasks
unfoldable pub fetch_dag : Dag adjacency
unfolding adjacency
fetch_dag = record {
  nodes =
      ("fetch", record (task_node (task "fetch")) { dependents = "store" ∷ [] })
      ∷ ("store", record (task_node (task "store")) { dependencies = "fetch" ∷ [] })
      ∷ [];
  graph = ("fetch" ∷ "store" ∷ [], ("fetch", "store") ∷ []);
}

abbrev pub fetch_row : TaskExecution
fetch_row = record {
  id = 20;
  execution_id = 5;
  task_definition_id = "fetch";
  task_name = "fetch";
  task_type = "http";
  status = TaskStatus.pending;
  input_data = none;
  output_data = none;
  error = none;
  attempt = 1;
  max_attempts = 3;
  started_at = none;
  completed_at = none;
  duration_ms = none;
  created_at = 0;
}

abbrev pub store_row : TaskExecution
store_row = record fetch_row { id = 21; task_definition_id = "store"; task_name = "store" }

abbrev pub execution_of : ExecutionState → List TaskExecution → WorkflowExecution
execution_of state rows = record {
  id = 5;
  execution_id = "ex-5";
  workflow_id = 7;
  status = value state;
  input_data = none;
  output_data = none;
  error = none;
  started_at = none;
  completed_at = none;
  created_at = 0;
  triggered_by = "api";
  correlation_id = none;
  task_executions = rows;
}

abbrev pub session_of : WorkflowExecution → Session
session_of ex = record { execution = ex; committed = ex; events = []; sleeps = []; ticks = 0 }

-- A clock that goes up, no other session, and handlers that report a failure.
abbrev pub quiet : Env
quiet = record {
  now = λ n. 1000 * n;
  random = λ n. 0;
  new_id = λ n. 100 + n;
  refreshed = λ n row. row;
  run_task = λ n class config input timeout.
      finished
        (record { success = false; output = none; error = some "no route"; duration_ms = 0 });
}
