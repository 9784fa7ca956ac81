-- ===== src/Workflow/Executor/State.antt =====
-- The state that the methods of app/engine/executor.py share: the execution as the session holds
-- it, the row as it is committed, the published events, and a count of the readings of the outside.
use python_backend_projects.Base.{
  ℕ, suc, String, Option, none, some, List, [], ◌∷◌, ◌++◌, Action, return, ◌==◌, if◌then◌else◌,
}
use python_backend_projects.Base.Int.{ℤ}
use python_backend_projects.Base.Value.{Fields}
use python_backend_projects.Workflow.Models.{TaskExecution, WorkflowExecution}
use python_backend_projects.Workflow.Tasks.{TaskClass, Outcome}

pub data Event : Type 0 where
  execution_started : (execution workflow : ℕ) (status : String) → Event
  execution_cancelled execution_failed execution_completed :
      (execution : ℕ) (status : String) → Event
  task_running : (execution : ℕ) (task : String) (attempt : ℕ) → Event
  task_completed task_skipped : (execution : ℕ) (task : String) → Event
  task_failed : (execution : ℕ) (task : String) (error : Option String) → Event

-- The outside, at the n-th time it is asked.
pub record Env : Type 0 where
  -- `datetime.now(timezone.utc)`
  pub now : ℕ → ℕ
  -- `random.random()`, in units of 2^-53
  pub random : ℕ → ℕ
  -- a new UUID
  pub new_id : ℕ → ℕ
  -- the row that a refresh reads: what other sessions have made of the committed one
  pub refreshed : ℕ → WorkflowExecution → WorkflowExecution
  -- a handler run under `asyncio.wait_for`
  pub run_task : ℕ → TaskClass → (config input : Fields) → (timeout : ℤ) → Outcome

pub record Session : Type 0 where
  pub execution : WorkflowExecution
  pub committed : WorkflowExecution
  pub events : List Event
  -- the delays slept, in units of 2^-53 seconds
  pub sleeps : List ℤ
  pub ticks : ℕ

abbrev pub Step : Type 0 → Type 0
Step A = Action Session A

-- `await self.db.commit()`
abbrev pub commit : Step (Unit {0})
commit s = (return tt, record s { committed = s.execution })

-- `await self._broadcast(event)`: publication on Redis; the workers pass no web socket manager.
abbrev pub broadcast : Event → Step (Unit {0})
broadcast e s = (return tt, record s { events = s.events ++ (e ∷ []) })

abbrev pub tick : Session → Session
tick s = record s { ticks = suc s.ticks }

-- `datetime.now(timezone.utc)`
abbrev pub read_clock : Env → Step ℕ
read_clock env s = (return (env.now s.ticks), tick s)

abbrev pub set_execution : (WorkflowExecution → WorkflowExecution) → Step (Unit {0})
set_execution f s = (return tt, record s { execution = f s.execution })

-- `await asyncio.sleep(delay)`
abbrev pub sleep : ℤ → Step (Unit {0})
sleep delay s = (return tt, record s { sleeps = s.sleeps ++ (delay ∷ []) })

-- Assignments to the attributes of the task execution of that task: the first of the list.
abbrev pub update_first :
    String → (TaskExecution → TaskExecution) → List TaskExecution → List TaskExecution
update_first task f [] = []
update_first task f (te ∷ rest) =
    if te.task_definition_id == task then f te ∷ rest else te ∷ update_first task f rest

abbrev pub update_task : String → (TaskExecution → TaskExecution) → Step (Unit {0})
update_task task f =
    set_execution (λ ex. record ex { task_executions = update_first task f ex.task_executions })

-- the task execution of that task, the first of the list
abbrev pub find_task : String → List TaskExecution → Option TaskExecution
find_task task [] = none
find_task task (te ∷ rest) = if te.task_definition_id == task then some te else find_task task rest

-- `await self.db.refresh(execution)`: the columns are read anew, the loaded tasks stay.
abbrev pub refresh : Env → Step (Unit {0})
refresh env s =
    let row = env.refreshed s.ticks s.committed in
    (
      return tt,
      record s {
        execution = record row { task_executions = s.execution.task_executions };
        committed = row;
        ticks = suc s.ticks;
      },
    )
