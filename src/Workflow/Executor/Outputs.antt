-- ===== src/Workflow/Executor/Outputs.antt =====
-- The outputs that `execute_workflow` (app/engine/executor.py) collects from the rows of the tasks.
use python_backend_projects.Base.{
  String, ◌≡◌, refl, ◌∙◌, ap, Option, none, some, List, [], ◌∷◌, ◌==◌, if◌then◌else◌, arith,
}
use python_backend_projects.Base.Dict.{lookup, lookup-insert}
use python_backend_projects.Base.Value.{Value}
use python_backend_projects.Workflow.Models.{TaskStatus, TaskExecution}
use python_backend_projects.Workflow.Executor.Run.{
  Settled, store_output, note_task, scan_tasks, nothing_settled,
}

abbrev pub or_else : Option Value → Option Value → Option Value
or_else none other = other
or_else (some v) other = some v

-- the output of a row of that task, if it is completed
abbrev pub output_in : String → TaskExecution → TaskStatus → Option Value
output_in task te TaskStatus.completed =
    if task == te.task_definition_id then te.output_data else none
output_in task te status = none

-- the output of the last completed row of a task that has one
abbrev pub output_for : String → List TaskExecution → Option Value
output_for task [] = none
output_for task (te ∷ rest) = or_else (output_for task rest) (output_in task te te.status)

lookup-store_output :
    (task id : String) (o : Option Value) (l : Settled)
    → lookup task (store_output id o l.task_outputs)
      ≡ or_else (if task == id then o else none) (lookup task l.task_outputs)
lookup-store_output task id none l = ground arith
lookup-store_output task id (some v) l = ground (arith, lookup-insert id task v l.task_outputs)

lookup-note_task :
    (task : String) (te : TaskExecution) (status : TaskStatus) (l : Settled)
    → lookup task (note_task te status l).task_outputs
      ≡ or_else (output_in task te status) (lookup task l.task_outputs)
unfolding note_task
lookup-note_task task te TaskStatus.completed l =
    lookup-store_output task te.task_definition_id te.output_data l
lookup-note_task task te TaskStatus.pending l = refl
lookup-note_task task te TaskStatus.running l = refl
lookup-note_task task te TaskStatus.failed l = refl
lookup-note_task task te TaskStatus.skipped l = refl
lookup-note_task task te TaskStatus.cancelled l = refl

or_else_assoc : (a b c : Option Value) → or_else a (or_else b c) ≡ or_else (or_else a b) c
or_else_assoc none b c = refl
or_else_assoc (some v) b c = refl

lookup-scan_from :
    (task : String) (tes : List TaskExecution) (l : Settled)
    → lookup task (scan_tasks tes l).task_outputs
      ≡ or_else (output_for task tes) (lookup task l.task_outputs)
unfolding scan_tasks
lookup-scan_from task [] l = refl
lookup-scan_from task (te ∷ rest) l =
    lookup-scan_from task rest (note_task te te.status l)
    ∙ ap (or_else (output_for task rest)) (lookup-note_task task te te.status l)
    ∙ or_else_assoc (output_for task rest) (output_in task te te.status)
        (lookup task l.task_outputs)

or_else-none : (a : Option Value) → or_else a none ≡ a
or_else-none none = refl
or_else-none (some v) = refl

pub lookup-scan :
    (task : String) (tes : List TaskExecution)
    → lookup task (scan_tasks tes nothing_settled).task_outputs ≡ output_for task tes
lookup-scan task tes =
    lookup-scan_from task tes nothing_settled ∙ or_else-none (output_for task tes)
