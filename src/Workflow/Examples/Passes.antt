-- ===== src/Workflow/Examples/Passes.antt =====
-- Passes of the scheduler (app/engine/scheduler.py) at concrete inputs, with a clock for croniter.
use python_backend_projects.Base.{
  ℕ, ◌+◌, ◌≡◌, refl, true, false, none, some, [], ◌∷◌, ◌++◌, return, arith, if◌then◌else◌, str_dec,
  ◌==◌, Option, String,
}
use python_backend_projects.Base.Rows.{find_row}
use python_backend_projects.Workflow.Models.{WorkflowSchedule}
use python_backend_projects.Workflow.Scheduler.{
  Croniter, IsCroniter, Desk, holds, trigger_message, check_one, check_and_trigger, check_locked,
  check_next, trigger_due,
}
use python_backend_projects.Workflow.Scheduler.Pass.{check_and_trigger-locks}
use python_backend_projects.Workflow.Scheduler.Once.{is_due, check_one-queue, check_one-not_due}
use python_backend_projects.Workflow.Services.{Store}
use python_backend_projects.Workflow.Services.Workflows.{Fresh}
use python_backend_projects.Workflow.Services.Schedules.{
  ScheduleCreate, ScheduleUpdate, create_schedule, update_schedule, toggle_schedule,
  delete_schedule,
}
use python_backend_projects.Workflow.Services.Schedules.Valid.{
  IsScheduled, AllScheduled, schedules-AllScheduled,
}
use python_backend_projects.Workflow.Examples.Fixtures.{workflow}

-- every ten units of time
abbrev every_ten : Croniter
every_ten = record { get_next = λ expression base. return (base + 10) }

return-injective : (a b : ℕ) → return a ≡ return b → a ≡ b
return-injective a b e = cc

every_ten-IsCroniter : IsCroniter every_ten
every_ten-IsCroniter = record {
  later = λ expression base next h.
      let same = return-injective (base + 10) next h in omega (arith, same);
}

abbrev nightly : WorkflowSchedule
nightly = record {
  id = 3;
  workflow_id = 7;
  name = "nightly";
  cron_expression = "0 2 * * *";
  timezone = "UTC";
  is_active = true;
  input_data = none;
  last_run_at = none;
  next_run_at = some 40;
  total_runs = 0;
  created_at = 0;
  updated_at = 0;
}

abbrev free_desk : Desk
free_desk = record { locks = 9 ∷ []; queue = [] }

check_and_trigger-locks_example :
    holds 9 (check_and_trigger every_ten (workflow ∷ []) 50 (nightly ∷ []) free_desk).2.locks
    ≡ holds 9 (9 ∷ [])
check_and_trigger-locks_example =
    check_and_trigger-locks every_ten (workflow ∷ []) 50 (nightly ∷ []) free_desk 9

check_one-queue_example :
    (holds 3 (9 ∷ []) ≡ false
      → (check_one every_ten (workflow ∷ []) 50 nightly free_desk).2.queue
        ≡ (if is_due (workflow ∷ []) 50 nightly then [] ++ (trigger_message nightly ∷ []) else []))
    × (holds 3 (9 ∷ []) ≡ true
        → check_one every_ten (workflow ∷ []) 50 nightly free_desk
          ≡ (return tt, nightly, free_desk))
check_one-queue_example = check_one-queue every_ten (workflow ∷ []) 50 nightly free_desk

check_one-not_due_example :
    is_due (workflow ∷ []) 50 (check_one every_ten (workflow ∷ []) 50 nightly free_desk).1 ≡ false
unfolding check_one check_locked check_next trigger_due find_row
check_one-not_due_example =
    check_one-not_due every_ten every_ten-IsCroniter (workflow ∷ []) 50 nightly free_desk refl refl

-- an expression is refused if it is empty
abbrev refuse_empty : String → Option String
refuse_empty expression = if expression == "" then some "Exactly 5 columns" else none

abbrev nightly_store : Store
nightly_store = record {
  executions = [];
  committed = [];
  workflows = workflow ∷ [];
  schedules = nightly ∷ [];
  queue = [];
}

nightly-IsScheduled : IsScheduled every_ten refuse_empty nightly
unfolding str_dec
nightly-IsScheduled = record { accepted = refl; next = (40, refl) }

schedules-AllScheduled_example :
    ((fresh : Fresh) (d : ScheduleCreate)
      → AllScheduled every_ten refuse_empty
          (create_schedule every_ten refuse_empty fresh d nightly_store).1)
    × ((pk now : ℕ) (d : ScheduleUpdate)
        → AllScheduled every_ten refuse_empty
            (update_schedule every_ten refuse_empty pk now d nightly_store).1)
    × ((pk : ℕ) → AllScheduled every_ten refuse_empty (toggle_schedule pk nightly_store).1)
    × ((pk : ℕ) → AllScheduled every_ten refuse_empty (delete_schedule pk nightly_store).1)
schedules-AllScheduled_example =
    schedules-AllScheduled every_ten refuse_empty nightly_store (nightly-IsScheduled, tt)
