-- ===== src/Workflow/Services/Schedules.antt =====
-- app/services/schedule_service.py: `ScheduleService`. The package croniter is a parameter: what it
-- says of an expression, and the next time.
pub mod Valid
use python_backend_projects.Base.{
  ℕ, String, Bool, true, false, not, Option, none, some, List, [], ◌∷◌, ◌++◌, Action, Result,
  return, raise, value_error,
}
use python_backend_projects.Base.Value.{Fields}
use python_backend_projects.Base.Rows.{find_row, update_row, remove_row}
use python_backend_projects.Workflow.Models.{WorkflowSchedule}
use python_backend_projects.Workflow.Scheduler.{Croniter}
use python_backend_projects.Workflow.Services.Tables.{Store, workflow_key, schedule_key}
use python_backend_projects.Workflow.Services.Workflows.{
  Fresh, get_workflow, or_kept, or_kept_option,
}

pub record ScheduleCreate : Type 0 where
  pub workflow_id : ℕ
  pub name : String
  pub cron_expression : String
  pub timezone : String
  pub is_active : Bool
  pub input_data : Option Fields

pub record ScheduleUpdate : Type 0 where
  pub name : Option String
  pub cron_expression : Option String
  pub timezone : Option String
  pub is_active : Option Bool
  pub input_data : Option Fields

unfoldable pub get_schedule : ℕ → Store → Option WorkflowSchedule
get_schedule pk s = find_row schedule_key pk s.schedules

abbrev pub put_schedule : ℕ → (WorkflowSchedule → WorkflowSchedule) → Store → Store
put_schedule pk f s = record s { schedules = update_row schedule_key pk f s.schedules }

abbrev pub toggle : WorkflowSchedule → WorkflowSchedule
toggle sched = record sched { is_active = not sched.is_active }

abbrev pub toggle_found : ℕ → Option WorkflowSchedule → Action Store (Option WorkflowSchedule)
toggle_found pk none s = (return none, s)
toggle_found pk (some sched) s = (return (some (toggle sched)), put_schedule pk toggle s)

unfoldable pub toggle_schedule : ℕ → Action Store (Option WorkflowSchedule)
toggle_schedule pk s = toggle_found pk (get_schedule pk s) s

abbrev pub delete_found : ℕ → Option WorkflowSchedule → Action Store Bool
delete_found pk none s = (return false, s)
delete_found pk (some sched) s =
    (return true, record s { schedules = remove_row schedule_key pk s.schedules })

unfoldable pub delete_schedule : ℕ → Action Store Bool
delete_schedule pk s = delete_found pk (get_schedule pk s) s

-- the assignments of an update but that of the expression
unfoldable pub set_name : ScheduleUpdate → WorkflowSchedule → WorkflowSchedule
set_name data_in sched = record sched { name = or_kept data_in.name sched.name }

unfoldable pub set_rest : ScheduleUpdate → WorkflowSchedule → WorkflowSchedule
set_rest data_in sched = record sched {
  timezone = or_kept data_in.timezone sched.timezone;
  is_active = or_kept data_in.is_active sched.is_active;
  input_data = or_kept_option data_in.input_data sched.input_data;
}

unfoldable pub set_expression : String → WorkflowSchedule → WorkflowSchedule
set_expression expression sched = record sched { cron_expression = expression }

unfoldable pub set_cron : String → ℕ → WorkflowSchedule → WorkflowSchedule
set_cron expression next sched = record sched {
  cron_expression = expression;
  next_run_at = some next;
}

abbrev pub new_schedule : Fresh → ScheduleCreate → ℕ → WorkflowSchedule
new_schedule fresh data_in next = record {
  id = fresh.id;
  workflow_id = data_in.workflow_id;
  name = data_in.name;
  cron_expression = data_in.cron_expression;
  timezone = data_in.timezone;
  is_active = data_in.is_active;
  input_data = data_in.input_data;
  last_run_at = none;
  next_run_at = some next;
  total_runs = 0;
  created_at = fresh.now;
  updated_at = fresh.now;
}

-- the row that is added once the next time is computed
abbrev pub add_schedule : Fresh → ScheduleCreate → Result ℕ → Action Store WorkflowSchedule
add_schedule fresh data_in (raise e) s = (raise e, s)
add_schedule fresh data_in (return next) s =
    let sched = new_schedule fresh data_in next in
    (return sched, record s { schedules = s.schedules ++ (sched ∷ []) })

-- `_validate_cron` of a new expression, its assignment, and only then the computation of its next
-- time
abbrev pub assign_cron :
    ℕ → String → (refused : Option String) → (next : Result ℕ) → Action Store (Unit {0})
assign_cron pk expression (some message) next s = (raise (value_error message), s)
assign_cron pk expression none (raise e) s =
    (raise e, put_schedule pk (set_expression expression) s)
assign_cron pk expression none (return next) s =
    (return tt, put_schedule pk (set_cron expression next) s)

abbrev pub after_cron :
    ℕ → ScheduleUpdate → Result (Unit {0}) → Action Store (Option WorkflowSchedule)
after_cron pk data_in (raise e) s = (raise e, s)
after_cron pk data_in (return _) s =
    let s' = put_schedule pk (set_rest data_in) s in (return (get_schedule pk s'), s')

-- `bad`: the message of the CroniterBadCronError that `croniter(expression)` raises, if it does
module _ (cron : Croniter) (bad : String → Option String) where
  -- `_validate_cron` and then `compute_next_cron_run`
  abbrev pub next_or_refused : String → ℕ → Option String → Result ℕ
  next_or_refused expression now (some message) = raise (value_error message)
  next_or_refused expression now none = cron.get_next expression now

  unfoldable pub validated_next : String → ℕ → Result ℕ
  validated_next expression now = next_or_refused expression now (bad expression)

  unfoldable pub create_schedule : Fresh → ScheduleCreate → Action Store WorkflowSchedule
  create_schedule fresh data_in s = elim (get_workflow data_in.workflow_id s) [
    | none ↦ (raise (value_error "Workflow not found"), s)
    | some wf ↦ add_schedule fresh data_in (validated_next data_in.cron_expression fresh.now) s
  ]

  -- the new expression of an update, if one is given
  abbrev pub update_cron : ℕ → (now : ℕ) → Option String → Action Store (Unit {0})
  update_cron pk now none s = (return tt, s)
  update_cron pk now (some expression) s =
      assign_cron pk expression (bad expression) (cron.get_next expression now) s

  -- The name is assigned before the expression is checked.
  unfoldable pub update_schedule :
      ℕ → (now : ℕ) → ScheduleUpdate → Action Store (Option WorkflowSchedule)
  update_schedule pk now data_in s = elim (get_schedule pk s) [
    | none ↦ (return none, s)
    | some sched ↦
        let (r, s') =
          update_cron pk now data_in.cron_expression (put_schedule pk (set_name data_in) s) in
        after_cron pk data_in r s'
  ]
