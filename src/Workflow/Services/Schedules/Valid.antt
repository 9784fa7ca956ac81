-- ===== src/Workflow/Services/Schedules/Valid.antt =====
-- Every stored schedule has an expression that croniter accepts and a next time
-- (app/services/schedule_service.py).
use python_backend_projects.Base.{
  ℕ, ◌≡◌, refl, String, Option, none, some, Result, return, raise, All, Option-cases, inl, inr,
}
use python_backend_projects.Base.Rows.{All-append, All-update_row, All-remove_row}
use python_backend_projects.Workflow.Models.{WorkflowSchedule}
use python_backend_projects.Workflow.Scheduler.{Croniter}
use python_backend_projects.Workflow.Services.Tables.{Store, schedule_key}
use python_backend_projects.Workflow.Services.Workflows.{Fresh, get_workflow}
use python_backend_projects.Workflow.Services.Schedules.{
  ScheduleCreate, ScheduleUpdate, get_schedule, put_schedule, toggle, toggle_found, toggle_schedule,
  delete_found, delete_schedule, set_name, set_rest, set_expression, set_cron, new_schedule,
  add_schedule, assign_cron, after_cron, next_or_refused, validated_next, create_schedule,
  update_cron, update_schedule,
}

module _ (cron : Croniter) (bad : String → Option String) where
  -- the expression is accepted, and a next time is stored
  pub record IsScheduled (sched : WorkflowSchedule) : Type 0 where
    pub accepted : bad sched.cron_expression ≡ none
    pub next : (n : ℕ) × (sched.next_run_at ≡ some n)

  abbrev pub AllScheduled : Store → Type 0
  AllScheduled s = All IsScheduled s.schedules

  refused_raises :
      (expression : String) (now n : ℕ) (o : Option String)
      → bad expression ≡ o
      → next_or_refused cron bad expression now o ≡ return n
      → bad expression ≡ none
  refused_raises expression now n none e h = e
  refused_raises expression now n (some message) e h = absurd cc

  validated_accepted :
      (expression : String) (now n : ℕ)
      → validated_next cron bad expression now ≡ return n
      → bad expression ≡ none
  unfolding validated_next
  validated_accepted expression now n h = refused_raises expression now n (bad expression) refl h

  add_schedule-AllScheduled :
      (fresh : Fresh) (d : ScheduleCreate) (s : Store) (r : Result ℕ)
      → validated_next cron bad d.cron_expression fresh.now ≡ r
      → AllScheduled s
      → AllScheduled (add_schedule fresh d r s).1
  add_schedule-AllScheduled fresh d s (raise e) known h = h
  add_schedule-AllScheduled fresh d s (return n) known h =
      All-append schedule_key IsScheduled s.schedules (new_schedule fresh d n) h (record {
        accepted = validated_accepted d.cron_expression fresh.now n known;
        next = (n, refl);
      })

  set_cron-IsScheduled :
      (expression : String) (n : ℕ) (sched : WorkflowSchedule)
      → bad expression ≡ none
      → IsScheduled (set_cron expression n sched)
  unfolding set_cron
  set_cron-IsScheduled expression n sched ok = record { accepted = ok; next = (n, refl) }

  set_expression-IsScheduled :
      (expression : String) (sched : WorkflowSchedule)
      → bad expression ≡ none
      → (n : ℕ) × (sched.next_run_at ≡ some n)
      → IsScheduled (set_expression expression sched)
  unfolding set_expression
  set_expression-IsScheduled expression sched ok next = record { accepted = ok; next = next }

  assign_cron-AllScheduled :
      (pk : ℕ) (expression : String) (s : Store) (refused : Option String) (next : Result ℕ)
      → bad expression ≡ refused
      → AllScheduled s
      → AllScheduled (assign_cron pk expression refused next s).1
  assign_cron-AllScheduled pk expression s (some message) next known h = h
  assign_cron-AllScheduled pk expression s none (raise e) known h =
      All-update_row schedule_key IsScheduled pk (set_expression expression) s.schedules
        (λ sched old. set_expression-IsScheduled expression sched known old.next) h
  assign_cron-AllScheduled pk expression s none (return n) known h =
      All-update_row schedule_key IsScheduled pk (set_cron expression n) s.schedules
        (λ sched _. set_cron-IsScheduled expression n sched known) h

  update_cron-AllScheduled :
      (pk now : ℕ) (new : Option String) (s : Store)
      → AllScheduled s
      → AllScheduled (update_cron cron bad pk now new s).1
  update_cron-AllScheduled pk now none s h = h
  update_cron-AllScheduled pk now (some expression) s h =
      assign_cron-AllScheduled pk expression s (bad expression) (cron.get_next expression now) refl
        h

  set_rest-IsScheduled :
      (d : ScheduleUpdate) (sched : WorkflowSchedule)
      → IsScheduled sched
      → IsScheduled (set_rest d sched)
  unfolding set_rest
  set_rest-IsScheduled d sched h = record { accepted = h.accepted; next = h.next }

  set_name-IsScheduled :
      (d : ScheduleUpdate) (sched : WorkflowSchedule)
      → IsScheduled sched
      → IsScheduled (set_name d sched)
  unfolding set_name
  set_name-IsScheduled d sched h = record { accepted = h.accepted; next = h.next }

  toggle-IsScheduled : (sched : WorkflowSchedule) → IsScheduled sched → IsScheduled (toggle sched)
  toggle-IsScheduled sched h = record { accepted = h.accepted; next = h.next }

  after_cron-AllScheduled :
      (pk : ℕ) (d : ScheduleUpdate) (r : Result (Unit {0})) (s : Store)
      → AllScheduled s
      → AllScheduled (after_cron pk d r s).1
  after_cron-AllScheduled pk d (raise e) s h = h
  after_cron-AllScheduled pk d (return _) s h =
      All-update_row schedule_key IsScheduled pk (set_rest d) s.schedules (set_rest-IsScheduled d) h

  toggle_found-AllScheduled :
      (pk : ℕ) (found : Option WorkflowSchedule) (s : Store)
      → AllScheduled s
      → AllScheduled (toggle_found pk found s).1
  toggle_found-AllScheduled pk none s h = h
  toggle_found-AllScheduled pk (some sched) s h =
      All-update_row schedule_key IsScheduled pk toggle s.schedules toggle-IsScheduled h

  delete_found-AllScheduled :
      (pk : ℕ) (found : Option WorkflowSchedule) (s : Store)
      → AllScheduled s
      → AllScheduled (delete_found pk found s).1
  delete_found-AllScheduled pk none s h = h
  delete_found-AllScheduled pk (some sched) s h =
      All-remove_row schedule_key IsScheduled pk s.schedules h

  -- Creating, updating, toggling and deleting a schedule, on every branch, leave every stored
  -- schedule with an expression that croniter accepts and with some next time, if all were so
  -- before; also the branch where a new expression is assigned and the computation of its next time
  -- raises, which leaves the next time of the old expression.
  pub schedules-AllScheduled :
      (s : Store)
      → AllScheduled s
      → ((fresh : Fresh) (d : ScheduleCreate) → AllScheduled (create_schedule cron bad fresh d s).1)
        × ((pk now : ℕ) (d : ScheduleUpdate) → AllScheduled (update_schedule cron bad pk now d s).1)
        × ((pk : ℕ) → AllScheduled (toggle_schedule pk s).1)
        × ((pk : ℕ) → AllScheduled (delete_schedule pk s).1)
  unfolding create_schedule update_schedule toggle_schedule delete_schedule
  schedules-AllScheduled s h = (
    λ fresh d. elim (Option-cases (get_workflow d.workflow_id s)) [
      | inl e ↦ rw (e, create_schedule) h
      | inr (wf, e) ↦ rw (e, create_schedule) (add_schedule-AllScheduled fresh d s _ refl h)
    ],
    λ pk now d. elim (Option-cases (get_schedule pk s)) [
      | inl e ↦ rw (e, update_schedule) h
      | inr (sched, e) ↦
          rw (e, update_schedule)
            (after_cron-AllScheduled pk d _ _ (
              update_cron-AllScheduled pk now d.cron_expression (put_schedule pk (set_name d) s) (
                All-update_row schedule_key IsScheduled pk (set_name d) s.schedules
                  (set_name-IsScheduled d) h)))
    ],
    λ pk. toggle_found-AllScheduled pk (get_schedule pk s) s h,
    λ pk. delete_found-AllScheduled pk (get_schedule pk s) s h,
  )
