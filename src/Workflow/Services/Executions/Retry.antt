-- ===== src/Workflow/Services/Executions/Retry.antt =====
-- When `ExecutionService.retry_execution` starts an execution again, and what it changes.

use python_backend_projects.Base.{
  ℕ, ◌≡◌, ◌≢◌, ◌⊎◌, inl, inr, refl, Bool, Result, true, false, none, some, List, [], ◌∷◌, ◌++◌,
  return, arith, ap, ◌∙◌,
}
use python_backend_projects.Base.Rows.{update_row, find_row, find_row-update_row}
use python_backend_projects.Workflow.StateMachine.{ExecutionState, of_value, contains_state}
use python_backend_projects.Workflow.Models.{TaskStatus, TaskExecution, WorkflowExecution}
use python_backend_projects.Workflow.Executor.{Settled, note_task, scan_tasks}
use python_backend_projects.Workflow.Services.Tables.{Store, execute_workflow_task, execution_key}
use python_backend_projects.Workflow.Services.Executions.{
  get_execution, reset_failed, reset_tasks, reset_execution, refused_states, resubmit, retry_found,
  retry_execution,
}

-- A completed, cancelled or running execution is not started again: nothing changes.
pub retry_execution_refuses :
    (pk : ℕ) (s : Store) (ex : WorkflowExecution) (state : ExecutionState)
    → get_execution pk s ≡ some ex
    → of_value ex.status ≡ return state
    → contains_state refused_states state ≡ true
    → retry_execution pk s ≡ (return false, s)
unfolding retry_execution retry_found
retry_execution_refuses pk s ex state found known refused =
    rw (found, known, refused, retry_execution)

row_id :
    (pk : ℕ) (rows : List WorkflowExecution) (ex : WorkflowExecution)
    → find_row execution_key pk rows ≡ some ex
    → ex.id ≡ pk
unfolding find_row
row_id pk [] ex found = cc
row_id pk (x ∷ rows) ex found = ground (arith, found, row_id pk rows ex)

reset_execution-id :
    (ex : WorkflowExecution) → execution_key (reset_execution ex) ≡ execution_key ex
unfolding reset_execution
reset_execution-id ex = refl

row_of : (pk : ℕ) (s : Store) (ex : WorkflowExecution) → get_execution pk s ≡ some ex → ex.id ≡ pk
unfolding get_execution
row_of pk s ex found = row_id pk s.executions ex found

after_reset :
    (pk : ℕ) (s s' : Store) (ex : WorkflowExecution)
    → get_execution pk s ≡ some ex
    → s'.executions ≡ update_row execution_key ex.id reset_execution s.executions
    → (get_execution pk s' ≡ some (reset_execution ex))
      × ((other : ℕ) → other ≢ pk → get_execution other s' ≡ get_execution other s)
unfolding get_execution
after_reset pk s s' ex found rows =
    let same = row_id pk s.executions ex found in
    (
      ground (
        arith,
        found,
        same,
        rows,
        find_row-update_row execution_key ex.id pk reset_execution s.executions reset_execution-id,
      ),
      λ other ne. ground (
        arith,
        found,
        same,
        ne,
        rows,
        find_row-update_row execution_key ex.id other reset_execution s.executions
            reset_execution-id,
      ),
    )

-- In a state that is not refused the row is reset and committed, and one message is sent.
resubmits :
    (pk : ℕ) (s : Store) (ex : WorkflowExecution) (state : ExecutionState)
    → get_execution pk s ≡ some ex
    → of_value ex.status ≡ return state
    → contains_state refused_states state ≡ false
    → let (r, s') = retry_execution pk s in
      (r ≡ return true)
      × (s'.committed ≡ s'.executions)
      × (get_execution pk s' ≡ some (reset_execution ex))
      × ((other : ℕ) → other ≢ pk → get_execution other s' ≡ get_execution other s)
      × (s'.queue ≡ s.queue ++ (execute_workflow_task pk ∷ []))
unfolding retry_execution retry_found resubmit
resubmits pk s ex state found known allowed =
    let same = row_of pk s ex found in
    rw (found, known, allowed, retry_execution)
      (
        refl,
        refl,
        (after_reset pk s _ ex found refl).0,
        (after_reset pk s _ ex found refl).1,
        ap (λ k. s.queue ++ (execute_workflow_task k ∷ [])) same,
      )

-- A failed task is pending again, as before its first attempt; any other is as it was.
abbrev pub Restarted : (old new : TaskExecution) → Type 0
Restarted old new =
    ((old.status ≡ TaskStatus.failed)
      × (new ≡ record old {
        status = TaskStatus.pending;
        error = none;
        output_data = none;
        attempt = 1;
        started_at = none;
        completed_at = none;
        duration_ms = none;
      }))
    ⊎ ((old.status ≢ TaskStatus.failed) × (new ≡ old))

-- place by place
abbrev pub AreRestarted : (old new : List TaskExecution) → Type 0
AreRestarted [] [] = Unit
AreRestarted [] (y ∷ ys) = ⊥
AreRestarted (x ∷ xs) [] = ⊥
AreRestarted (x ∷ xs) (y ∷ ys) = Restarted x y × AreRestarted xs ys

reset_failed-Restarted :
    (te : TaskExecution) (status : TaskStatus)
    → te.status ≡ status
    → Restarted te (reset_failed te status)
reset_failed-Restarted te TaskStatus.failed e = inl (e, refl)
reset_failed-Restarted te TaskStatus.pending e = inr ((λ h. cc), refl)
reset_failed-Restarted te TaskStatus.running e = inr ((λ h. cc), refl)
reset_failed-Restarted te TaskStatus.completed e = inr ((λ h. cc), refl)
reset_failed-Restarted te TaskStatus.skipped e = inr ((λ h. cc), refl)
reset_failed-Restarted te TaskStatus.cancelled e = inr ((λ h. cc), refl)

reset_tasks-AreRestarted : (tes : List TaskExecution) → AreRestarted tes (reset_tasks tes)
unfolding reset_tasks
reset_tasks-AreRestarted [] = tt
reset_tasks-AreRestarted (te ∷ rest) =
    (reset_failed-Restarted te te.status refl, reset_tasks-AreRestarted rest)

-- The execution of that key is pending, with no error, end or output and with its tasks restarted,
-- and committed; every other row stays, and one message asks the workers to run it.
pub record IsResubmitted (pk : ℕ) (s : Store) (ex : WorkflowExecution) (s' : Store) : Type 0 where
  pub saved : s'.committed ≡ s'.executions
  pub tasks : List TaskExecution
  pub restarted : AreRestarted ex.task_executions tasks
  pub row :
      get_execution pk s'
      ≡ some record ex {
        status = "pending";
        error = none;
        completed_at = none;
        output_data = none;
        task_executions = tasks;
      }
  pub others : (other : ℕ) → other ≢ pk → get_execution other s' ≡ get_execution other s
  pub message : s'.queue ≡ s.queue ++ (execute_workflow_task pk ∷ [])

-- how a retry ends in a state
abbrev pub RetriesAs : ℕ → Store → WorkflowExecution → ExecutionState → Result Bool × Store → Type 0
RetriesAs pk s ex ExecutionState.completed end = end ≡ (return false, s)
RetriesAs pk s ex ExecutionState.cancelled end = end ≡ (return false, s)
RetriesAs pk s ex ExecutionState.running end = end ≡ (return false, s)
RetriesAs pk s ex ExecutionState.pending (r, s') = (r ≡ return true) × IsResubmitted pk s ex s'
RetriesAs pk s ex ExecutionState.failed (r, s') = (r ≡ return true) × IsResubmitted pk s ex s'
RetriesAs pk s ex ExecutionState.timed_out (r, s') = (r ≡ return true) × IsResubmitted pk s ex s'

resubmits-IsResubmitted :
    (pk : ℕ) (s : Store) (ex : WorkflowExecution) (state : ExecutionState)
    → get_execution pk s ≡ some ex
    → of_value ex.status ≡ return state
    → contains_state refused_states state ≡ false
    → ((retry_execution pk s).0 ≡ return true) × IsResubmitted pk s ex (retry_execution pk s).1
unfolding reset_execution
resubmits-IsResubmitted pk s ex state found known allowed =
    let (done, saved, row, others, message) = resubmits pk s ex state found known allowed in
    (
      done,
      record {
        saved = saved;
        tasks = reset_tasks ex.task_executions;
        restarted = reset_tasks-AreRestarted ex.task_executions;
        row = row;
        others = others;
        message = message;
      },
    )

-- A retry of an execution that is completed, cancelled or running answers False and changes
-- nothing. One that is pending, failed or timed out is started again: its row is pending, without
-- an error, an end or an output, each failed task of it is pending again at attempt 1 without an
-- error, an output and times, and no other task changes; that is committed, every other row stays,
-- and one message asks the workers to run it.
pub retry_execution-RetriesAs :
    (pk : ℕ) (s : Store) (ex : WorkflowExecution) (state : ExecutionState)
    → get_execution pk s ≡ some ex
    → of_value ex.status ≡ return state
    → RetriesAs pk s ex state (retry_execution pk s)
unfolding contains_state
retry_execution-RetriesAs pk s ex ExecutionState.completed found known =
    retry_execution_refuses pk s ex ExecutionState.completed found known refl
retry_execution-RetriesAs pk s ex ExecutionState.cancelled found known =
    retry_execution_refuses pk s ex ExecutionState.cancelled found known refl
retry_execution-RetriesAs pk s ex ExecutionState.running found known =
    retry_execution_refuses pk s ex ExecutionState.running found known refl
retry_execution-RetriesAs pk s ex ExecutionState.pending found known =
    resubmits-IsResubmitted pk s ex ExecutionState.pending found known refl
retry_execution-RetriesAs pk s ex ExecutionState.failed found known =
    resubmits-IsResubmitted pk s ex ExecutionState.failed found known refl
retry_execution-RetriesAs pk s ex ExecutionState.timed_out found known =
    resubmits-IsResubmitted pk s ex ExecutionState.timed_out found known refl

note_reset :
    (te : TaskExecution) (status : TaskStatus) (l : Settled)
    → te.status ≡ status
    → note_task (reset_failed te status) (reset_failed te status).status l ≡ note_task te status l
unfolding note_task
note_reset te TaskStatus.pending l e = ap (λ st. note_task te st l) e
note_reset te TaskStatus.running l e = ap (λ st. note_task te st l) e
note_reset te TaskStatus.completed l e = ap (λ st. note_task te st l) e
note_reset te TaskStatus.failed l e = refl
note_reset te TaskStatus.skipped l e = ap (λ st. note_task te st l) e
note_reset te TaskStatus.cancelled l e = ap (λ st. note_task te st l) e

-- After the reset the executor finds settled the tasks that it found settled before, with the same
-- outputs; the failed tasks are pending again.
pub reset_tasks-scan :
    (tes : List TaskExecution) (l : Settled) → scan_tasks (reset_tasks tes) l ≡ scan_tasks tes l
unfolding scan_tasks reset_tasks
reset_tasks-scan [] l = refl
reset_tasks-scan (te ∷ rest) l =
    ap (scan_tasks (reset_tasks rest)) (note_reset te te.status l refl)
    ∙ reset_tasks-scan rest (note_task te te.status l)
