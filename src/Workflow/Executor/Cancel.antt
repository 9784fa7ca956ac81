-- ===== src/Workflow/Executor/Cancel.antt =====
-- What `cancel_execution` (app/engine/executor.py) leaves.
use python_backend_projects.Base.{
  ℕ, suc, String, ◌≡◌, ◌≢◌, ◌⊎◌, refl, inl, inr, List, [], ◌∷◌, return, Bool-cases, if◌then◌else◌,
  some, subst,
}
use python_backend_projects.Workflow.StateMachine.{
  ExecutionState, value, of_value, can_transition_to,
}
use python_backend_projects.Workflow.Models.{TaskStatus, TaskExecution}
use python_backend_projects.Workflow.Executor.State.{Env, Session}
use python_backend_projects.Workflow.Executor.Finish.{
  is_unfinished, cancel_tasks, cancel_columns, cancel_all_tasks, cancel_execution,
}

-- A pending or running task becomes cancelled at some time and keeps its other columns; any other
-- is left alone.
pub data CancelledFrom (te te' : TaskExecution) : Type 0 where
  stopped :
      (te.status ≡ TaskStatus.pending) ⊎ (te.status ≡ TaskStatus.running)
      → (now : ℕ) → te' ≡ record te { status = TaskStatus.cancelled; completed_at = some now }
      → CancelledFrom te te'
  kept :
      te.status ≢ TaskStatus.pending
      → te.status ≢ TaskStatus.running
      → te' ≡ te
      → CancelledFrom te te'

-- The two lists hold related tasks, place by place.
abbrev pub Pointwise : List TaskExecution → List TaskExecution → Type 0
Pointwise [] [] = Unit
Pointwise [] (y ∷ ys) = ⊥
Pointwise (x ∷ xs) [] = ⊥
Pointwise (x ∷ xs) (y ∷ ys) = CancelledFrom x y × Pointwise xs ys

cancel_one :
    (te : TaskExecution) (now : ℕ) (status : TaskStatus)
    → te.status ≡ status
    → CancelledFrom te (
        if is_unfinished status
        then record te { status = TaskStatus.cancelled; completed_at = some now }
        else te)
unfolding is_unfinished
cancel_one te now TaskStatus.pending e = stopped (inl e) now refl
cancel_one te now TaskStatus.running e = stopped (inr e) now refl
cancel_one te now TaskStatus.completed e = kept (λ h. cc) (λ h. cc) refl
cancel_one te now TaskStatus.failed e = kept (λ h. cc) (λ h. cc) refl
cancel_one te now TaskStatus.skipped e = kept (λ h. cc) (λ h. cc) refl
cancel_one te now TaskStatus.cancelled e = kept (λ h. cc) (λ h. cc) refl

cancel_tasks-Pointwise :
    (env : Env) (ticks : ℕ) (tes : List TaskExecution)
    → Pointwise tes (cancel_tasks env ticks tes).0
unfolding cancel_tasks
cancel_tasks-Pointwise env ticks [] = tt
cancel_tasks-Pointwise env ticks (te ∷ rest) = (
  cancel_one te (env.now ticks) te.status refl,
  cancel_tasks-Pointwise env (if is_unfinished te.status then suc ticks else ticks) rest,
)

columns-tasks :
    (env : Env) (state : ExecutionState) (s : Session)
    → ((cancel_columns env state s).1.execution.task_executions ≡ s.execution.task_executions)
      × ((cancel_columns env state s).0 ≡ return tt)
      × ((cancel_columns env state s).1.execution.status ≡ (
          if can_transition_to state ExecutionState.cancelled
          then value ExecutionState.cancelled
          else s.execution.status))
unfolding cancel_columns
columns-tasks env state s = elim (Bool-cases (can_transition_to state ExecutionState.cancelled)) [
  | inl e ↦ rw e (refl, refl, refl)
  | inr e ↦ rw e (refl, refl, refl)
]

-- Cancelling commits, with the tasks cancelled, and the status if the state allows that.
pub cancel_execution_commits :
    (env : Env) (state : ExecutionState) (s : Session)
    → of_value s.execution.status ≡ return state
    → let (r, s') = cancel_execution env s in
      (r ≡ return tt)
      × (s'.committed ≡ s'.execution)
      × Pointwise s.execution.task_executions s'.committed.task_executions
      × (s'.committed.status ≡ (
          if can_transition_to state ExecutionState.cancelled
          then value ExecutionState.cancelled
          else s.execution.status))
unfolding cancel_execution cancel_all_tasks
cancel_execution_commits env state s known =
    let (tasks, done, status) = columns-tasks env state s in
    rw (known, done)
      (
        refl,
        refl,
        subst
            (λ tes.
              Pointwise tes
                (cancel_tasks env (cancel_columns env state s).1.ticks
                  (cancel_columns env state s).1.execution.task_executions).0)
            tasks (cancel_tasks-Pointwise env (cancel_columns env state s).1.ticks _),
        status,
      )

-- the status after cancelling in a state
abbrev pub StatusAfter : ExecutionState → (before after : String) → Type 0
StatusAfter ExecutionState.pending before after = after ≡ "cancelled"
StatusAfter ExecutionState.running before after = after ≡ "cancelled"
StatusAfter ExecutionState.completed before after = after ≡ before
StatusAfter ExecutionState.failed before after = after ≡ before
StatusAfter ExecutionState.cancelled before after = after ≡ before
StatusAfter ExecutionState.timed_out before after = after ≡ before

allowed-StatusAfter :
    (state : ExecutionState) (before after : String)
    → (after ≡ (
        if can_transition_to state ExecutionState.cancelled
        then value ExecutionState.cancelled
        else before))
    → StatusAfter state before after
unfolding can_transition_to
allowed-StatusAfter ExecutionState.pending before after h = h
allowed-StatusAfter ExecutionState.running before after h = h
allowed-StatusAfter ExecutionState.completed before after h = h
allowed-StatusAfter ExecutionState.failed before after h = h
allowed-StatusAfter ExecutionState.cancelled before after h = h
allowed-StatusAfter ExecutionState.timed_out before after h = h

-- Cancelling commits: every pending or running task is cancelled and no other is touched, and a
-- pending or running execution is cancelled, while one in any other state keeps its status.
pub cancel_execution_stops :
    (env : Env) (state : ExecutionState) (s : Session)
    → of_value s.execution.status ≡ return state
    → let (r, s') = cancel_execution env s in
      (r ≡ return tt)
      × (s'.committed ≡ s'.execution)
      × Pointwise s.execution.task_executions s'.committed.task_executions
      × StatusAfter state s.execution.status s'.committed.status
cancel_execution_stops env state s known =
    let (done, saved, tasks, status) = cancel_execution_commits env state s known in
    (done, saved, tasks, allowed-StatusAfter state _ _ status)
