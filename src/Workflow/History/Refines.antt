-- ===== src/Workflow/History/Refines.antt =====
-- The row's life refines the state machine.
use python_backend_projects.Base.{
  subst, ◌≡◌, refl, sym, ◌∙◌, ap, ◌⊎◌, false, return, Bool-cases, inl, inr, arith,
}
use python_backend_projects.Workflow.StateMachine.{
  ExecutionState, value, of_value, can_transition_to, contains_state,
}
use python_backend_projects.Workflow.StateMachine.Lifecycle.{
  Reach, here, next, of_value-value, Reach-terminal,
}
use python_backend_projects.Workflow.Models.{WorkflowExecution}
use python_backend_projects.Workflow.Graphs.{Networkx}
use python_backend_projects.Workflow.Executor.{Env, Session, cancel_execution}
use python_backend_projects.Workflow.Executor.Cancel.{cancel_execution_commits}
use python_backend_projects.Workflow.Services.Executions.{reset_execution, refused_states}
use python_backend_projects.Workflow.History.{
  IsLoaded, Moves, run, cancel, fail, retry, History, loaded, then_moves,
}
use python_backend_projects.Workflow.History.Steps.{
  IsIn, granted, Reach-trans, fail_execution-Follows, execute_workflow-Follows,
}

-- The row's status is the value of a state that requests to the machine get to.
pub record Tracks (from : ExecutionState) (row : WorkflowExecution) : Type 0 where
  pub state : ExecutionState
  pub status : row.status ≡ value state
  pub reach : Reach from state

loaded-IsIn :
    (row : WorkflowExecution) (s : Session) (state : ExecutionState)
    → IsLoaded s row
    → row.status ≡ value state
    → IsIn state s
loaded-IsIn row s state l h = record {
  held = ap (λ (r : WorkflowExecution). r.status) l.held ∙ h;
  stored = ap (λ (r : WorkflowExecution). r.status) l.stored ∙ h;
}

cancelled_status :
    (env : Env) (s : Session) (state : ExecutionState)
    → IsIn state s
    → Tracks state (cancel_execution env s).1.committed
cancelled_status env s state h =
    let (r, saved, tasks, status) =
      cancel_execution_commits env state s (ap of_value h.held ∙ of_value-value state) in
    elim (Bool-cases (can_transition_to state ExecutionState.cancelled)) [
      | inl e ↦ record {
        state = ExecutionState.cancelled;
        status = ground (arith, status, e);
        reach = next {t = state} here (granted state ExecutionState.cancelled e);
      }
      | inr e ↦ record { state = state; status = ground (arith, status, e, h.held); reach = here }
    ]

-- what a retry requires of the state, in terms of the machine
retry-Reach :
    (state : ExecutionState)
    → contains_state refused_states state ≡ false
    → Reach state ExecutionState.pending
unfolding contains_state can_transition_to
retry-Reach ExecutionState.pending h = here
retry-Reach ExecutionState.running h = cc
retry-Reach ExecutionState.completed h = cc
retry-Reach ExecutionState.failed h = next {t = ExecutionState.failed} here (granted _ _ refl)
retry-Reach ExecutionState.cancelled h = cc
retry-Reach ExecutionState.timed_out h = next {t = ExecutionState.timed_out} here (granted _ _ refl)

module _ (nx : Networkx) where
  Moves-Tracks :
      (row after : WorkflowExecution) (state : ExecutionState)
      → row.status ≡ value state
      → Moves nx row after
      → Tracks state after
  unfolding reset_execution
  Moves-Tracks row _ state h (run env wf s alone l) =
      let f = execute_workflow-Follows nx env alone wf state s (loaded-IsIn row s state l h) in
      record { state = f.state; status = f.is_in.stored; reach = f.reach }
  Moves-Tracks row _ state h (cancel env s l) =
      cancelled_status env s state (loaded-IsIn row s state l h)
  Moves-Tracks row _ state h (fail env s l) =
      let f = fail_execution-Follows env state s (loaded-IsIn row s state l h) in
      record { state = f.state; status = f.is_in.stored; reach = f.reach }
  Moves-Tracks row _ state h (retry other known allowed) =
      let was : of_value row.status ≡ return state = ap of_value h ∙ of_value-value state in
      let same : other ≡ state = cc in
      record {
        state = ExecutionState.pending;
        status = refl;
        reach = subst (λ s. Reach s ExecutionState.pending) same (retry-Reach other allowed);
      }

  track-History :
      (row after : WorkflowExecution) (state : ExecutionState)
      → row.status ≡ value state
      → History nx row after
      → Tracks state after
  track-History row _ state h loaded = record { state = state; status = h; reach = here }
  track-History row after state h (then_moves {middle} past move) =
      let before = track-History row middle state h past in
      let last = Moves-Tracks middle after before.state before.status move in
      record {
        state = last.state;
        status = last.status;
        reach = Reach-trans state before.state last.state before.reach last.reach;
      }

  -- Whatever sequence of runs, cancellations, failures and retries an execution's row goes through,
  -- while no other session writes it during a run, its status is always that of a state which the
  -- state machine gets to from the first one; completed and cancelled rows keep their status.
  pub History-Tracks :
      (row after : WorkflowExecution) (state : ExecutionState)
      → row.status ≡ value state
      → History nx row after
      → Tracks state after
        × ((state ≡ ExecutionState.completed) ⊎ (state ≡ ExecutionState.cancelled)
            → after.status ≡ row.status)
  History-Tracks row after state h history =
      let t = track-History row after state h history in
      (t, λ end. t.status ∙ ap value (Reach-terminal state t.state end t.reach) ∙ sym h)
