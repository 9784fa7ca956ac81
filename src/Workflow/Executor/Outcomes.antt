-- ===== src/Workflow/Executor/Outcomes.antt =====
-- How a run of `execute_workflow` (app/engine/executor.py) ends.
use python_backend_projects.Base.{
  ℕ, suc, ◌+◌, ◌<◌, ◌≡◌, ◌≢◌, refl, sym, ◌∙◌, ap, some, [], ◌∷◌, ◌++◌, return, raise, length,
  lt→ltb, ==-ne,
}
use python_backend_projects.Base.Dict.{Dict}
use python_backend_projects.Base.Value.{Value}
use python_backend_projects.Workflow.StateMachine.{
  ExecutionState, pending, running, value, of_value, can_transition_to,
}
use python_backend_projects.Workflow.StateMachine.Lifecycle.{of_value-value, value-injective}
use python_backend_projects.Workflow.Models.{WorkflowExecution, WorkflowDefinition}
use python_backend_projects.Workflow.Graphs.{Networkx}
use python_backend_projects.Workflow.Dag.{Dag, create}
use python_backend_projects.Workflow.Executor.State.{Env, Session, execution_started, refresh}
use python_backend_projects.Workflow.Executor.Run.{
  Settled, scan_tasks, nothing_settled, lock_unbound, start_execution, first_round, run_loop,
  execute_workflow,
}

-- No other session changes the execution's row during the run.
pub record IsAlone (env : Env) : Type 0 where
  pub unchanged : (n : ℕ) (row : WorkflowExecution) → env.refreshed n row ≡ row

abbrev pub settled_count : Session → ℕ
settled_count s =
    let l = scan_tasks s.execution.task_executions nothing_settled in
    length l.completed + length l.skipped

-- the execution as it is when the loop begins
abbrev pub started_row : Env → Session → WorkflowExecution
started_row env s = record (s.execution) {
  status = value running;
  started_at = some (env.now s.ticks);
}

module _ (nx : Networkx) (env : Env) (alone : IsAlone env) where
  started : Session → WorkflowDefinition → Session
  started s wf = record s {
    execution = started_row env s;
    committed = started_row env s;
    events = s.events ++ (execution_started s.execution.id wf.id (value running) ∷ []);
    ticks = suc s.ticks;
  }

  execute_workflow_starts :
      (wf : WorkflowDefinition) (dag : Dag nx) (s : Session)
      → create nx wf.dag_definition ≡ return dag
      → s.execution.status ≡ value pending
      → execute_workflow nx env (some wf) s
        ≡ run_loop nx env
            (length dag.nodes)
            (scan_tasks s.execution.task_executions nothing_settled)
            (started s wf)
  unfolding execute_workflow start_execution started can_transition_to
  execute_workflow_starts wf dag s built status =
      rw (built, ap of_value status ∙ of_value-value pending)

  run_loop_raises :
      (count : ℕ) (l : Settled) (s : Session)
      → (env.refreshed s.ticks s.committed).status ≢ value ExecutionState.cancelled
      → length l.completed + length l.skipped < count
      → run_loop nx env count l s ≡ (raise lock_unbound, (refresh env s).1)
  unfolding run_loop first_round
  run_loop_raises count l s live more = rw (
    lt→ltb (length l.completed + length l.skipped) count more,
    ==-ne (env.refreshed s.ticks s.committed).status (value ExecutionState.cancelled) live,
  )

  running-ne-cancelled : value running ≢ value ExecutionState.cancelled
  running-ne-cancelled e = absurd (cc (value-injective running ExecutionState.cancelled e))

  -- While no other session changes the row, a pending execution with a valid dag and with fewer
  -- tasks settled than the dag has is committed as running, its start is announced, and then the
  -- run raises NameError with no task begun.
  pub execute_workflow_stuck :
      (wf : WorkflowDefinition) (dag : Dag nx) (s : Session)
      → create nx wf.dag_definition ≡ return dag
      → s.execution.status ≡ value pending
      → settled_count s < length dag.nodes
      → let (r, s') = execute_workflow nx env (some wf) s in
        (r ≡ raise lock_unbound)
        × (s'.committed ≡ started_row env s)
        × (s'.events ≡ s.events ++ (execution_started s.execution.id wf.id (value running) ∷ []))
  unfolding started
  execute_workflow_stuck wf dag s built status more =
      let row = alone.unchanged (suc s.ticks) (started_row env s) in
      rw
        (
          execute_workflow_starts wf dag s built status,
          run_loop_raises (length dag.nodes)
              (scan_tasks s.execution.task_executions nothing_settled) (started s wf)
              (λ e. running-ne-cancelled (ap (λ r. r.status) (sym row) ∙ e)) more,
        )
        (refl, row, refl)
