-- ===== src/Workflow/History/Steps.antt =====
-- Each part that writes an execution's status follows the state machine.
use python_backend_projects.Base.{
  and_then, ltb, length, ◌+◌, ℕ, ◌≡◌, refl, ◌∙◌, ap, Bool, true, false, Option, none, some, Result,
  return, raise, Result-cases, Bool-cases, inl, inr, if-both,
}
use python_backend_projects.Base.Dict.{Dict}
use python_backend_projects.Base.Value.{Value}
use python_backend_projects.Workflow.StateMachine.{
  ExecutionState, value, of_value, can_transition_to, transition_to,
}
use python_backend_projects.Workflow.StateMachine.Lifecycle.{Reach, here, next, of_value-value}
use python_backend_projects.Workflow.Models.{WorkflowExecution, WorkflowDefinition}
use python_backend_projects.Workflow.Graphs.{Networkx}
use python_backend_projects.Workflow.Dag.{create}
use python_backend_projects.Workflow.Executor.{
  Env, Session, Settled, refresh, complete_execution, fail_execution, start_execution, first_round,
  after_loop, run_loop, execute_workflow,
}
use python_backend_projects.Workflow.Executor.Outcomes.{IsAlone}

-- the row is in that state, in the session and as it is committed
pub record IsIn (state : ExecutionState) (s : Session) : Type 0 where
  pub held : s.execution.status ≡ value state
  pub stored : s.committed.status ≡ value state

-- The statement left the row in a state that requests to the machine get to.
pub record Follows {A : Type 0} (from : ExecutionState) (x : Result A × Session) : Type 0 where
  pub state : ExecutionState
  pub is_in : IsIn state x.1
  pub reach : Reach from state

pub granted :
    (s t : ExecutionState) → can_transition_to s t ≡ true → (transition_to t s).0 ≡ return t
unfolding transition_to
granted s t h = rw h refl

pub Reach-trans : (s t u : ExecutionState) → Reach s t → Reach t u → Reach s u
Reach-trans s t u a here = a
Reach-trans s t u a (next {t = m} b g) = next {t = m} (Reach-trans s t m a b) g

stays :
    {A : Type 0} (r : Result A) (state : ExecutionState) (s : Session)
    → IsIn state s
    → Follows state (r, s)
stays r state s h = record { state = state; is_in = h; reach = here }

pub start_execution-Follows :
    (env : Env) (state : ExecutionState) (s : Session)
    → IsIn state s
    → Follows state (start_execution env state s)
unfolding start_execution
start_execution-Follows env state s h =
    elim (Bool-cases (can_transition_to state ExecutionState.running)) [
      | inl e ↦ rw e (record {
        state = ExecutionState.running;
        is_in = record { held = refl; stored = refl };
        reach = next {t = state} here (granted state ExecutionState.running e);
      })
      | inr e ↦ rw e (stays (return tt) state s h)
    ]

pub complete_execution-Follows :
    (env : Env) (outputs : Dict Value) (state : ExecutionState) (s : Session)
    → IsIn state s
    → Follows state (complete_execution env outputs s)
unfolding complete_execution transition_to
complete_execution-Follows env outputs state s h =
    let known : of_value s.execution.status ≡ return state =
      ap of_value h.held ∙ of_value-value state in
    elim (Bool-cases (can_transition_to state ExecutionState.completed)) [
      | inl e ↦
          rw (known, e)
            (record {
              state = ExecutionState.completed;
              is_in = record { held = refl; stored = refl };
              reach = next {t = state} here (granted state ExecutionState.completed e);
            })
      | inr e ↦ rw (known, e) (stays _ state s h)
    ]

pub fail_execution-Follows :
    (env : Env) (state : ExecutionState) (s : Session)
    → IsIn state s
    → Follows state (fail_execution env s)
unfolding fail_execution
fail_execution-Follows env state s h =
    let known : of_value s.execution.status ≡ return state =
      ap of_value h.held ∙ of_value-value state in
    elim (Bool-cases (can_transition_to state ExecutionState.failed)) [
      | inl e ↦
          rw (known, e)
            (record {
              state = ExecutionState.failed;
              is_in = record { held = refl; stored = refl };
              reach = next {t = state} here (granted state ExecutionState.failed e);
            })
      | inr e ↦
          rw (known, e)
            (record {
              state = state;
              is_in = record { held = h.held; stored = h.held };
              reach = here;
            })
    ]

-- A statement and the one that follows it.
and_then-Follows :
    {A B : Type 0} (from : ExecutionState) (r : Result A) (s : Session)
    (f : A → Session → Result B × Session)
    → Follows from (r, s)
    → ((a : A) (t : ExecutionState) → IsIn t s → Follows t (f a s))
    → Follows from (and_then r f s)
and_then-Follows from (raise e) s f a b = record {
  state = a.state;
  is_in = a.is_in;
  reach = a.reach;
}
and_then-Follows from (return x) s f a b =
    let last = b x a.state a.is_in in
    record {
      state = last.state;
      is_in = last.is_in;
      reach = Reach-trans from a.state last.state a.reach last.reach;
    }

first_round-Follows :
    (env : Env) (c : Bool) (state : ExecutionState) (s : Session)
    → IsIn state s
    → Follows state (first_round env false c s)
unfolding first_round
first_round-Follows env true state s h = record {
  state = state;
  is_in = record { held = h.held; stored = h.stored };
  reach = here;
}
first_round-Follows env false state s h = stays _ state s h

after_loop-Follows :
    (env : Env) (outputs : Dict Value) (c : Bool) (state : ExecutionState) (s : Session)
    → IsIn state s
    → Follows state (after_loop env outputs false c s)
unfolding after_loop
after_loop-Follows env outputs true state s h = stays (return tt) state s h
after_loop-Follows env outputs false state s h =
    and_then-Follows state (complete_execution env outputs s).0 (complete_execution env outputs s).1
      _ (complete_execution-Follows env outputs state s h)
      λ _ t now. record {
        state = t;
        is_in = record { held = now.held; stored = now.stored };
        reach = here;
      }

refresh-IsIn :
    (env : Env) (alone : IsAlone env) (state : ExecutionState) (s : Session)
    → IsIn state s
    → IsIn state (refresh env s).1
refresh-IsIn env alone state s h =
    let row : (env.refreshed s.ticks s.committed).status ≡ value state =
      ap (λ (r : WorkflowExecution). r.status) (alone.unchanged s.ticks s.committed) ∙ h.stored in
    record { held = row; stored = row }

module _ (nx : Networkx) (env : Env) (alone : IsAlone env) where
  run_loop-Follows :
      (count : ℕ) (l : Settled) (state : ExecutionState) (s : Session)
      → IsIn state s
      → Follows state (run_loop nx env count l s)
  unfolding run_loop
  run_loop-Follows count l state s h =
      let now = refresh-IsIn env alone state s h in
      if-both (λ (f : Session → Result (Unit {0}) × Session). Follows state (f (refresh env s).1))
        (ltb (length l.completed + length l.skipped) count)
        (first_round-Follows env _ state (refresh env s).1 now)
        (after_loop-Follows env l.task_outputs _ state (refresh env s).1 now)

  -- A run of the worker leaves the row in a state that the machine gets to from the one before.
  pub execute_workflow-Follows :
      (wf : Option WorkflowDefinition) (state : ExecutionState) (s : Session)
      → IsIn state s
      → Follows state (execute_workflow nx env wf s)
  unfolding execute_workflow
  execute_workflow-Follows none state s h = stays (return tt) state s h
  execute_workflow-Follows (some wf) state s h =
      let known : of_value s.execution.status ≡ return state =
        ap of_value h.held ∙ of_value-value state in
      elim (Result-cases (create nx wf.dag_definition)) [
        | inr (e, built) ↦ rw built (stays _ state s h)
        | inl (dag, built) ↦
            rw (built, known)
              (and_then-Follows state (start_execution env state s).0
                (start_execution env state s).1 _ (start_execution-Follows env state s h)
                λ _ t now.
                  run_loop-Follows (length dag.nodes) _ t _
                    (record { held = now.held; stored = now.stored }))
      ]
