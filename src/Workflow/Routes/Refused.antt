-- ===== src/Workflow/Routes/Refused.antt =====
-- What a refused request leaves behind (app/api/routes and `get_db` of app/models/database.py), and
-- how a DAG that is refused is answered.
use python_backend_projects.Base.{
  ℕ, String, Bool, true, false, Option, none, some, Result, return, raise, Exception, value_error,
  ◌≡◌, ◌⊎◌, inl, inr, refl, ap, sym, ◌∙◌, not, if-both, any, ◌==◌,
}
use python_backend_projects.Workflow.Schemas.{DagDefinition}
use python_backend_projects.Workflow.Models.{WorkflowDefinition, WorkflowExecution}
use python_backend_projects.Workflow.Graphs.{Networkx}
use python_backend_projects.Workflow.Dag.{Dag, create}
use python_backend_projects.Workflow.Services.{Store}
use python_backend_projects.Workflow.Services.Workflows.{
  Fresh, WorkflowCreate, WorkflowUpdate, WorkflowTriggerRequest, new_workflow, add_workflow,
  clashes, create_workflow, update_workflow, update_dag, after_dag, rename, finish_update,
  put_workflow, replace_dag, delete_workflow, get_workflow, trigger_workflow, trigger_found,
}
use python_backend_projects.Workflow.Routes.{
  Reply, answered, refused, roll_back, end_of_request, transaction, or_bad_request, found_or_error,
  done_or, create_workflow_route, update_workflow_route, delete_workflow_route,
  trigger_workflow_route,
}

-- A refused request leaves the tables and the queue as they were; an answered one leaves no open
-- write to an execution.
abbrev pub RefusesCleanly : {A : Type 0} → Store → Reply A × Store → Type 0
RefusesCleanly s (answered status a, after) = after.committed ≡ after.executions
RefusesCleanly s (refused status detail, after) = after ≡ s

abbrev pub IsAnswered : {A : Type 0} → Reply A → Type 0
IsAnswered (answered status a) = Unit
IsAnswered (refused status detail) = ⊥

abbrev IsKept : (s after : Store) → Type 0
IsKept s after = (after.committed ≡ s.committed) × (after.queue ≡ s.queue)

roll_back_lem :
    (s after : Store) → s.executions ≡ s.committed → IsKept s after → roll_back s after ≡ s
roll_back_lem s after clean (pc, pq) =
    ap (λ c. record s { executions = c; committed = c; queue = after.queue }) pc
    ∙ ap (λ q. record s { executions = s.committed; committed = s.committed; queue = q }) pq
    ∙ ap (λ e. record s { executions = e; committed = s.committed; queue = s.queue }) (sym clean)

module _ {A : Type 0} where
  end_of_request-RefusesCleanly :
      (s : Store) (reply : Reply A) (after : Store)
      → s.executions ≡ s.committed
      → IsAnswered reply ⊎ IsKept s after
      → RefusesCleanly s (end_of_request s reply after)
  end_of_request-RefusesCleanly s (answered status a) after clean h = refl
  end_of_request-RefusesCleanly s (refused status detail) after clean (inl h) = absurd h
  end_of_request-RefusesCleanly s (refused status detail) after clean (inr h) =
      roll_back_lem s after clean h

module _ (nx : Networkx) where
  update_dag-IsKept :
      (pk : ℕ) (o : Option DagDefinition) (s : Store) → IsKept s (update_dag nx pk o s).1
  unfolding update_dag
  update_dag-IsKept pk none s = (refl, refl)
  update_dag-IsKept pk (some definition) s = at_dag (create nx definition)
    where
      at_dag :
          (r : Result (Dag nx))
          → IsKept s
              (elim r as (λ x. Result (Unit {0}) × Store) [
                | raise e ↦ (raise e, s)
                | return dag ↦ (return tt, put_workflow pk (replace_dag definition) s)
              ]).1
      at_dag (raise e) = (refl, refl)
      at_dag (return dag) = (refl, refl)

  after_dag-IsKept :
      (pk : ℕ) (data_in : WorkflowUpdate) (r : Result (Unit {0})) (s : Store)
      → IsKept s (after_dag nx pk data_in r s).1
  after_dag-IsKept pk data_in (raise e) s = (refl, refl)
  after_dag-IsKept pk data_in (return _) s =
      if-both (λ (d : Result (Option WorkflowDefinition) × Store). IsKept s d.1)
        (clashes pk data_in.name (put_workflow pk (finish_update data_in) s)) (refl, refl)
        (refl, refl)

  update_workflow-IsKept :
      (pk : ℕ) (data_in : WorkflowUpdate) (s : Store) → IsKept s (update_workflow nx pk data_in s).1
  unfolding update_workflow
  update_workflow-IsKept pk data_in s = at_workflow (get_workflow pk s)
    where
      at_workflow :
          (o : Option WorkflowDefinition)
          → IsKept s
              (elim o as (λ x. Result (Option WorkflowDefinition) × Store) [
                | none ↦ (return none, s)
                | some wf ↦
                    let (r, s') =
                      update_dag nx pk data_in.dag_definition
                        (put_workflow pk (rename data_in) s) in
                    after_dag nx pk data_in r s'
              ]).1
      at_workflow none = (refl, refl)
      at_workflow (some wf) =
          let renamed = put_workflow pk (rename data_in) s in
          let updated = update_dag nx pk data_in.dag_definition renamed in
          let one = update_dag-IsKept pk data_in.dag_definition renamed in
          let two = after_dag-IsKept pk data_in updated.0 updated.1 in
          (two.0 ∙ one.0, two.1 ∙ one.1)

  create_workflow-IsKept :
      (fresh : Fresh) (data_in : WorkflowCreate) (s : Store)
      → IsKept s (create_workflow nx fresh data_in s).1
  unfolding create_workflow
  create_workflow-IsKept fresh data_in s = at_dag (create nx data_in.dag_definition)
    where
      at_dag :
          (r : Result (Dag nx))
          → IsKept s
              (elim r as (λ x. Result WorkflowDefinition × Store) [
                | raise e ↦ (raise e, s)
                | return dag ↦ add_workflow (new_workflow fresh data_in) s
              ]).1
      at_dag (raise e) = (refl, refl)
      at_dag (return dag) =
          if-both (λ (d : Result WorkflowDefinition × Store). IsKept s d.1)
            (any (λ (w : WorkflowDefinition). w.name == data_in.name) s.workflows) (refl, refl)
            (refl, refl)

delete_workflow-IsKept : (pk : ℕ) (s : Store) → IsKept s (delete_workflow pk s).1
unfolding delete_workflow
delete_workflow-IsKept pk s = at_workflow (get_workflow pk s)
  where
    at_workflow :
        (o : Option WorkflowDefinition)
        → IsKept s
            (elim o as (λ x. Result Bool × Store) [
              | none ↦ (return false, s)
              | some wf ↦ (return true, put_workflow pk (λ w. record w { is_active = false }) s)
            ]).1
    at_workflow none = (refl, refl)
    at_workflow (some wf) = (refl, refl)

trigger_found-KeptOr :
    (fresh : Fresh) (req : WorkflowTriggerRequest) (o : Option WorkflowDefinition) (s : Store)
    → let (r, after) = trigger_found fresh req o s in
      IsAnswered (or_bad_request 202 r) ⊎ IsKept s after
unfolding trigger_found
trigger_found-KeptOr fresh req none s = inr (refl, refl)
trigger_found-KeptOr fresh req (some wf) s =
    if-both
      (λ (d : Result WorkflowExecution × Store). IsAnswered (or_bad_request 202 d.0) ⊎ IsKept s d.1)
      (not wf.is_active) (inr (refl, refl)) (inl tt)

module _ (nx : Networkx) where
  create_workflow-raise :
      (fresh : Fresh) (data_in : WorkflowCreate) (s : Store) (e : Exception)
      → create nx data_in.dag_definition ≡ raise e
      → create_workflow nx fresh data_in s ≡ (raise e, s)
  unfolding create_workflow
  create_workflow-raise fresh data_in s e h = rw (h, create_workflow) refl

  update_dag-raise :
      (pk : ℕ) (definition : DagDefinition) (s : Store) (e : Exception)
      → create nx definition ≡ raise e
      → update_dag nx pk (some definition) s ≡ (raise e, s)
  unfolding update_dag
  update_dag-raise pk definition s e h = rw (h, update_dag) refl

  update_workflow-raise :
      (pk : ℕ) (data_in : WorkflowUpdate) (s : Store) (wf : WorkflowDefinition)
      (definition : DagDefinition) (e : Exception)
      → get_workflow pk s ≡ some wf
      → data_in.dag_definition ≡ some definition
      → create nx definition ≡ raise e
      → update_workflow nx pk data_in s ≡ (raise e, put_workflow pk (rename data_in) s)
  unfolding update_workflow
  update_workflow-raise pk data_in s wf definition e found given h =
      let renamed = put_workflow pk (rename data_in) s in
      let rest = λ (d : Result (Unit {0}) × Store). after_dag nx pk data_in d.0 d.1 in
      let raised : rest (update_dag nx pk data_in.dag_definition renamed) ≡ (raise e, renamed) =
        ap (λ o. rest (update_dag nx pk o renamed)) given
        ∙ ap rest (update_dag-raise pk definition renamed e h) in
      rw (found, update_workflow) raised

  -- A request to create, update, delete or trigger a workflow that is refused, with 400, 404 or
  -- 500, leaves the tables and the queue as they were, also where the service had assigned the new
  -- name before it raised; one that is answered leaves no execution uncommitted. A workflow whose
  -- DAG is refused with a ValueError is answered with 400 and its message when it is created, and
  -- an update with any DAG that is refused is answered with 500. No write is open when the request
  -- begins.
  pub workflow_routes-RefuseCleanly :
      (s : Store)
      → s.executions ≡ s.committed
      → ((fresh : Fresh) (data_in : WorkflowCreate)
          → RefusesCleanly s (create_workflow_route nx fresh data_in s)
            × ((m : String)
                → create nx data_in.dag_definition ≡ raise (value_error m)
                → create_workflow_route nx fresh data_in s ≡ (refused 400 m, s)))
        × ((pk : ℕ) (data_in : WorkflowUpdate)
            → RefusesCleanly s (update_workflow_route nx pk data_in s)
              × ((wf : WorkflowDefinition) (definition : DagDefinition) (e : Exception)
                  → get_workflow pk s ≡ some wf
                  → data_in.dag_definition ≡ some definition
                  → create nx definition ≡ raise e
                  → update_workflow_route nx pk data_in s
                    ≡ (refused 500 "Internal Server Error", s)))
        × ((pk : ℕ) → RefusesCleanly s (delete_workflow_route pk s))
        × ((fresh : Fresh) (pk : ℕ) (req : WorkflowTriggerRequest)
            → RefusesCleanly s (trigger_workflow_route fresh pk req s))
  unfolding create_workflow_route update_workflow_route delete_workflow_route trigger_workflow_route
      trigger_workflow
  workflow_routes-RefuseCleanly s clean = (
    (λ fresh data_in.
        let d = create_workflow nx fresh data_in s in
        (
          end_of_request-RefusesCleanly s (or_bad_request 201 d.0) d.1 clean
              (inr (create_workflow-IsKept nx fresh data_in s)),
          λ m h.
              ap (transaction (or_bad_request 201) s)
                (create_workflow-raise fresh data_in s (value_error m) h)
              ∙ ap (λ t. (refused 400 m, t)) (roll_back_lem s s clean (refl, refl)),
        )),
    (λ pk data_in.
        let d = update_workflow nx pk data_in s in
        (
          end_of_request-RefusesCleanly s (found_or_error 200 "Workflow not found" d.0) d.1 clean
              (inr (update_workflow-IsKept nx pk data_in s)),
          λ wf definition e found given h.
              ap (transaction (found_or_error 200 "Workflow not found") s)
                (update_workflow-raise pk data_in s wf definition e found given h)
              ∙ ap (λ t. (refused 500 "Internal Server Error", t))
                  (roll_back_lem s (put_workflow pk (rename data_in) s) clean (refl, refl)),
        )),
    (λ pk.
        let d = delete_workflow pk s in
        end_of_request-RefusesCleanly s (done_or 204 404 "Workflow not found" d.0) d.1 clean
          (inr (delete_workflow-IsKept pk s))),
    (λ fresh pk req.
        let d = trigger_found fresh req (get_workflow pk s) s in
        end_of_request-RefusesCleanly s (or_bad_request 202 d.0) d.1 clean
          (trigger_found-KeptOr fresh req (get_workflow pk s) s)),
  )
