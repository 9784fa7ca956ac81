-- ===== src/Workflow/Services/Workflows/Accepted.antt =====
-- Every stored workflow has a definition that `DAG` accepts (app/services/workflow_service.py).
use python_backend_projects.Base.{
  any, ◌==◌, if-both, ℕ, ◌≡◌, refl, Bool, true, false, Option, none, some, List, [], ◌∷◌, ◌++◌,
  Result, return, raise, All, Option-cases, Result-cases, inl, inr, if◌then◌else◌, nat_eq,
}
use python_backend_projects.Base.Rows.{update_row}
use python_backend_projects.Workflow.Schemas.{DagDefinition}
use python_backend_projects.Workflow.Models.{WorkflowDefinition}
use python_backend_projects.Workflow.Graphs.{Networkx}
use python_backend_projects.Workflow.Dag.{Dag, create}
use python_backend_projects.Workflow.Services.Tables.{Store, execute_workflow_task, workflow_key}
use python_backend_projects.Workflow.Services.Workflows.{
  WorkflowCreate, WorkflowUpdate, WorkflowTriggerRequest, Fresh, new_workflow, rename,
  finish_update, replace_dag, get_workflow, put_workflow, delete_workflow, create_workflow,
  update_dag, after_dag, update_workflow, trigger_found, trigger_workflow, new_execution,
  not_triggered, clashes,
}

module _ (nx : Networkx) where
  -- the constructor accepts the workflow's definition
  abbrev pub IsAccepted : WorkflowDefinition → Type 0
  IsAccepted wf = (dag : Dag nx) × (create nx wf.dag_definition ≡ return dag)

  abbrev pub AllAccepted : Store → Type 0
  AllAccepted s = All IsAccepted s.workflows

  append-All :
      (wfs : List WorkflowDefinition) (wf : WorkflowDefinition)
      → All IsAccepted wfs
      → IsAccepted wf
      → All IsAccepted (wfs ++ (wf ∷ []))
  append-All [] wf h new = (new, tt)
  append-All (w ∷ wfs) wf h new = (h.0, append-All wfs wf h.1 new)

  choose :
      (b : Bool) (x y : WorkflowDefinition) (xs ys : List WorkflowDefinition)
      → All IsAccepted (x ∷ xs)
      → All IsAccepted (y ∷ ys)
      → All IsAccepted (if b then x ∷ xs else y ∷ ys)
  choose true x y xs ys a b = a
  choose false x y xs ys a b = b

  update-All :
      (pk : ℕ) (f : WorkflowDefinition → WorkflowDefinition) (wfs : List WorkflowDefinition)
      → ((wf : WorkflowDefinition) → IsAccepted wf → IsAccepted (f wf))
      → All IsAccepted wfs
      → All IsAccepted (update_row workflow_key pk f wfs)
  unfolding update_row
  update-All pk f [] keeps h = tt
  update-All pk f (wf ∷ wfs) keeps h =
      choose (nat_eq wf.id pk) (f wf) wf wfs (update_row workflow_key pk f wfs) (keeps wf h.0, h.1)
        (h.0, update-All pk f wfs keeps h.1)

  rename-IsAccepted :
      (d : WorkflowUpdate) (wf : WorkflowDefinition) → IsAccepted wf → IsAccepted (rename d wf)
  unfolding rename
  rename-IsAccepted d wf h = h

  finish_update-IsAccepted :
      (d : WorkflowUpdate) (wf : WorkflowDefinition)
      → IsAccepted wf
      → IsAccepted (finish_update d wf)
  unfolding finish_update
  finish_update-IsAccepted d wf h = h

  replace_dag-IsAccepted :
      (definition : DagDefinition) (dag : Dag nx)
      → create nx definition ≡ return dag
      → (wf : WorkflowDefinition) → IsAccepted (replace_dag definition wf)
  unfolding replace_dag
  replace_dag-IsAccepted definition dag h wf = (dag, h)

  after_dag-AllAccepted :
      (pk : ℕ) (d : WorkflowUpdate) (r : Result (Unit {0})) (s : Store)
      → AllAccepted s
      → AllAccepted (after_dag nx pk d r s).1
  after_dag-AllAccepted pk d (raise e) s h = h
  after_dag-AllAccepted pk d (return _) s h =
      let s' = put_workflow pk (finish_update d) s in
      let kept = update-All pk (finish_update d) s.workflows (finish_update-IsAccepted d) h in
      if-both (λ (r : Result (Option WorkflowDefinition) × Store). AllAccepted r.1)
        (clashes pk d.name s') kept kept

  update_dag-AllAccepted :
      (pk : ℕ) (new : Option DagDefinition) (s : Store)
      → AllAccepted s
      → AllAccepted (update_dag nx pk new s).1
  unfolding update_dag
  update_dag-AllAccepted pk none s h = h
  update_dag-AllAccepted pk (some definition) s h = elim (Result-cases (create nx definition)) [
    | inl (dag, e) ↦
        rw (e, update_dag)
          (update-All pk (replace_dag definition) s.workflows
            (λ wf _. replace_dag-IsAccepted definition dag e wf) h)
    | inr (ex, e) ↦ rw (e, update_dag) h
  ]

  -- Creating, updating and deleting a workflow, on every branch, leave every stored workflow with a
  -- definition that the constructor accepts, if all were so before.
  pub workflows-AllAccepted :
      (s : Store)
      → AllAccepted s
      → ((fresh : Fresh) (d : WorkflowCreate) → AllAccepted (create_workflow nx fresh d s).1)
        × ((pk : ℕ) (d : WorkflowUpdate) → AllAccepted (update_workflow nx pk d s).1)
        × ((pk : ℕ) → AllAccepted (delete_workflow pk s).1)
  unfolding create_workflow update_workflow delete_workflow
  workflows-AllAccepted s h = (
    λ fresh d. elim (Result-cases (create nx d.dag_definition)) [
      | inl (dag, e) ↦
          rw (e, create_workflow)
            (if-both (λ (r : Result WorkflowDefinition × Store). AllAccepted r.1)
              (any (λ (w : WorkflowDefinition). w.name == d.name) s.workflows) h
              (append-All s.workflows (new_workflow fresh d) h (dag, e)))
      | inr (ex, e) ↦ rw (e, create_workflow) h
    ],
    λ pk d. elim (Option-cases (get_workflow pk s)) [
      | inl e ↦ rw (e, update_workflow) h
      | inr (wf, e) ↦
          rw (e, update_workflow)
            (after_dag-AllAccepted pk d _ _ (
              update_dag-AllAccepted pk d.dag_definition (put_workflow pk (rename d) s)
                (update-All pk (rename d) s.workflows (rename-IsAccepted d) h)))
    ],
    λ pk. elim (Option-cases (get_workflow pk s)) [
      | inl e ↦ rw (e, delete_workflow) h
      | inr (wf, e) ↦
          rw (e, delete_workflow)
            (update-All pk (λ w. record w { is_active = false }) s.workflows (λ w a. a) h)
    ],
  )

-- A trigger of a workflow that is stored and active adds one pending execution of it, with no task,
-- and asks the workers once to run it; any other trigger raises ValueError and changes nothing.
pub trigger_workflow_lem :
    (fresh : Fresh) (pk : ℕ) (req : WorkflowTriggerRequest) (s : Store)
    → ((wf : WorkflowDefinition)
        → get_workflow pk s ≡ some wf
        → wf.is_active ≡ true
        → let (r, s') = trigger_workflow fresh pk req s in
          let ex = new_execution fresh wf req in
          (r ≡ return ex)
          × (s'.executions ≡ s.executions ++ (ex ∷ []))
          × (s'.queue ≡ s.queue ++ (execute_workflow_task ex.id ∷ [])))
      × (((wf : WorkflowDefinition) → get_workflow pk s ≡ some wf → wf.is_active ≡ false)
          → trigger_workflow fresh pk req s ≡ (not_triggered, s))
unfolding trigger_workflow trigger_found
trigger_workflow_lem fresh pk req s = (
  λ wf found active. rw (found, active) (refl, refl, refl),
  λ inactive. elim (Option-cases (get_workflow pk s)) [
    | inl e ↦ rw e refl
    | inr (wf, e) ↦ rw (e, inactive wf e) refl
  ],
)
