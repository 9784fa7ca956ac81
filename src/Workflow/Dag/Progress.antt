-- ===== src/Workflow/Dag/Progress.antt =====
-- When the loop over `DAG.get_ready_tasks` (app/engine/dag.py) finds a task, and when it stalls.
use python_backend_projects.Base.{
  String, ◌≡◌, ◌≢◌, refl, ◌∙◌, ap, Bool, true, false, not, ◌||◌, List, [], ◌∷◌, contains, keep,
  arith,
}
use python_backend_projects.Base.Search.{contains-keep, contains→ne_nil, Least, minimum_of_member}
use python_backend_projects.Base.Dict.{Dict, keys, AllEntries}
use python_backend_projects.Workflow.Schemas.{DagDefinition}
use python_backend_projects.Workflow.Graphs.{Networkx, IsNetworkx, has_edge}
use python_backend_projects.Workflow.Dag.{DagNode, Dag, get_ready_tasks}
use python_backend_projects.Workflow.Dag.Parsing.{HoldsItsId, IsLinked}
use python_backend_projects.Workflow.Dag.Construction.{IsBuilt}
use python_backend_projects.Workflow.Dag.Ready.{node_ids, IsReady, get_ready_tasks_iff}

module _ (nx : Networkx) where
  linked-HoldsItsId :
      (g : nx.DiGraph) (d : Dict DagNode) → AllEntries (IsLinked nx g) d → AllEntries HoldsItsId d
  linked-HoldsItsId g [] h = tt
  linked-HoldsItsId g ((k, n) ∷ d) h = (h.0.0, linked-HoldsItsId g d h.1)

  -- the task is neither completed nor skipped
  abbrev pub is_open : List String → List String → String → Bool
  is_open completed skipped n = not (contains completed n || contains skipped n)

  -- the open tasks of a dag
  abbrev open_tasks : Dag nx → List String → List String → List String
  open_tasks dag completed skipped = keep (is_open completed skipped) (keys dag.nodes)

  -- No open task comes after a skipped one.
  pub record NoneBlocked (dag : Dag nx) (completed skipped : List String) : Type 0 where
    pub free :
        (p n : String)
        → has_edge (nx.edges dag.graph) p n ≡ true
        → is_open completed skipped n ≡ true
        → contains skipped p ≡ false

module _ (nx : Networkx) (laws : IsNetworkx nx) (definition : DagDefinition) (dag : Dag nx)
    (built : IsBuilt nx definition dag) (completed skipped : List String) where
  -- An open task of least rank is ready.
  first_open-IsReady :
      NoneBlocked nx dag completed skipped
      → (low : Least built.ranking.0 (open_tasks nx dag completed skipped))
      → IsReady nx dag completed skipped [] low.element
  first_open-IsReady unblocked low =
      let m = low.element in
      let member = contains-keep (is_open nx completed skipped) (keys dag.nodes) in
      record {
        known = ground (arith, member m, low.member);
        not_completed = ground (arith, member m, low.member);
        not_skipped = ground (arith, member m, low.member);
        not_running = refl;
        after = λ p e. ground (
          arith,
          built.ranking.1.grows p m e,
          low.least p,
          member p,
          member m,
          low.member,
          built.assembled.known p m e,
          unblocked.free p m e,
        );
        enabled = λ p e. unblocked.free p m e (ground (arith, member m, low.member));
      }

  -- While a task is open and no open task comes after a skipped one, a task is ready: the loop
  -- never runs dry before everything is settled.
  pub get_ready_tasks_progress :
      NoneBlocked nx dag completed skipped
      → (n : String) → contains (keys dag.nodes) n ≡ true
      → is_open nx completed skipped n ≡ true
      → get_ready_tasks nx dag completed skipped [] ≢ []
  get_ready_tasks_progress unblocked n known open_n =
      let low =
        minimum_of_member built.ranking.0 (open_tasks nx dag completed skipped) n
          (contains-keep (is_open nx completed skipped) (keys dag.nodes) n ∙ ground arith) in
      let offered =
        (get_ready_tasks_iff nx laws dag completed skipped []
            (linked-HoldsItsId nx dag.graph dag.nodes built.assembled.linked) low.element).1
          (first_open-IsReady unblocked low) in
      λ none.
        contains→ne_nil (node_ids (get_ready_tasks nx dag completed skipped [])) low.element offered
          (ap node_ids none)

  first_offered :
      (offered : List DagNode)
      → get_ready_tasks nx dag completed skipped [] ≡ offered
      → ((n : String) → ¬ IsReady nx dag completed skipped [] n)
      → offered ≡ []
  first_offered [] e none_ready = refl
  first_offered (node ∷ rest) e none_ready = absurd (
      none_ready node.task_id (
        (get_ready_tasks_iff nx laws dag completed skipped []
            (linked-HoldsItsId nx dag.graph dag.nodes built.assembled.linked) node.task_id).0
          (ap (λ l. contains (node_ids l) node.task_id) e ∙ ground arith)))

  -- If every open task comes after a skipped one, no task is ready: the loop stalls.
  pub get_ready_tasks_stalls :
      ((n : String)
        → contains (keys dag.nodes) n ≡ true
        → is_open nx completed skipped n ≡ true
        → (p : String) × (has_edge (nx.edges dag.graph) p n ≡ true) × (contains skipped p ≡ true))
      → get_ready_tasks nx dag completed skipped [] ≡ []
  get_ready_tasks_stalls blocked =
      first_offered (get_ready_tasks nx dag completed skipped []) refl λ n ready.
        let (p, edge, gone) =
          blocked n ready.known (ground (arith, ready.not_completed, ready.not_skipped)) in
        absurd (ground (arith, gone, ready.enabled p edge))
