-- ===== src/Workflow/Dag/Ready.antt =====
-- Which tasks `DAG.get_ready_tasks` (app/engine/dag.py) offers, and that it never runs dry too
-- soon.
use python_backend_projects.Base.{
  String, ◌≡◌, ◌↔◌, refl, sym, ◌∙◌, ap, true, false, ◌&&◌, List, [], ◌∷◌, contains, all, any,
  str_dec, arith,
}
use python_backend_projects.Base.Search.{all_iff, any-eq-false}
use python_backend_projects.Base.Dict.{Dict, keys, AllEntries}
use python_backend_projects.Workflow.Graphs.{Networkx, IsNetworkx, has_edge}
use python_backend_projects.Workflow.Dag.{DagNode, Dag, is_ready, ready_from, get_ready_tasks}
use python_backend_projects.Workflow.Dag.Parsing.{HoldsItsId}

abbrev pub node_ids : List DagNode → List String
node_ids [] = []
node_ids (n ∷ ns) = n.task_id ∷ node_ids ns

module _ (nx : Networkx) where
  -- The task is known and not begun, all its predecessors are completed and none was skipped.
  pub record IsReady (dag : Dag nx) (completed skipped running : List String) (n : String)
      : Type 0 where
    pub known : contains (keys dag.nodes) n ≡ true
    pub not_completed : contains completed n ≡ false
    pub not_skipped : contains skipped n ≡ false
    pub not_running : contains running n ≡ false
    pub after :
        (p : String) → has_edge (nx.edges dag.graph) p n ≡ true → contains completed p ≡ true
    pub enabled :
        (p : String) → has_edge (nx.edges dag.graph) p n ≡ true → contains skipped p ≡ false

  module _ (dag : Dag nx) (completed skipped running : List String) where
    contains-ready_from :
        (d : Dict DagNode) (n : String)
        → AllEntries HoldsItsId d
        → contains (node_ids (ready_from nx dag completed skipped running d)) n
          ≡ (contains (keys d) n && is_ready nx dag completed skipped running n)
    contains-ready_from [] n h = refl
    contains-ready_from ((k, node) ∷ d) n h = elim (str_dec n k) [
      | yes same ↦ ground (
        arith,
        contains-ready_from d n h.1,
        ap (is_ready nx dag completed skipped running) same,
        h.0,
      )
      | no other ↦ ground (arith, contains-ready_from d n h.1, h.0)
    ]

module _ (nx : Networkx) (laws : IsNetworkx nx) where
  module _ (dag : Dag nx) (completed skipped running : List String) where
    preds_completed :
        (n : String)
        → ((p : String) → has_edge (nx.edges dag.graph) p n ≡ true → contains completed p ≡ true)
          ↔ (all (contains completed) (nx.predecessors dag.graph n) ≡ true)
    preds_completed n =
        let exact = all_iff (contains completed) (nx.predecessors dag.graph n) in
        (
          λ h. exact.1 (λ p m. h p (sym (laws.contains-predecessors dag.graph n p) ∙ m)),
          λ a p m. exact.0 a p (laws.contains-predecessors dag.graph n p ∙ m),
        )

    preds_enabled :
        (n : String)
        → ((p : String) → has_edge (nx.edges dag.graph) p n ≡ true → contains skipped p ≡ false)
          ↔ (any (contains skipped) (nx.predecessors dag.graph n) ≡ false)
    preds_enabled n =
        let exact = any-eq-false (contains skipped) (nx.predecessors dag.graph n) in
        (
          λ h. exact.1 (λ p m. h p (sym (laws.contains-predecessors dag.graph n p) ∙ m)),
          λ a p m. exact.0 a p (laws.contains-predecessors dag.graph n p ∙ m),
        )

    -- In a dag whose nodes hold their ids, the tasks offered are exactly the ready ones.
    pub get_ready_tasks_iff :
        AllEntries HoldsItsId dag.nodes
        → (n : String)
        → (contains (node_ids (get_ready_tasks nx dag completed skipped running)) n ≡ true)
          ↔ IsReady nx dag completed skipped running n
    unfolding get_ready_tasks
    get_ready_tasks_iff ids n = (
      λ h.
          let test = contains-ready_from nx dag completed skipped running dag.nodes n ids in
          record {
            known = ground (arith, test);
            not_completed = ground (arith, test);
            not_skipped = ground (arith, test);
            not_running = ground (arith, test);
            after = (preds_completed n).1 (ground (arith, test));
            enabled = (preds_enabled n).1 (ground (arith, test));
          },
      λ r. ground (
        arith,
        contains-ready_from nx dag completed skipped running dag.nodes n ids,
        (preds_completed n).0 r.after,
        (preds_enabled n).0 r.enabled,
        r.known,
        r.not_completed,
        r.not_skipped,
        r.not_running,
      ),
    )
