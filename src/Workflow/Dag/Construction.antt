-- ===== src/Workflow/Dag/Construction.antt =====
-- What `DAG(definition)` (app/engine/dag.py) accepts, and what it builds.
use python_backend_projects.Base.{
  ℕ, String, ◌≡◌, ◌≢◌, refl, sym, ◌∙◌, ap, subst, true, false, List, [], ◌∷◌, return, contains, All,
  nat_eq, arith, length, Result-cases, inl, inr,
}
use python_backend_projects.Base.Search.{contains-keep, contains→ne_nil, Least, minimum_of}
use python_backend_projects.Base.Dict.{Dict, keys, AllEntries}
use python_backend_projects.Workflow.Schemas.{EdgeConfig, DagDefinition}
use python_backend_projects.Workflow.Graphs.{Networkx, IsNetworkx, IsRanking, has_edge}
use python_backend_projects.Workflow.Dag.{
  DagNode, Dag, add_tasks, add_edges, link, parse, roots, validate, create,
}
use python_backend_projects.Workflow.Dag.Described.{
  IsDescribed, add_tasks-AllDescribed, link-AllDescribed,
}
use python_backend_projects.Workflow.Dag.Parsing.{
  task_ids, edge_pairs, keys-add_tasks, nodes-add_tasks, edges-add_tasks, HoldsItsId,
  add_tasks-HoldsItsId, Extends, IsLinked, keys-link, link-IsLinked, IsKnown,
}

-- The dag holds exactly the tasks and the edges of the definition, its edges join known tasks, each
-- node knows its id and its neighbours, and has the columns of a task of that id.
pub record IsAssembled (nx : Networkx) (definition : DagDefinition) (dag : Dag nx) : Type 0 where
  pub tasks : (x : String) → contains (keys dag.nodes) x ≡ contains (task_ids definition.tasks) x
  pub graph_nodes :
      (x : String) → contains (nx.nodes dag.graph) x ≡ contains (task_ids definition.tasks) x
  pub edges :
      (u v : String)
      → has_edge (nx.edges dag.graph) u v ≡ has_edge (edge_pairs definition.edges) u v
  pub known :
      (u v : String)
      → has_edge (nx.edges dag.graph) u v ≡ true
      → (contains (keys dag.nodes) u ≡ true) × (contains (keys dag.nodes) v ≡ true)
  pub linked : AllEntries (IsLinked nx dag.graph) dag.nodes
  pub described : AllEntries (IsDescribed definition.tasks) dag.nodes

-- So it is, and it has no cycle and a root.
pub record IsBuilt (nx : Networkx) (definition : DagDefinition) (dag : Dag nx) : Type 0 where
  pub assembled : IsAssembled nx definition dag
  pub ranking : (rank : String → ℕ) × IsRanking (nx.edges dag.graph) rank
  pub has_root : roots nx dag.graph ≢ []

module _ (nx : Networkx) where
  abbrev pub empty_dag : Dag nx
  empty_dag = record { nodes = []; graph = nx.empty_graph }

  abbrev pub linked_dag : Dag nx → Dag nx
  linked_dag raw = record raw { nodes = link nx raw.graph raw.nodes }

  All-IsKnown-edge :
      (d : Dict DagNode) (es : List EdgeConfig) (u v : String)
      → All (IsKnown nx d) es
      → has_edge (edge_pairs es) u v ≡ true
      → (contains (keys d) u ≡ true) × (contains (keys d) v ≡ true)
  All-IsKnown-edge d [] u v known h = cc
  All-IsKnown-edge d (e ∷ es) u v known h = ground (arith, All-IsKnown-edge d es u v known.1)

  -- the dag after the first loop
  abbrev pub added : DagDefinition → Dag nx
  added definition = add_tasks nx definition.tasks empty_dag

  pub parse_steps :
      (definition : DagDefinition) (dag : Dag nx)
      → parse nx definition ≡ return dag
      → (raw : Dag nx) × (add_edges nx definition.edges (add_tasks nx definition.tasks empty_dag)
          ≡ return raw)
        × (dag ≡ linked_dag raw)
  unfolding parse
  parse_steps definition dag h =
      let joined = add_edges nx definition.edges (add_tasks nx definition.tasks empty_dag) in
      elim (Result-cases joined) [
        | inl (raw, e) ↦ (raw, e, ground arith)
        | inr (x, e) ↦ absurd (ground arith)
      ]

  pub validate_steps :
      (dag : Dag nx)
      → validate nx dag ≡ return tt
      → (nx.is_directed_acyclic_graph dag.graph ≡ true) × (roots nx dag.graph ≢ [])
  unfolding validate
  validate_steps dag h = ground arith

  pub create_steps :
      (definition : DagDefinition) (dag : Dag nx)
      → create nx definition ≡ return dag
      → (parse nx definition ≡ return dag) × (validate nx dag ≡ return tt)
  unfolding create
  create_steps definition dag h = ground arith

module _ (nx : Networkx) (laws : IsNetworkx nx) where
  no_entry :
      (g : nx.DiGraph) (rank : String → ℕ) (xs : List String) (low : Least rank xs)
      → ((u v : String) → has_edge (nx.edges g) u v ≡ true → contains xs u ≡ true)
      → IsRanking (nx.edges g) rank
      → (preds : List String) → nx.predecessors g low.element ≡ preds
      → nx.in_degree g low.element ≡ 0
  no_entry g rank xs low sources ranking [] e =
      laws.in_degree-predecessors g low.element ∙ ap length e
  no_entry g rank xs low sources ranking (p ∷ ps) e =
      let m = low.element in
      let edge : has_edge (nx.edges g) p m ≡ true =
        ground (arith, laws.contains-predecessors g m p, e) in
      absurd (omega (arith, ranking.grows p m edge, low.least p (sources p m edge)))

  -- A node of least rank has no predecessor, so an acyclic graph with a node has a root.
  pub ranked_rooted :
      (g : nx.DiGraph) (rank : String → ℕ) (x : String) (xs : List String)
      → ((y : String) → contains (nx.nodes g) y ≡ contains (x ∷ xs) y)
      → ((u v : String) → has_edge (nx.edges g) u v ≡ true → contains (x ∷ xs) u ≡ true)
      → IsRanking (nx.edges g) rank
      → roots nx g ≢ []
  ranked_rooted g rank x xs same sources ranking =
      let low = minimum_of rank x xs in
      let m = low.element in
      contains→ne_nil (roots nx g) m (
        contains-keep (λ n. nat_eq (nx.in_degree g n) 0) (nx.nodes g) m
        ∙ ground (
          arith,
          same m,
          low.member,
          no_entry g rank (x ∷ xs) low sources ranking (nx.predecessors g m) refl,
        ))

  module _ (definition : DagDefinition) where
    pub added-keys :
        (x : String)
        → contains (keys (added nx definition).nodes) x ≡ contains (task_ids definition.tasks) x
    added-keys x = ground (arith, keys-add_tasks nx laws definition.tasks (empty_dag nx) x)

    added-nodes :
        (x : String)
        → contains (nx.nodes (added nx definition).graph) x ≡ contains (task_ids definition.tasks) x
    added-nodes x =
        ground (arith, nodes-add_tasks nx laws definition.tasks (empty_dag nx) x, laws.nodes-empty)

    added-edges : (u v : String) → has_edge (nx.edges (added nx definition).graph) u v ≡ false
    added-edges u v =
        ground
          (arith, edges-add_tasks nx laws definition.tasks (empty_dag nx) u v, laws.edges-empty)

    added-HoldsItsId : AllEntries HoldsItsId (added nx definition).nodes
    added-HoldsItsId = add_tasks-HoldsItsId nx definition.tasks (empty_dag nx) tt

  pub linked_dag-IsAssembled :
      (definition : DagDefinition) (raw : Dag nx)
      → Extends nx definition.edges (added nx definition) raw
      → IsAssembled nx definition (linked_dag nx raw)
  linked_dag-IsAssembled definition raw extends =
      let same_keys : keys (link nx raw.graph raw.nodes) ≡ keys (added nx definition).nodes =
        keys-link nx raw.graph raw.nodes ∙ ap keys extends.same_keys in
      record {
        tasks = λ x. ap (λ l. contains l x) same_keys ∙ added-keys definition x;
        graph_nodes = λ x.
            extends.nodes (λ y k. added-nodes definition y ∙ sym (added-keys definition y) ∙ k) x
            ∙ added-nodes definition x;
        edges = λ u v. ground (arith, extends.edges u v, added-edges definition u v);
        known = λ u v h. rw same_keys (
            All-IsKnown-edge nx (added nx definition).nodes definition.edges u v extends.known
              (ground (arith, h, extends.edges u v, added-edges definition u v)));
        linked =
            link-IsLinked nx raw.graph raw.nodes
              (subst (AllEntries HoldsItsId) (sym extends.same_keys) (added-HoldsItsId definition));
        described = link-AllDescribed nx definition.tasks raw.graph raw.nodes (
            subst (AllEntries (IsDescribed definition.tasks)) (sym extends.same_keys)
              (add_tasks-AllDescribed nx definition.tasks nx.empty_graph));
      }
