-- ===== src/Workflow/Dag/Acceptance.antt =====
-- app/engine/dag.py: which definitions `DAG(definition)` accepts.
use python_backend_projects.Base.{
  ℕ, String, ◌≡◌, ◌≢◌, refl, sym, ◌∙◌, ap, subst, true, none, List, [], ◌∷◌, return, contains, All,
  arith,
}
use python_backend_projects.Base.Dict.{keys}
use python_backend_projects.Workflow.Schemas.{TaskConfig, EdgeConfig, DagDefinition}
use python_backend_projects.Workflow.Graphs.{Networkx, IsNetworkx, IsRanking, has_edge}
use python_backend_projects.Workflow.Dag.{Dag, add_edges, roots, unknown_edge, validate, create}
use python_backend_projects.Workflow.Dag.Parsing.{
  task_ids, edge_pairs, add_edges-Extends, add_edges_total, IsKnown,
}
use python_backend_projects.Workflow.Dag.Construction.{
  IsAssembled, IsBuilt, linked_dag, added, added-keys, linked_dag-IsAssembled, ranked_rooted,
  create_steps, parse_steps, validate_steps,
}

-- What a caller must see to for the constructor to accept: there is a task, every edge joins two of
-- the tasks, and the edges have no cycle.
pub record IsAcceptable (definition : DagDefinition) : Type 0 where
  pub first : TaskConfig
  pub others : List TaskConfig
  pub some_task : definition.tasks ≡ first ∷ others
  pub known :
      All
        (λ e.
          (contains (task_ids definition.tasks) e.from_task ≡ true)
          × (contains (task_ids definition.tasks) e.to_task ≡ true))
        definition.edges
  pub ranking : (rank : String → ℕ) × IsRanking (edge_pairs definition.edges) rank

module _ (nx : Networkx) where
  unknown_edge-none :
      (dag : Dag nx) (es : List (String × String))
      → ((u v : String)
          → has_edge es u v ≡ true
          → (contains (keys dag.nodes) u ≡ true) × (contains (keys dag.nodes) v ≡ true))
      → unknown_edge nx dag es ≡ none
  unknown_edge-none dag [] known = refl
  unknown_edge-none dag ((a, b) ∷ es) known = ground (
    arith,
    known a b (ground arith),
    unknown_edge-none dag es (λ u v h. known u v (ground arith)),
  )

  -- `_validate` passes a dag whose edges are known, with no cycle and a root.
  validate_passes :
      (dag : Dag nx)
      → unknown_edge nx dag (nx.edges dag.graph) ≡ none
      → nx.is_directed_acyclic_graph dag.graph ≡ true
      → roots nx dag.graph ≢ []
      → validate nx dag ≡ return tt
  unfolding validate
  validate_passes dag known acyclic rooted = ground arith

  create_joins :
      (definition : DagDefinition) (raw : Dag nx)
      → add_edges nx definition.edges (added nx definition) ≡ return raw
      → validate nx (linked_dag nx raw) ≡ return tt
      → create nx definition ≡ return (linked_dag nx raw)
  unfolding create
  create_joins definition raw joined valid = ground arith

module _ (nx : Networkx) (laws : IsNetworkx nx) where
  -- A construction that returns has built the dag that the definition describes: its nodes and
  -- edges are those of the definition, the ends of an edge are known, each node has its id, its
  -- neighbours, and the type, name, config, retry and timeout (300 if there is none) of a task of
  -- that id; it has no cycle and a root.
  pub create-IsBuilt :
      (definition : DagDefinition) (dag : Dag nx)
      → create nx definition ≡ return dag
      → IsBuilt nx definition dag
  create-IsBuilt definition dag h =
      let (parsed, validated) = create_steps nx definition dag h in
      let (raw, joined, e) = parse_steps nx definition dag parsed in
      let (acyclic, rooted) = validate_steps nx dag validated in
      record {
        assembled = subst (IsAssembled nx definition) (sym e) (
            linked_dag-IsAssembled nx laws definition raw
              (add_edges-Extends nx laws definition.edges (added nx definition) raw joined));
        ranking = laws.acyclic_ranking dag.graph acyclic;
        has_root = rooted;
      }

  ends_are_added :
      (definition : DagDefinition) (es : List EdgeConfig)
      → All
          (λ e.
            (contains (task_ids definition.tasks) e.from_task ≡ true)
            × (contains (task_ids definition.tasks) e.to_task ≡ true))
          es
      → All (IsKnown nx (added nx definition).nodes) es
  ends_are_added definition [] h = tt
  ends_are_added definition (e ∷ es) h = (
    (
      added-keys nx laws definition e.from_task ∙ h.0.0,
      added-keys nx laws definition e.to_task ∙ h.0.1,
    ),
    ends_are_added definition es h.1,
  )

  -- An acceptable definition is accepted, and the dag is built from it.
  pub create_total :
      (definition : DagDefinition)
      → IsAcceptable definition
      → (dag : Dag nx) × (create nx definition ≡ return dag) × IsBuilt nx definition dag
  create_total definition ok =
      let (raw, joined) =
        add_edges_total nx definition.edges (added nx definition)
          (ends_are_added definition definition.edges ok.known) in
      let dag = linked_dag nx raw in
      let parts =
        linked_dag-IsAssembled nx laws definition raw
          (add_edges-Extends nx laws definition.edges (added nx definition) raw joined) in
      let rank = ok.ranking.0 in
      let ranking : IsRanking (nx.edges dag.graph) rank = record {
        grows = λ u v h. ok.ranking.1.grows u v (sym (parts.edges u v) ∙ h);
      } in
      let rooted =
        ranked_rooted nx laws dag.graph rank ok.first.id (task_ids ok.others)
          (λ y. parts.graph_nodes y ∙ ap (λ ts. contains (task_ids ts) y) ok.some_task)
          (λ u v h.
            ap (λ ts. contains (task_ids ts) u) (sym ok.some_task)
            ∙ sym (parts.tasks u)
            ∙ (parts.known u v h).0)
          ranking in
      (
        dag,
        create_joins nx definition raw joined (
            validate_passes nx dag (unknown_edge-none nx dag (nx.edges dag.graph) parts.known)
              (laws.ranking_acyclic dag.graph rank ranking) rooted),
        record { assembled = parts; ranking = (rank, ranking); has_root = rooted },
      )
