-- ===== src/Workflow/Dag/Parsing.antt =====
-- What the loops of `DAG._parse` (app/engine/dag.py) leave in the dict and in the graph.
use python_backend_projects.Base.{
  String, ◌≡◌, refl, ◌∙◌, true, ◌||◌, List, [], ◌∷◌, return, contains, All, arith,
}
use python_backend_projects.Base.Dict.{
  Dict, keys, insert, AllEntries, contains-keys-insert, AllEntries-insert,
}
use python_backend_projects.Workflow.Schemas.{TaskConfig, EdgeConfig}
use python_backend_projects.Workflow.Graphs.{Networkx, IsNetworkx, has_edge}
use python_backend_projects.Workflow.Dag.{DagNode, Dag, task_node, add_tasks, add_edges, link}

abbrev pub task_ids : List TaskConfig → List String
task_ids [] = []
task_ids (t ∷ ts) = t.id ∷ task_ids ts

-- the declared edges as pairs of ids
abbrev pub edge_pairs : List EdgeConfig → List (String × String)
edge_pairs [] = []
edge_pairs (e ∷ es) = (e.from_task, e.to_task) ∷ edge_pairs es

abbrev pub HoldsItsId : String → DagNode → Type 0
HoldsItsId k n = n.task_id ≡ k

module _ (nx : Networkx) where
  pub add_tasks-HoldsItsId :
      (ts : List TaskConfig) (dag : Dag nx)
      → AllEntries HoldsItsId dag.nodes
      → AllEntries HoldsItsId (add_tasks nx ts dag).nodes
  unfolding add_tasks
  add_tasks-HoldsItsId [] dag h = h
  add_tasks-HoldsItsId (t ∷ ts) dag h =
      add_tasks-HoldsItsId ts
        (record { nodes = insert t.id (task_node t) dag.nodes; graph = nx.add_node dag.graph t.id })
        (AllEntries-insert HoldsItsId t.id (task_node t) dag.nodes refl h)

  -- both ends of an edge are keys
  abbrev pub IsKnown : Dict DagNode → EdgeConfig → Type 0
  IsKnown d e = (contains (keys d) e.from_task ≡ true) × (contains (keys d) e.to_task ≡ true)

  -- Every key is a node of the graph.
  abbrev pub IsCovered : Dag nx → Type 0
  IsCovered dag =
      (x : String) → contains (keys dag.nodes) x ≡ true → contains (nx.nodes dag.graph) x ≡ true

  pub record Extends (es : List EdgeConfig) (dag dag' : Dag nx) : Type 0 where
    pub same_keys : dag'.nodes ≡ dag.nodes
    pub known : All (IsKnown dag.nodes) es
    pub edges :
        (u v : String)
        → has_edge (nx.edges dag'.graph) u v
          ≡ (has_edge (edge_pairs es) u v || has_edge (nx.edges dag.graph) u v)
    pub nodes :
        IsCovered dag
        → (x : String) → contains (nx.nodes dag'.graph) x ≡ contains (nx.nodes dag.graph) x

  abbrev joined : EdgeConfig → Dag nx → Dag nx
  joined e dag = record dag { graph = nx.add_edge dag.graph e.from_task e.to_task }

  add_edges-cons :
      (e : EdgeConfig) (es : List EdgeConfig) (dag dag' : Dag nx)
      → add_edges nx (e ∷ es) dag ≡ return dag'
      → IsKnown dag.nodes e × (add_edges nx es (joined e dag) ≡ return dag')
  unfolding add_edges
  add_edges-cons e es dag dag' h = ground arith

  -- If every edge joins known tasks the loop does not raise.
  pub add_edges_total :
      (es : List EdgeConfig) (dag : Dag nx)
      → All (IsKnown dag.nodes) es
      → (dag' : Dag nx) × (add_edges nx es dag ≡ return dag')
  unfolding add_edges
  add_edges_total [] dag h = (dag, refl)
  add_edges_total (e ∷ es) dag h =
      let next : Dag nx = record dag { graph = nx.add_edge dag.graph e.from_task e.to_task } in
      let (dag', done) = add_edges_total es next h.1 in (dag', ground arith)

  abbrev pub IsLinked : nx.DiGraph → String → DagNode → Type 0
  IsLinked g k n =
      (n.task_id ≡ k) × (n.dependencies ≡ nx.predecessors g k) × (n.dependents ≡ nx.successors g k)

  pub keys-link : (g : nx.DiGraph) (d : Dict DagNode) → keys (link nx g d) ≡ keys d
  unfolding link
  keys-link g [] = refl
  keys-link g ((k, n) ∷ d) = rw (keys-link g d)

  pub link-IsLinked :
      (g : nx.DiGraph) (d : Dict DagNode)
      → AllEntries HoldsItsId d
      → AllEntries (IsLinked g) (link nx g d)
  unfolding link
  link-IsLinked g [] h = tt
  link-IsLinked g ((k, n) ∷ d) h = ((h.0, refl, refl), link-IsLinked g d h.1)

module _ (nx : Networkx) (laws : IsNetworkx nx) where
  pub keys-add_tasks :
      (ts : List TaskConfig) (dag : Dag nx) (x : String)
      → contains (keys (add_tasks nx ts dag).nodes) x
        ≡ (contains (task_ids ts) x || contains (keys dag.nodes) x)
  unfolding add_tasks
  keys-add_tasks [] dag x = refl
  keys-add_tasks (t ∷ ts) dag x = ground (
    arith,
    keys-add_tasks ts
        (record { nodes = insert t.id (task_node t) dag.nodes; graph = nx.add_node dag.graph t.id })
        x,
    contains-keys-insert t.id x (task_node t) dag.nodes,
  )

  pub nodes-add_tasks :
      (ts : List TaskConfig) (dag : Dag nx) (x : String)
      → contains (nx.nodes (add_tasks nx ts dag).graph) x
        ≡ (contains (task_ids ts) x || contains (nx.nodes dag.graph) x)
  unfolding add_tasks
  nodes-add_tasks [] dag x = refl
  nodes-add_tasks (t ∷ ts) dag x = ground (
    arith,
    nodes-add_tasks ts
        (record { nodes = insert t.id (task_node t) dag.nodes; graph = nx.add_node dag.graph t.id })
        x,
    laws.nodes-add_node dag.graph t.id x,
  )

  pub edges-add_tasks :
      (ts : List TaskConfig) (dag : Dag nx) (u v : String)
      → has_edge (nx.edges (add_tasks nx ts dag).graph) u v ≡ has_edge (nx.edges dag.graph) u v
  unfolding add_tasks
  edges-add_tasks [] dag u v = refl
  edges-add_tasks (t ∷ ts) dag u v =
      edges-add_tasks ts
        (record { nodes = insert t.id (task_node t) dag.nodes; graph = nx.add_node dag.graph t.id })
        u v
      ∙ laws.edges-add_node dag.graph t.id u v

  Extends-cons :
      (e : EdgeConfig) (es : List EdgeConfig) (dag dag' : Dag nx)
      → IsKnown nx dag.nodes e
      → Extends nx es (joined nx e dag) dag'
      → Extends nx (e ∷ es) dag dag'
  Extends-cons e es dag dag' (from_known, to_known) rest = record {
    same_keys = rest.same_keys;
    known = ((from_known, to_known), rest.known);
    edges = λ u v.
        ground (arith, rest.edges u v, laws.edges-add_edge dag.graph e.from_task e.to_task u v);
    nodes = λ covered x.
        let same : (y : String)
            → contains (nx.nodes (joined nx e dag).graph) y ≡ contains (nx.nodes dag.graph) y =
          λ y.
            laws.nodes-add_edge dag.graph e.from_task e.to_task y (covered e.from_task from_known)
              (covered e.to_task to_known) in
        rest.nodes (λ y key. same y ∙ covered y key) x ∙ same x;
  }

  pub add_edges-Extends :
      (es : List EdgeConfig) (dag dag' : Dag nx)
      → add_edges nx es dag ≡ return dag'
      → Extends nx es dag dag'
  unfolding add_edges
  add_edges-Extends [] dag dag' h = record {
    same_keys = ground arith;
    known = tt;
    edges = λ u v. ground arith;
    nodes = λ c x. ground arith;
  }
  add_edges-Extends (e ∷ es) dag dag' h =
      let (known, rest) = add_edges-cons nx e es dag dag' h in
      Extends-cons e es dag dag' known (add_edges-Extends es (joined nx e dag) dag' rest)
