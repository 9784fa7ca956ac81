-- ===== src/Workflow/Dag.antt =====
-- app/engine/dag.py: the graph of a workflow's tasks.
pub mod Parsing
pub mod Described
pub mod Construction
pub mod Acceptance
pub mod Ready
pub mod Progress
use python_backend_projects.Base.{
  ℕ, String, ◌<>◌, Bool, true, false, not, ◌&&◌, ◌||◌, Option, none, some, List, [], ◌∷◌, Result,
  return, raise, value_error, key_error, contains, keep, all, any, nat_eq, is_empty, if◌then◌else◌,
}
use python_backend_projects.Base.Int.{ℤ, pos}
use python_backend_projects.Base.Dict.{Dict, keys, lookup, insert, get_item}
use python_backend_projects.Base.Value.{Fields}
use python_backend_projects.Workflow.Graphs.{Networkx}
use python_backend_projects.Workflow.Schemas.{RetryConfig, TaskConfig, EdgeConfig, DagDefinition}

pub record DagNode : Type 0 where
  pub task_id : String
  pub task_type : String
  pub task_name : String
  pub config : Fields
  pub retry_config : Option RetryConfig
  pub timeout_seconds : ℤ
  pub dependencies : List String
  pub dependents : List String

-- the node of a task, before the edges are known
abbrev pub task_node : TaskConfig → DagNode
task_node t = record {
  task_id = t.id;
  task_type = t.type;
  task_name = t.name;
  config = t.config;
  retry_config = t.retry;
  timeout_seconds = elim t.timeout_seconds [ none ↦ pos 300 | some s ↦ s ];
  dependencies = [];
  dependents = [];
}

-- collects the results of a comprehension whose items can raise
abbrev pub collect {ℓ κ} : {A : Type ℓ} {B : Type κ} → (A → Result B) → List A → Result (List B)
collect f [] = return []
collect f (x ∷ xs) = elim (f x) [
  | raise e ↦ raise e
  | return y ↦ elim (collect f xs) [ raise e ↦ raise e | return ys ↦ return (y ∷ ys) ]
]

module _ (nx : Networkx) where
  pub record Dag : Type 0 where
    pub nodes : Dict DagNode
    pub graph : nx.DiGraph

  -- the first loop of `_parse`
  unfoldable pub add_tasks : List TaskConfig → Dag → Dag
  add_tasks [] dag = dag
  add_tasks (t ∷ ts) dag =
      add_tasks ts
        (record { nodes = insert t.id (task_node t) dag.nodes; graph = nx.add_node dag.graph t.id })

  -- the second loop of `_parse`
  unfoldable pub add_edges : List EdgeConfig → Dag → Result Dag
  add_edges [] dag = return dag
  add_edges (e ∷ es) dag =
      if not (contains (keys dag.nodes) e.from_task) || not (contains (keys dag.nodes) e.to_task)
      then raise
          (value_error ("Edge references unknown task: " <> e.from_task <> " -> " <> e.to_task))
      else add_edges es (record dag { graph = nx.add_edge dag.graph e.from_task e.to_task })

  -- the third loop of `_parse`
  unfoldable pub link : nx.DiGraph → Dict DagNode → Dict DagNode
  link g [] = []
  link g ((k, n) ∷ d) =
      (k, record n { dependencies = nx.predecessors g k; dependents = nx.successors g k })
      ∷ link g d

  unfoldable pub parse : DagDefinition → Result Dag
  unfolding add_tasks add_edges link
  parse definition =
      elim (add_edges definition.edges
        (add_tasks definition.tasks (record { nodes = []; graph = nx.empty_graph }))) [
          | raise e ↦ raise e
          | return dag ↦ return (record dag { nodes = link dag.graph dag.nodes })
        ]

  -- `[n for n in self.graph.nodes if self.graph.in_degree(n) == 0]`
  abbrev pub roots : nx.DiGraph → List String
  roots g = keep (λ n. nat_eq (nx.in_degree g n) 0) (nx.nodes g)

  abbrev unknown_edge : Dag → List (String × String) → Option (String × String)
  unknown_edge dag [] = none
  unknown_edge dag ((u, v) ∷ es) =
      if not (contains (keys dag.nodes) u) || not (contains (keys dag.nodes) v)
      then some (u, v)
      else unknown_edge dag es

  unfoldable pub validate : Dag → Result (Unit {0})
  validate dag = elim (unknown_edge dag (nx.edges dag.graph)) [
    | some (u, v) ↦ raise (value_error ("Edge references unknown task: " <> u <> " -> " <> v))
    | none ↦
        if not (nx.is_directed_acyclic_graph dag.graph)
        then raise (value_error "DAG contains a cycle")
        else elim (roots dag.graph) [
          | [] ↦ raise (value_error "DAG must have at least one root task with no dependencies")
          | _ ∷ _ ↦ return tt
        ]
  ]

  -- `DAG(definition)`
  unfoldable pub create : DagDefinition → Result Dag
  unfolding parse validate
  create definition = elim (parse definition) [
    | raise e ↦ raise e
    | return dag ↦ elim (validate dag) [ raise e ↦ raise e | return _ ↦ return dag ]
  ]

  unfoldable pub get_root_tasks : Dag → Result (List DagNode)
  get_root_tasks dag = collect (λ n. get_item n dag.nodes) (roots dag.graph)

  -- all predecessors are completed, and there is one
  abbrev pub unlocked : Dag → List String → String → Bool
  unlocked dag completed_ids succ =
      let preds = nx.predecessors dag.graph succ in
      not (is_empty preds) && all (contains completed_ids) preds

  unfoldable pub get_next_tasks : Dag → String → List String → Result (List DagNode)
  get_next_tasks dag completed_task_id completed_ids =
      collect (λ succ. get_item succ dag.nodes)
        (keep (unlocked dag completed_ids) (nx.successors dag.graph completed_task_id))

  -- the body of the loop of `get_ready_tasks`: whether the node of that id is appended
  unfoldable pub is_ready : Dag → List String → List String → List String → String → Bool
  is_ready dag completed_ids skipped_ids running_ids nid =
      if contains completed_ids nid || contains skipped_ids nid || contains running_ids nid
      then false
      else let preds = nx.predecessors dag.graph nid in
        if any (contains skipped_ids) preds then false else all (contains completed_ids) preds

  abbrev pub ready_from :
      Dag → List String → List String → List String → Dict DagNode → List DagNode
  ready_from dag completed_ids skipped_ids running_ids [] = []
  ready_from dag completed_ids skipped_ids running_ids ((nid, node) ∷ rest) =
      let more = ready_from dag completed_ids skipped_ids running_ids rest in
      if is_ready dag completed_ids skipped_ids running_ids nid then node ∷ more else more

  unfoldable pub get_ready_tasks : Dag → List String → List String → List String → List DagNode
  unfolding is_ready
  get_ready_tasks dag completed_ids skipped_ids running_ids =
      ready_from dag completed_ids skipped_ids running_ids dag.nodes

  unfoldable pub get_execution_order : Dag → List (List String)
  get_execution_order dag = nx.topological_generations dag.graph

  unfoldable pub get_task : Dag → String → Result DagNode
  get_task dag task_id =
      if not (contains (keys dag.nodes) task_id)
      then raise (key_error ("Unknown task id: " <> task_id))
      else get_item task_id dag.nodes

  unfoldable pub predecessors : Dag → String → List String
  predecessors dag task_id = nx.predecessors dag.graph task_id

  unfoldable pub successors : Dag → String → List String
  successors dag task_id = nx.successors dag.graph task_id

  unfoldable pub all_task_ids : Dag → List String
  all_task_ids dag = keys dag.nodes
