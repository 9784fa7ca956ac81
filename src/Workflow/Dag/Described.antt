-- ===== src/Workflow/Dag/Described.antt =====
-- Which task of the definition a node of `DAG` (app/engine/dag.py) is of.
use python_backend_projects.Base.{
  String, ◌≡◌, ◌⊎◌, inl, inr, refl, Option, none, some, List, [], ◌∷◌,
}
use python_backend_projects.Base.Int.{ℤ, pos}
use python_backend_projects.Base.Dict.{Dict, insert, AllEntries, AllEntries-insert}
use python_backend_projects.Workflow.Schemas.{TaskConfig}
use python_backend_projects.Workflow.Graphs.{Networkx}
use python_backend_projects.Workflow.Dag.{DagNode, Dag, task_node, add_tasks, link}

-- the seconds that are given, or 300
abbrev pub IsTimeout : Option ℤ → ℤ → Type 0
IsTimeout none seconds = seconds ≡ pos 300
IsTimeout (some given) seconds = seconds ≡ given

-- The node under a key has the columns of a task of that id.
pub record IsOf (t : TaskConfig) (k : String) (n : DagNode) : Type 0 where
  pub id : k ≡ t.id
  pub type : n.task_type ≡ t.type
  pub name : n.task_name ≡ t.name
  pub config : n.config ≡ t.config
  pub retry : n.retry_config ≡ t.retry
  pub timeout : IsTimeout t.timeout_seconds n.timeout_seconds

-- It is of one of the tasks.
abbrev pub IsDescribed : List TaskConfig → String → DagNode → Type 0
IsDescribed [] k n = ⊥
IsDescribed (t ∷ ts) k n = IsOf t k n ⊎ IsDescribed ts k n

-- It is of one of some tasks that all stand among the others.
abbrev Within : List TaskConfig → List TaskConfig → Type 0
Within ts us = (k : String) (n : DagNode) → IsDescribed ts k n → IsDescribed us k n

timeout_of : (t : TaskConfig) (o : Option ℤ) → IsTimeout o (elim o [ none ↦ pos 300 | some s ↦ s ])
timeout_of t none = refl
timeout_of t (some s) = refl

task_node-IsOf : (t : TaskConfig) → IsOf t t.id (task_node t)
task_node-IsOf t = record {
  id = refl;
  type = refl;
  name = refl;
  config = refl;
  retry = refl;
  timeout = timeout_of t t.timeout_seconds;
}

module _ (nx : Networkx) where
  add_tasks-IsDescribed :
      (us ts : List TaskConfig) (dag : Dag nx)
      → Within ts us
      → AllEntries (IsDescribed us) dag.nodes
      → AllEntries (IsDescribed us) (add_tasks nx ts dag).nodes
  unfolding add_tasks
  add_tasks-IsDescribed us [] dag within h = h
  add_tasks-IsDescribed us (t ∷ ts) dag within h =
      add_tasks-IsDescribed us ts
        (record { nodes = insert t.id (task_node t) dag.nodes; graph = nx.add_node dag.graph t.id })
        (λ k n d. within k n (inr d))
        (AllEntries-insert (IsDescribed us) t.id (task_node t) dag.nodes
          (within t.id (task_node t) (inl (task_node-IsOf t))) h)

  pub add_tasks-AllDescribed :
      (ts : List TaskConfig) (g : nx.DiGraph)
      → AllEntries (IsDescribed ts) (add_tasks nx ts (record { nodes = []; graph = g })).nodes
  add_tasks-AllDescribed ts g =
      add_tasks-IsDescribed ts ts (record { nodes = []; graph = g }) (λ k n d. d) tt

  linked-IsDescribed :
      (ts : List TaskConfig) (k : String) (n : DagNode) (before after : List String)
      → IsDescribed ts k n
      → IsDescribed ts k (record n { dependencies = before; dependents = after })
  linked-IsDescribed [] k n before after h = h
  linked-IsDescribed (t ∷ ts) k n before after (inl h) = inl (record {
    id = h.id;
    type = h.type;
    name = h.name;
    config = h.config;
    retry = h.retry;
    timeout = h.timeout;
  })
  linked-IsDescribed (t ∷ ts) k n before after (inr h) =
      inr (linked-IsDescribed ts k n before after h)

  pub link-AllDescribed :
      (ts : List TaskConfig) (g : nx.DiGraph) (d : Dict DagNode)
      → AllEntries (IsDescribed ts) d
      → AllEntries (IsDescribed ts) (link nx g d)
  unfolding link
  link-AllDescribed ts g [] h = tt
  link-AllDescribed ts g ((k, n) ∷ d) h =
      (linked-IsDescribed ts k n _ _ h.0, link-AllDescribed ts g d h.1)
