-- ===== src/Workflow/Graphs.antt =====
-- What app/engine/dag.py uses of the package networkx: a directed graph over task ids. The package
-- is not part of the repository, so its functions are a parameter, and what its documentation says
-- of them is the record of laws.
pub mod Adjacency
use python_backend_projects.Base.{
  ℕ, ◌<◌, ◌≡◌, String, Bool, true, false, ◌&&◌, ◌||◌, List, [], ◌∷◌, ◌==◌, contains, length,
}

-- `(u, v) in edges`
abbrev pub has_edge : List (String × String) → String → String → Bool
has_edge [] u v = false
has_edge ((a, b) ∷ es) u v = u == a && v == b || has_edge es u v

pub record Networkx : Type 1 where
  pub DiGraph : Type 0
  pub empty_graph : DiGraph
  pub add_node : DiGraph → String → DiGraph
  pub add_edge : DiGraph → String → String → DiGraph
  pub nodes : DiGraph → List String
  pub edges : DiGraph → List (String × String)
  pub predecessors : DiGraph → String → List String
  pub successors : DiGraph → String → List String
  pub in_degree : DiGraph → String → ℕ
  pub is_directed_acyclic_graph : DiGraph → Bool
  pub topological_generations : DiGraph → List (List String)

-- A numbering that grows along every edge: a directed graph has one exactly if it has no cycle.
pub record IsRanking (es : List (String × String)) (rank : String → ℕ) : Type 0 where
  pub grows : (u v : String) → has_edge es u v ≡ true → rank u < rank v

pub record IsNetworkx (nx : Networkx) : Type 0 where
  pub nodes-empty : nx.nodes nx.empty_graph ≡ []
  pub edges-empty : nx.edges nx.empty_graph ≡ []
  pub nodes-add_node :
      (g : nx.DiGraph) (n x : String)
      → contains (nx.nodes (nx.add_node g n)) x ≡ (x == n || contains (nx.nodes g) x)
  pub edges-add_node :
      (g : nx.DiGraph) (n u v : String)
      → has_edge (nx.edges (nx.add_node g n)) u v ≡ has_edge (nx.edges g) u v
  -- an edge between nodes that are there already
  pub nodes-add_edge :
      (g : nx.DiGraph) (a b x : String)
      → contains (nx.nodes g) a ≡ true
      → contains (nx.nodes g) b ≡ true
      → contains (nx.nodes (nx.add_edge g a b)) x ≡ contains (nx.nodes g) x
  pub edges-add_edge :
      (g : nx.DiGraph) (a b u v : String)
      → has_edge (nx.edges (nx.add_edge g a b)) u v
        ≡ (u == a && v == b || has_edge (nx.edges g) u v)
  pub contains-predecessors :
      (g : nx.DiGraph) (v u : String) → contains (nx.predecessors g v) u ≡ has_edge (nx.edges g) u v
  pub contains-successors :
      (g : nx.DiGraph) (u v : String) → contains (nx.successors g u) v ≡ has_edge (nx.edges g) u v
  pub in_degree-predecessors :
      (g : nx.DiGraph) (v : String) → nx.in_degree g v ≡ length (nx.predecessors g v)
  pub acyclic_ranking :
      (g : nx.DiGraph)
      → nx.is_directed_acyclic_graph g ≡ true
      → (rank : String → ℕ) × IsRanking (nx.edges g) rank
  pub ranking_acyclic :
      (g : nx.DiGraph) (rank : String → ℕ)
      → IsRanking (nx.edges g) rank
      → nx.is_directed_acyclic_graph g ≡ true
