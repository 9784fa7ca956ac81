-- ===== src/Workflow/Graphs/Adjacency.antt =====
-- A concrete graph library that meets the laws of `IsNetworkx`: lists of nodes and of edges, with
-- acyclicity tested by taking away, round by round, the edges whose source has no entering edge.
mod Peel
use python_backend_projects.Base.{
  ℕ, zero, suc, ◌<◌, ◌≤◌, String, ◌≡◌, refl, sym, ◌∙◌, ap, Bool, true, false, ◌&&◌, ◌||◌, List, [],
  ◌∷◌, ◌++◌, contains, contains-append, length, is_empty, str_dec, arith, ◌==◌, if◌then◌else◌,
}
use python_backend_projects.Workflow.Graphs.{Networkx, IsNetworkx, IsRanking, has_edge}
use Peel.{peel, peel_rank, peel-IsRanking, IsRanking-peel}

abbrev Nodes : Type 0
Nodes = List String

abbrev with_node : Nodes → String → Nodes
with_node ns n = if contains ns n then ns else ns ++ (n ∷ [])

abbrev sources_of : List (String × String) → String → List String
sources_of [] v = []
sources_of ((a, b) ∷ es) v = if v == b then a ∷ sources_of es v else sources_of es v

abbrev targets_of : List (String × String) → String → List String
targets_of [] u = []
targets_of ((a, b) ∷ es) u = if u == a then b ∷ targets_of es u else targets_of es u

abbrev with_edge : List (String × String) → String → String → List (String × String)
with_edge es a b = if has_edge es a b then es else (a, b) ∷ es

unfoldable pub adjacency : Networkx
unfolding peel
adjacency = record {
  DiGraph = List String × List (String × String);
  empty_graph = ([], []);
  add_node = λ g n. (with_node g.0 n, g.1);
  add_edge = λ g a b. (with_node (with_node g.0 a) b, with_edge g.1 a b);
  nodes = λ g. g.0;
  edges = λ g. g.1;
  predecessors = λ g v. sources_of g.1 v;
  successors = λ g u. targets_of g.1 u;
  in_degree = λ g v. length (sources_of g.1 v);
  is_directed_acyclic_graph = λ g. peel (length g.1) g.1;
  topological_generations = λ g. g.0 ∷ [];
}

contains-with_node :
    (ns : Nodes) (n x : String) → contains (with_node ns n) x ≡ (x == n || contains ns x)
contains-with_node ns n x = elim (str_dec x n) [
  | yes same ↦ ground (arith, contains-append ns (n ∷ []) x, ap (contains ns) same)
  | no other ↦ ground (arith, contains-append ns (n ∷ []) x)
]

-- Adding nodes that are there already changes nothing.
with_node_twice :
    (ns : Nodes) (a b x : String)
    → contains ns a ≡ true
    → contains ns b ≡ true
    → contains (with_node (with_node ns a) b) x ≡ contains ns x
with_node_twice ns a b x ha hb = rw (ha, hb)

has_edge-with_edge :
    (es : List (String × String)) (a b u v : String)
    → has_edge (with_edge es a b) u v ≡ (u == a && v == b || has_edge es u v)
has_edge-with_edge es a b u v = elim (str_dec u a) [
  | yes same_u ↦ elim (str_dec v b) [
    | yes same_v ↦ ground (arith, ap (has_edge es u) same_v, ap (λ s. has_edge es s b) same_u)
    | no other ↦ ground arith
  ]
  | no other ↦ ground arith
]

contains-sources_of :
    (es : List (String × String)) (v u : String) → contains (sources_of es v) u ≡ has_edge es u v
contains-sources_of [] v u = refl
contains-sources_of ((a, b) ∷ es) v u = ground (arith, contains-sources_of es v u)

contains-targets_of :
    (es : List (String × String)) (u v : String) → contains (targets_of es u) v ≡ has_edge es u v
contains-targets_of [] u v = refl
contains-targets_of ((a, b) ∷ es) u v = ground (arith, contains-targets_of es u v)

pub adjacency-IsNetworkx : IsNetworkx adjacency
unfolding adjacency
adjacency-IsNetworkx = record {
  nodes-empty = refl;
  edges-empty = refl;
  nodes-add_node = λ g n x. contains-with_node g.0 n x;
  edges-add_node = λ g n u v. refl;
  nodes-add_edge = λ g a b x ha hb. with_node_twice g.0 a b x ha hb;
  edges-add_edge = λ g a b u v. has_edge-with_edge g.1 a b u v;
  contains-predecessors = λ g v u. contains-sources_of g.1 v u;
  contains-successors = λ g u v. contains-targets_of g.1 u v;
  in_degree-predecessors = λ g v. refl;
  acyclic_ranking = λ g h. (peel_rank (length g.1) g.1, peel-IsRanking (length g.1) g.1 h);
  ranking_acyclic = λ g rank r. IsRanking-peel rank (length g.1) g.1 (omega arith) r;
}
