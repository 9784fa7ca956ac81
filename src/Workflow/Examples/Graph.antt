-- ===== src/Workflow/Examples/Graph.antt =====
-- The dag of a workflow (app/engine/dag.py) at concrete inputs, over a concrete graph library.
use python_backend_projects.Base.{
  str_dec, ==→eq, ℕ, ◌<◌, String, ◌≡◌, ◌≢◌, refl, ◌↔◌, true, [], ◌∷◌, return, contains, arith, ◌==◌,
  if◌then◌else◌,
}
use python_backend_projects.Base.Dict.{keys, AllEntries}
use python_backend_projects.Workflow.Graphs.{has_edge}
use python_backend_projects.Workflow.Graphs.Adjacency.{adjacency, adjacency-IsNetworkx}
use python_backend_projects.Workflow.Dag.{Dag, create, get_ready_tasks}
use python_backend_projects.Workflow.Dag.Parsing.{HoldsItsId}
use python_backend_projects.Workflow.Dag.Construction.{IsBuilt}
use python_backend_projects.Workflow.Dag.Acceptance.{IsAcceptable, create-IsBuilt, create_total}
use python_backend_projects.Workflow.Dag.Ready.{node_ids, IsReady, get_ready_tasks_iff}
use python_backend_projects.Workflow.Dag.Progress.{
  is_open, NoneBlocked, get_ready_tasks_progress, get_ready_tasks_stalls,
}
use python_backend_projects.Workflow.Examples.Fixtures.{fetch_dag, task, fetch_and_store}

fetch_rank : String → ℕ
fetch_rank n = if n == "store" then 1 else 0

pub fetch-created : create adjacency fetch_and_store ≡ return fetch_dag
unfolding create adjacency str_dec fetch_dag
fetch-created = refl

create-IsBuilt_example : IsBuilt adjacency fetch_and_store fetch_dag
create-IsBuilt_example =
    create-IsBuilt adjacency adjacency-IsNetworkx fetch_and_store fetch_dag fetch-created

fetch_rank-grows :
    (u v : String) → has_edge (("fetch", "store") ∷ []) u v ≡ true → fetch_rank u < fetch_rank v
unfolding fetch_rank str_dec
fetch_rank-grows u v h =
    let at_fetch : u ≡ "fetch" = ==→eq u "fetch" (ground (arith, h)) in
    let at_store : v ≡ "store" = ==→eq v "store" (ground (arith, h)) in
    rw (at_fetch, at_store) (omega arith)

fetch_and_store-IsAcceptable : IsAcceptable fetch_and_store
unfolding str_dec
fetch_and_store-IsAcceptable = record {
  first = task "fetch";
  others = task "store" ∷ [];
  some_task = refl;
  known = ((refl, refl), tt);
  ranking = (fetch_rank, record { grows = fetch_rank-grows });
}

create_total_example :
    (dag : Dag adjacency) × (create adjacency fetch_and_store ≡ return dag)
    × IsBuilt adjacency fetch_and_store dag
create_total_example =
    create_total adjacency adjacency-IsNetworkx fetch_and_store fetch_and_store-IsAcceptable

fetch_dag-HoldsItsId : AllEntries HoldsItsId fetch_dag.nodes
unfolding fetch_dag
fetch_dag-HoldsItsId = (refl, (refl, tt))

get_ready_tasks_iff_example :
    (contains (node_ids (get_ready_tasks adjacency fetch_dag ("fetch" ∷ []) [] [])) "store" ≡ true)
    ↔ IsReady adjacency fetch_dag ("fetch" ∷ []) [] [] "store"
get_ready_tasks_iff_example =
    get_ready_tasks_iff adjacency adjacency-IsNetworkx fetch_dag ("fetch" ∷ []) [] []
      fetch_dag-HoldsItsId "store"

-- After "fetch" no task is skipped, so nothing is blocked.
fetch_dag-NoneBlocked : NoneBlocked adjacency fetch_dag ("fetch" ∷ []) []
fetch_dag-NoneBlocked = record { free = λ p n e o. refl }

get_ready_tasks_progress_example : get_ready_tasks adjacency fetch_dag ("fetch" ∷ []) [] [] ≢ []
unfolding fetch_dag str_dec
get_ready_tasks_progress_example =
    get_ready_tasks_progress adjacency adjacency-IsNetworkx fetch_and_store fetch_dag
      create-IsBuilt_example ("fetch" ∷ []) [] fetch_dag-NoneBlocked "store" refl refl

-- "fetch" was skipped, so "store" comes after a skipped task.
store_blocked :
    (n : String)
    → contains (keys fetch_dag.nodes) n ≡ true
    → is_open adjacency [] ("fetch" ∷ []) n ≡ true
    → (p : String) × (has_edge (adjacency.edges fetch_dag.graph) p n ≡ true)
      × (contains ("fetch" ∷ []) p ≡ true)
unfolding fetch_dag adjacency str_dec
store_blocked n known open_n =
    let at_store : n ≡ "store" = ==→eq n "store" (ground (arith, known, open_n)) in
    ("fetch", rw at_store refl, refl)

get_ready_tasks_stalls_example : get_ready_tasks adjacency fetch_dag [] ("fetch" ∷ []) [] ≡ []
get_ready_tasks_stalls_example =
    get_ready_tasks_stalls adjacency adjacency-IsNetworkx fetch_and_store fetch_dag
      create-IsBuilt_example [] ("fetch" ∷ []) store_blocked
