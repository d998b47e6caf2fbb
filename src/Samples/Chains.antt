-- ===== src/Samples/Chains.antt =====
-- Chain detection on a path with a side branch, and on a node with two predecessors.
use talos_workflow_engine.Base.{ℕ, ◌≤◌, ◌≡◌, refl, some, List, [], ◌∷◌, arith, count, All}
use talos_workflow_engine.Graph.{DiGraph, IsDiGraph, edge_limit}
use talos_workflow_engine.Graph.Edges.{Edge, graph_of, graph_of-IsDiGraph}
use talos_workflow_engine.Chain.{detect_linear_chains}
use talos_workflow_engine.Chain.Detect.{total}
use talos_workflow_engine.Chain.Pipelines.{
  IsPipeline, detect_linear_chains-pipelines, detect_linear_chains-fan_in,
}
use talos_workflow_engine.Samples.{plain_edge, three_once}

-- 0 and 1 lead to 2, which leads on to 3 and 4 in a row.
abbrev joined_edges : List Edge
joined_edges = plain_edge 3 4 ∷ plain_edge 2 3 ∷ plain_edge 1 2 ∷ plain_edge 0 2 ∷ []

abbrev joined : DiGraph
joined = graph_of (0 ∷ 1 ∷ 2 ∷ 3 ∷ 4 ∷ []) joined_edges

five_once : (i : ℕ) → count i (0 ∷ 1 ∷ 2 ∷ 3 ∷ 4 ∷ []) ≤ 1
five_once i = ground arith

joined-IsDiGraph : IsDiGraph joined
unfolding edge_limit
joined-IsDiGraph =
    graph_of-IsDiGraph (0 ∷ 1 ∷ 2 ∷ 3 ∷ 4 ∷ []) joined_edges five_once
      (
        (omega arith, omega arith),
        (
          (omega arith, omega arith),
          ((omega arith, omega arith), ((omega arith, omega arith), tt)),
        ),
      )
      (omega arith)

abbrev path_edges : List Edge
path_edges = plain_edge 1 2 ∷ plain_edge 0 1 ∷ []

abbrev path : DiGraph
path = graph_of (0 ∷ 1 ∷ 2 ∷ []) path_edges

path-IsDiGraph : IsDiGraph path
unfolding edge_limit
path-IsDiGraph =
    graph_of-IsDiGraph (0 ∷ 1 ∷ 2 ∷ []) path_edges three_once
      ((omega arith, omega arith), ((omega arith, omega arith), tt)) (omega arith)

detect_linear_chains-pipelines_example :
    (cs : List (List ℕ)) × (detect_linear_chains path ≡ some cs)
    × All (IsPipeline path) cs
    × ((y : ℕ) → total y cs ≤ 1)
detect_linear_chains-pipelines_example = detect_linear_chains-pipelines path path-IsDiGraph

detect_linear_chains-fan_in_example : total 2 [] ≡ 0
unfolding detect_linear_chains
detect_linear_chains-fan_in_example =
    detect_linear_chains-fan_in joined joined-IsDiGraph 2 1 [] (omega arith) refl refl refl
