-- ===== src/Graph.antt =====
-- The workflow graph as the engine sees it: petgraph's `DiGraph<Uuid, EdgeLogic>`, whose methods are
-- parameters, and the edge label of talos-workflow-engine-core/src/edge.rs.
pub mod Edges
use talos_workflow_engine.Base.{
  ℕ, ◌≤◌, ◌<◌, ◌^◌, String, ◌≡◌, ◌⊎◌, Option, none, some, List, [], ◌∷◌, length, count,
}

pub record EdgeLogic : Type 0 where
  pub source_handle : String
  pub target_handle : String
  pub mapping : Option String
  pub condition : Option String
  pub edge_type : String

abbrev pub Listed : EdgeLogic → List EdgeLogic → Type 0
Listed l [] = ⊥
Listed l (x ∷ xs) = (x ≡ l) ⊎ Listed l xs

-- The calls that the engine makes: `node_indices`, `graph[idx]`, `neighbors_directed` in both
-- directions (one item for each edge), `edges_connecting` and `find_edge`.
pub record DiGraph : Type 0 where
  pub node_indices : List ℕ
  pub weight : ℕ → ℕ
  pub outgoing : ℕ → List ℕ
  pub incoming : ℕ → List ℕ
  pub edges_connecting : ℕ → ℕ → List EdgeLogic
  pub find_edge : ℕ → ℕ → Option EdgeLogic

-- petgraph's indices are 32-bit numbers. The number is shut: proofs compare with it, and do not count.
unfoldable pub edge_limit : ℕ
edge_limit = 2 ^ 32

-- What petgraph documents of them: indices are listed once, each edge is seen from both ends, edges
-- join listed nodes, `edges_connecting` lists the edges that `neighbors_directed` goes through, and
-- `find_edge` finds one of them if there is one.
pub record IsDiGraph (g : DiGraph) : Type 0 where
  pub indices_once : (i : ℕ) → count i g.node_indices ≤ 1
  pub both_ends : (p c : ℕ) → count c (g.outgoing p) ≡ count p (g.incoming c)
  pub source_listed : (p c : ℕ) → 0 < count c (g.outgoing p) → 0 < count p g.node_indices
  pub target_listed : (p c : ℕ) → 0 < count c (g.outgoing p) → 0 < count c g.node_indices
  pub edges_listed : (p c : ℕ) → length (g.edges_connecting p c) ≡ count c (g.outgoing p)
  pub few_edges : (c : ℕ) → length (g.incoming c) < edge_limit
  pub found_listed :
      (p c : ℕ) (l : EdgeLogic) → g.find_edge p c ≡ some l → Listed l (g.edges_connecting p c)
  pub found_if_any : (p c : ℕ) → g.find_edge p c ≡ none → g.edges_connecting p c ≡ []

unfoldable pub out_degree : DiGraph → ℕ → ℕ
out_degree g i = length (g.outgoing i)

unfoldable pub in_degree : DiGraph → ℕ → ℕ
in_degree g i = length (g.incoming i)
