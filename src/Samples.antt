-- ===== src/Samples.antt =====
-- Concrete graphs and engines, on which the theorems of this library are applied.
pub mod Runs
pub mod Chains
pub mod Outputs
pub mod Completions
pub mod Messages
pub mod Parents
pub mod Jobs
pub mod Loops
pub mod Retries
pub mod Documents
pub mod Payloads
pub mod Triggers
pub mod Workers
pub mod Checks
pub mod Gates
use Prim.Native.Nat.{ℕ}
use talos_workflow_engine.Base.{
  zero, suc, ◌≤◌, ◌<◌, ◌≡◌, refl, true, false, none, some, List, [], ◌∷◌, arith, count, All, length,
  ◌≢◌,
}
use talos_workflow_engine.Graph.{EdgeLogic, DiGraph, IsDiGraph, edge_limit}
use talos_workflow_engine.Graph.Edges.{Edge, graph_of, graph_of-IsDiGraph}
use talos_workflow_engine.Engine.{Engine, Externals}

abbrev pub plain_edge : ℕ → ℕ → Edge
plain_edge p c = record {
  source = p;
  target = c;
  logic = record {
    source_handle = "out";
    target_handle = "in";
    mapping = none;
    condition = none;
    edge_type = "default";
  };
}

abbrev pub error_edge : ℕ → ℕ → Edge
error_edge p c = record {
  source = p;
  target = c;
  logic = record {
    source_handle = "out";
    target_handle = "in";
    mapping = none;
    condition = none;
    edge_type = "error";
  };
}

-- No external service is set up, and every output is 2 bytes long.
abbrev pub externals : Externals
externals = record {
  json_bytes = λ v. some 2;
  decimal = λ n. "n";
  uuid_text = λ n. "id";
  redact_str = none;
  redact_error = some (λ s. "redacted");
  eval_bool = none;
}

abbrev pub engine_of : DiGraph → Engine
engine_of g = record {
  graph = g;
  node_labels = [];
  node_configs = [];
  node_meta = [];
  workflow_id = none;
  actor_id = none;
  max_node_output_bytes = 1000;
  has_event_sink = true;
  has_node_hook = true;
  externals = externals;
}

-- 0 leads to 1 and 2, and 1 to 2.
abbrev pub triangle_edges : List Edge
triangle_edges = plain_edge 1 2 ∷ plain_edge 0 2 ∷ plain_edge 0 1 ∷ []

abbrev pub triangle : DiGraph
triangle = graph_of (0 ∷ 1 ∷ 2 ∷ []) triangle_edges

pub three_once : (i : ℕ) → count i (0 ∷ 1 ∷ 2 ∷ []) ≤ 1
three_once i = ground arith

pub triangle-IsDiGraph : IsDiGraph triangle
unfolding edge_limit
triangle-IsDiGraph =
    graph_of-IsDiGraph (0 ∷ 1 ∷ 2 ∷ []) triangle_edges three_once
      ((omega arith, omega arith), ((omega arith, omega arith), ((omega arith, omega arith), tt)))
      (omega arith)
