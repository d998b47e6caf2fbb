-- ===== src/Loader/Trigger.antt =====
-- `ensure_trigger_node_wired_to_roots` of talos-workflow-engine/src/engine.rs: the synthetic node that
-- leads to every root of a loaded graph.
use text.Mathlib.Text.{◌==◌ as str_eq}
use talos_workflow_engine.Base.{
  ℕ, suc, ◌≤◌, String, ◌≡◌, refl, Bool, true, false, Option, none, some, List, [], ◌∷◌, length, leb,
  ◌==◌, get_elem?, arith, if◌then◌else◌,
}
use talos_workflow_engine.Base.Options.{◌>>=◌, unwrap_or}
use talos_workflow_engine.Base.HashMap
use talos_workflow_engine.Base.HashMap.{HashMap}
use talos_workflow_engine.Graph.{EdgeLogic}
use talos_workflow_engine.Graph.Edges.{Edge, sources, connecting}
use talos_workflow_engine.Loader.{Loading, add_node, add_edge}

unfoldable pub find_trigger : HashMap String → Option ℕ
find_trigger [] = none
find_trigger ((id, label) ∷ labels) =
    if str_eq label "__trigger__" then some id else find_trigger labels

-- The nodes without predecessors but the trigger, from the place `i` on.
unfoldable pub roots_from : List Edge → ℕ → ℕ → List ℕ → List ℕ
roots_from es trigger i [] = []
roots_from es trigger i (id ∷ ids) =
    let rest = roots_from es trigger (suc i) ids in
    if id == trigger then rest else if length (sources es i) == 0 then id ∷ rest else rest

abbrev pub default_logic : EdgeLogic
default_logic = record {
  source_handle = "output";
  target_handle = "input";
  mapping = none;
  condition = none;
  edge_type = "default";
}

unfoldable pub is_wired : List Edge → ℕ → ℕ → Bool
is_wired es p c = elim (connecting es p c) [ [] ↦ false | l ∷ ls ↦ true ]

-- Both ends are looked up by an indexing that panics where one is missing: that is `none`.
unfoldable pub wire : ℕ → List ℕ → Loading → Option Loading
unfolding is_wired add_edge
wire trigger [] s = some s
wire trigger (root ∷ roots) s = do
  trigger_idx ← HashMap.get s.node_map trigger
  root_idx ← HashMap.get s.node_map root
  wire trigger roots (
      if is_wired s.edges trigger_idx root_idx
      then s
      else unwrap_or (add_edge s trigger root default_logic) s)

-- The trigger and the engine with it; `fresh` is the new UUID.
unfoldable pub with_trigger : ℕ → Loading → ℕ × Loading
unfolding find_trigger add_node
with_trigger fresh s = elim (find_trigger s.node_labels) [
  | some id ↦ (id, s)
  | none ↦
      let added = add_node s fresh none none none in
      (fresh, record added { node_labels = HashMap.insert added.node_labels fresh "__trigger__" })
]

unfoldable pub paired : ℕ → Loading → Option (ℕ × Loading)
paired trigger u = some (trigger, u)

unfoldable pub ensure_trigger_node_wired_to_roots : ℕ → Loading → Option (ℕ × Loading)
unfolding with_trigger roots_from wire paired
ensure_trigger_node_wired_to_roots fresh s =
    let (trigger, t) = with_trigger fresh s in
    wire trigger (roots_from t.edges trigger 0 t.nodes) t >>= paired trigger

-- Every node of the graph is the one that its id is mapped to.
abbrev pub IsIndexed : Loading → Type 0
IsIndexed s = (i u : ℕ) → get_elem? s.nodes i ≡ some u → HashMap.get s.node_map u ≡ some i

-- Where the graph holds as many nodes as the engine allows and has no trigger yet, the trigger is not
-- added, and the call panics as soon as there is a root to wire.
pub ensure_trigger_node_wired_to_roots-panics :
    (fresh root : ℕ) (roots : List ℕ) (s : Loading)
    → find_trigger s.node_labels ≡ none
    → s.max_workflow_nodes ≤ length s.nodes
    → HashMap.get s.node_map fresh ≡ none
    → roots_from s.edges fresh 0 s.nodes ≡ root ∷ roots
    → ensure_trigger_node_wired_to_roots fresh s ≡ none
unfolding ensure_trigger_node_wired_to_roots with_trigger add_node wire
ensure_trigger_node_wired_to_roots-panics fresh root roots s unlabelled full unknown listed =
    let at_cap : leb s.max_workflow_nodes (length s.nodes) ≡ true = ground arith in
    rw (unlabelled, at_cap, with_trigger) (rw (listed, unknown, wire) refl)
