-- ===== src/Samples/Triggers.antt =====
-- A graph of two roots, and one that is full.
use talos_workflow_engine.Base.{ℕ, zero, suc, ◌≡◌, refl, some, none, [], ◌∷◌, arith, get_elem?}
use talos_workflow_engine.Base.HashMap
use talos_workflow_engine.Loader.{Loading}
use talos_workflow_engine.Loader.Trigger.{
  IsIndexed, ensure_trigger_node_wired_to_roots, ensure_trigger_node_wired_to_roots-panics,
  find_trigger, roots_from,
}
use talos_workflow_engine.Loader.Fed.{Fed, ensure_trigger_node_wired_to_roots-feeds}
use talos_workflow_engine.Base.Options.{unwrap_or}

abbrev two_roots : ℕ → Loading
two_roots cap = record {
  nodes = 7 ∷ 8 ∷ [];
  edges = [];
  node_map = (7, 0) ∷ (8, 1) ∷ [];
  node_meta = [];
  node_labels = [];
  node_configs = [];
  node_timeouts = [];
  execution_timeout_secs = 300;
  max_workflow_nodes = cap;
  actor_id = none;
}

abbrev wired : ℕ × Loading
wired = unwrap_or (ensure_trigger_node_wired_to_roots 9 (two_roots 5)) (0, two_roots 5)

wires : ensure_trigger_node_wired_to_roots 9 (two_roots 5) ≡ some (9, wired.1)
unfolding ensure_trigger_node_wired_to_roots HashMap.get HashMap.insert
wires = refl

wired-IsIndexed : IsIndexed wired.1
unfolding ensure_trigger_node_wired_to_roots HashMap.get HashMap.insert
wired-IsIndexed zero u h = let e : 7 ≡ u = cc h in rw (← e) refl
wired-IsIndexed (suc zero) u h = let e : 8 ≡ u = cc h in rw (← e) refl
wired-IsIndexed (suc (suc zero)) u h = let e : 9 ≡ u = cc h in rw (← e) refl
wired-IsIndexed (suc (suc (suc i))) u h = absurd (cc h)

first_node : get_elem? wired.1.nodes 0 ≡ some 7
unfolding ensure_trigger_node_wired_to_roots HashMap.get HashMap.insert
first_node = refl

ensure_trigger_node_wired_to_roots-feeds_example :
    Fed (two_roots 5).edges wired.1 9 0 7
    × (find_trigger wired.1.node_labels ≡ some 9)
    × (ensure_trigger_node_wired_to_roots 10 wired.1 ≡ some (9, wired.1))
ensure_trigger_node_wired_to_roots-feeds_example =
    ensure_trigger_node_wired_to_roots-feeds 9 10 9 (two_roots 5) wired.1 0 7 wires wired-IsIndexed
      first_node

ensure_trigger_node_wired_to_roots-panics_example :
    ensure_trigger_node_wired_to_roots 9 (two_roots 2) ≡ none
unfolding find_trigger roots_from HashMap.get
ensure_trigger_node_wired_to_roots-panics_example =
    ensure_trigger_node_wired_to_roots-panics 9 7 (8 ∷ []) (two_roots 2) refl (omega arith) refl
      refl
