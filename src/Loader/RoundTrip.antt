-- ===== src/Loader/RoundTrip.antt =====
-- How an engine takes in the nodes that `WorkflowGraphBuilder` writes (`parse_graph_document` of
-- talos-workflow-engine/src/engine.rs and talos-workflow-engine/src/graph_builder.rs).
use Prim.Native.String.{◌++◌ as text_append}
use text.Mathlib.TextPositions.{starts_with-append}
use talos_workflow_engine.Base.{ℕ, String, ◌≡◌, refl, true, none, some, [], ◌∷◌, ◌++◌}
use talos_workflow_engine.Base.HashMap
use talos_workflow_engine.Base.HashMap.{HashMap}
use talos_workflow_engine.Base.Json.{Value, object, empty, entry, string, get, get_key}
use talos_workflow_engine.Engine.{SystemNodeKind, wait, error_handler, fan_in, synthesize}
use talos_workflow_engine.Document.{Libraries, IsFaithful, str_at, bool_at}
use talos_workflow_engine.Document.Limits.{WithinLimits}
use talos_workflow_engine.Document.Writer.{kind_text, kind_data}
use talos_workflow_engine.Document.RoundTrip.{HasJson, IsEnabled, parse_system_node_kind-kind_data}
use talos_workflow_engine.Document.Builder.{WorkflowGraphBuilder, add_system_node}
use talos_workflow_engine.Loader.{
  Progress, add_node, load_node, store_data, node_id_of, module_id_text, is_system_type,
  system_configs,
}

-- The keys that the loader looks for in `data`, and that no system node writes there.
record Lacks (d : Value) : Type 0 where
  pub no_skip : get d "skip_condition" ≡ none
  pub no_continue : get d "continue_on_error" ≡ none
  pub no_module : get d "moduleId" ≡ none

module _ (lib : Libraries) where
  kind_data-Lacks : (kind : SystemNodeKind) → Lacks (kind_data lib kind)
  unfolding kind_data get get_key
  kind_data-Lacks (wait none) = record { no_skip = refl; no_continue = refl; no_module = refl }
  kind_data-Lacks (wait (some m)) = record { no_skip = refl; no_continue = refl; no_module = refl }
  kind_data-Lacks (error_handler none) = record {
    no_skip = refl;
    no_continue = refl;
    no_module = refl;
  }
  kind_data-Lacks (error_handler (some p)) = record {
    no_skip = refl;
    no_continue = refl;
    no_module = refl;
  }
  kind_data-Lacks (fan_in mode none) = record {
    no_skip = refl;
    no_continue = refl;
    no_module = refl;
  }
  kind_data-Lacks (fan_in mode (some x)) = record {
    no_skip = refl;
    no_continue = refl;
    no_module = refl;
  }
  kind_data-Lacks (synthesize none) = record {
    no_skip = refl;
    no_continue = refl;
    no_module = refl;
  }
  kind_data-Lacks (synthesize (some x)) = record {
    no_skip = refl;
    no_continue = refl;
    no_module = refl;
  }
  kind_data-Lacks _ = record { no_skip = refl; no_continue = refl; no_module = refl }

  -- The node that `add_system_node` appends.
  abbrev system_node : String → SystemNodeKind → Value
  system_node id kind = object (
      entry "id" (string id) (
        entry "type" (string (text_append "system:" (kind_text kind)))
          (entry "kind" (string (kind_text kind)) (entry "data" (kind_data lib kind) empty))))

  -- What a builder's system node is to the engine: a node of exactly this kind with no module and no
  -- retry policy, the given id as its label, and its data, if there is any, as its configuration.
  abbrev pub registered : String → SystemNodeKind → Progress → Progress
  registered id kind p =
      let s = p.engine in
      let node_id = node_id_of lib id in
      record {
        engine =
            add_node
              (record s {
                node_labels = HashMap.insert s.node_labels node_id id;
                node_configs = store_data node_id (kind_data lib kind) s.node_configs;
              })
              node_id none none (some kind);
        ids = (id, node_id) ∷ p.ids;
      }

  module _ (faithful : IsFaithful lib) (id : String) (kind : SystemNodeKind) where
    system_node-no_module : module_id_text lib (system_node id kind) ≡ none
    unfolding module_id_text get get_key str_at
    system_node-no_module =
        let lacks = kind_data-Lacks kind in
        rw (faithful.parse_uuid-system (kind_text kind), module_id_text)
          (rw (lacks.no_module, str_at) refl)

    system_node-is_system : is_system_type lib (system_node id kind) ≡ true
    unfolding is_system_type get get_key str_at
    system_node-is_system = starts_with-append "system:" (kind_text kind)

    system_node-configs :
        (node_id : ℕ) (configs : HashMap Value)
        → system_configs node_id (system_node id kind) (some (kind_data lib kind)) configs
          ≡ store_data node_id (kind_data lib kind) configs
    unfolding system_configs get get_key str_at bool_at
    system_node-configs node_id configs =
        let lacks = kind_data-Lacks kind in
        rw (lacks.no_skip, lacks.no_continue, system_configs, str_at, bool_at) refl

    load_node-system_node :
        (p : Progress)
        → WithinLimits kind
        → HasJson lib kind
        → IsEnabled lib kind
        → load_node lib (system_node id kind) p ≡ registered id kind p
    unfolding load_node get get_key str_at
    load_node-system_node p l j e =
        let node_id = node_id_of lib id in
        let parsed =
          parse_system_node_kind-kind_data lib faithful (system_node id kind) kind l j e refl in
        rw (system_node-no_module, system_node-is_system, load_node)
          (rw (system_node-configs node_id p.engine.node_configs, parsed) refl)

    -- A system node that the builder adds is the last of its nodes, and the engine that reads it takes
    -- in a node of the same kind, with no module and no retry policy, the id as its label and its data,
    -- if there is any, as its configuration; where its numbers are within the limits of the format, its
    -- floats are finite, and the feature that it needs is on.
    pub load_node-add_system_node :
        (b : WorkflowGraphBuilder) (p : Progress)
        → WithinLimits kind
        → HasJson lib kind
        → IsEnabled lib kind
        → (node : Value) × ((add_system_node lib b id kind).nodes ≡ b.nodes ++ node ∷ [])
          × (load_node lib node p ≡ registered id kind p)
    unfolding add_system_node
    load_node-add_system_node b p l j e = (system_node id kind, refl, load_node-system_node p l j e)
