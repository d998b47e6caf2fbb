-- ===== src/Document/Builder.antt =====
-- `WorkflowGraphBuilder` of talos-workflow-engine/src/graph_builder.rs: it collects nodes, edges and
-- the errors of its calls, and writes a graph document. A map's `insert` replaces.
use Prim.Native.String.{◌++◌ as text_append}
use text.Mathlib.Text.{◌==◌ as str_eq}
use talos_workflow_engine.Base.{
  ℕ, String, Bool, true, false, Option, none, some, List, [], ◌∷◌, ◌++◌, if◌then◌else◌,
}
use talos_workflow_engine.Base.Json.{
  Value, Map, bool, string, array, object, empty, entry, items, insert_key,
}
use talos_workflow_engine.Engine.{SystemNodeKind}
use talos_workflow_engine.Document.{Libraries, str_at}
use talos_workflow_engine.Document.Writer.{num, serialize_system_node_kind}

pub data WorkflowGraphBuilderError : Type 0 where
  unknown_node_id : (id method : String) → WorkflowGraphBuilderError

pub record WorkflowGraphBuilder : Type 0 where
  pub nodes : List Value
  pub edges : List Value
  pub execution_timeout_secs : Option ℕ
  pub errors : List WorkflowGraphBuilderError

abbrev pub new : WorkflowGraphBuilder
new = record { nodes = []; edges = []; execution_timeout_secs = none; errors = [] }

-- The duration in whole seconds.
unfoldable pub execution_timeout : WorkflowGraphBuilder → ℕ → WorkflowGraphBuilder
execution_timeout b secs = record b { execution_timeout_secs = some secs }

unfoldable pub add_raw_node : WorkflowGraphBuilder → Value → WorkflowGraphBuilder
add_raw_node b node = record b { nodes = b.nodes ++ node ∷ [] }

unfoldable pub add_raw_edge : WorkflowGraphBuilder → Value → WorkflowGraphBuilder
add_raw_edge b edge = record b { edges = b.edges ++ edge ∷ [] }

-- The first node with this id has its map changed; `none` where there is no such node.
unfoldable pub has_id : String → Value → Bool
unfolding str_at
has_id id node = elim (str_at node "id") [ none ↦ false | some s ↦ str_eq s id ]

unfoldable pub change_map : (Map → Map) → Value → Value
change_map f (object m) = object (f m)
change_map f v = v

unfoldable pub change_node : String → (Map → Map) → List Value → Option (List Value)
unfolding has_id change_map
change_node id f [] = none
change_node id f (node ∷ nodes) =
    let rest : Option (List Value) = elim (change_node id f nodes) [
      | none ↦ none
      | some ns ↦ some (node ∷ ns)
    ] in
    if has_id id node then some (change_map f node ∷ nodes) else rest

-- The shape of every `with_` call: the node is changed, or the error is recorded.
unfoldable pub with_change :
    WorkflowGraphBuilder → (id method : String) → (Map → Map) → WorkflowGraphBuilder
unfolding change_node
with_change b id method f = elim (change_node id f b.nodes) [
  | some nodes ↦ record b { nodes = nodes }
  | none ↦ record b { errors = b.errors ++ unknown_node_id id method ∷ [] }
]

unfoldable pub with_skip_condition : WorkflowGraphBuilder → String → String → WorkflowGraphBuilder
unfolding with_change
with_skip_condition b id condition =
    with_change b id "with_skip_condition" λ m. insert_key m "skip_condition" (string condition)

unfoldable pub with_continue_on_error : WorkflowGraphBuilder → String → WorkflowGraphBuilder
unfolding with_change
with_continue_on_error b id =
    with_change b id "with_continue_on_error" λ m. insert_key m "continue_on_error" (bool true)

unfoldable pub insert_optional : Map → String → Option String → Map
insert_optional m k none = m
insert_optional m k (some s) = insert_key m k (string s)

unfoldable pub insert_retry : Map → ℕ → ℕ → Option String → Option String → Map
unfolding insert_optional
insert_retry m max_retries backoff_ms condition delay_expression =
    insert_optional
      (insert_optional
        (insert_key (insert_key m "retry_count" (num max_retries)) "retry_backoff_ms"
          (num backoff_ms))
        "retry_condition" condition)
      "retry_delay_expression" delay_expression

unfoldable pub with_retry :
    WorkflowGraphBuilder
    → String
    → (max_retries backoff_ms : ℕ) → (condition delay_expression : Option String)
    → WorkflowGraphBuilder
unfolding with_change insert_retry
with_retry b id max_retries backoff_ms condition delay_expression =
    with_change b id "with_retry"
      λ m. insert_retry m max_retries backoff_ms condition delay_expression

unfoldable pub edge_with_handles :
    WorkflowGraphBuilder
    → (source target source_handle target_handle : String) → WorkflowGraphBuilder
unfolding add_raw_edge
edge_with_handles b source target source_handle target_handle = add_raw_edge b (
    object (
      entry "source" (string source) (
        entry "target" (string target) (
          entry "sourceHandle" (string source_handle)
            (entry "targetHandle" (string target_handle) empty)))))

unfoldable pub edge : WorkflowGraphBuilder → (source target : String) → WorkflowGraphBuilder
unfolding edge_with_handles
edge b source target = edge_with_handles b source target "output" "input"

-- The last edge of the list, which is there, has its condition set.
unfoldable pub change_last : (Map → Map) → List Value → List Value
unfolding change_map
change_last f [] = []
change_last f (e ∷ []) = change_map f e ∷ []
change_last f (e ∷ e' ∷ es) = e ∷ change_last f (e' ∷ es)

unfoldable pub edge_condition :
    WorkflowGraphBuilder → (source target condition : String) → WorkflowGraphBuilder
unfolding edge change_last
edge_condition b source target condition =
    let builder = edge b source target in
    record builder {
      edges = change_last (λ m. insert_key m "condition" (string condition)) builder.edges;
    }

unfoldable pub assemble_root : List Value → List Value → Option ℕ → Value
assemble_root nodes edges none =
    object (entry "nodes" (array (items nodes)) (entry "edges" (array (items edges)) empty))
assemble_root nodes edges (some secs) = object (
    entry "nodes" (array (items nodes))
      (entry "edges" (array (items edges)) (entry "execution_timeout_secs" (num secs) empty)))

-- What `build` returns: the document, or every error of the calls.
pub data Built : Type 0 where
  ok : Value → Built
  build_error : List WorkflowGraphBuilderError → Built

unfoldable pub build : WorkflowGraphBuilder → Built
unfolding assemble_root
build b = elim b.errors [
  | [] ↦ ok (assemble_root b.nodes b.edges b.execution_timeout_secs)
  | e ∷ es ↦ build_error (e ∷ es)
]

unfoldable pub build_partial : WorkflowGraphBuilder → Value × List WorkflowGraphBuilderError
unfolding assemble_root
build_partial b = (assemble_root b.nodes b.edges b.execution_timeout_secs, b.errors)

module _ (lib : Libraries) where
  unfoldable pub with_data : Option Value → Map
  with_data none = empty
  with_data (some d) = entry "data" d empty

  unfoldable pub add_module :
      WorkflowGraphBuilder → String → ℕ → Option Value → WorkflowGraphBuilder
  unfolding add_raw_node with_data
  add_module b id module_id config = add_raw_node b (
      object (
        entry "id" (string id)
          (entry "type" (string (lib.uuid_text module_id)) (with_data config))))

  unfoldable pub add_system_node :
      WorkflowGraphBuilder → String → SystemNodeKind → WorkflowGraphBuilder
  unfolding add_raw_node serialize_system_node_kind
  add_system_node b id kind =
      let (kind_str, d) = serialize_system_node_kind lib kind in
      add_raw_node b (
        object (
          entry "id" (string id) (
            entry "type" (string (text_append "system:" kind_str))
              (entry "kind" (string kind_str) (entry "data" d empty)))))
