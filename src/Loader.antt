-- ===== src/Loader.antt =====
-- `parse_graph_document`, `add_node`, `add_edge` and `ensure_trigger_node_wired_to_roots` of
-- talos-workflow-engine/src/engine.rs: how an engine takes in a graph document.
pub mod WellFormed
pub mod Loaded
pub mod RoundTrip
pub mod Trigger
pub mod Wired
pub mod Roots
pub mod Fed
use Prim.Native.String.{len, slice}
use text.Mathlib.Text.{◌==◌ as str_eq, starts_with}
use talos_workflow_engine.Base.{
  ℕ, String, Bool, true, false, ◌||◌, Option, none, some, List, [], ◌∷◌, ◌++◌, leb, if◌then◌else◌,
  length, fold,
}
use talos_workflow_engine.Base.Options.{◌>>=◌, unwrap_or, or_else, is_some, filter}
use talos_workflow_engine.Base.HashMap
use talos_workflow_engine.Base.HashMap.{HashMap}
use talos_workflow_engine.Base.Json.{
  Value, Map, bool, string, object, empty, entry, insert_key, is_empty, get, as_bool, as_array,
  as_u64,
}
use talos_workflow_engine.Graph.{EdgeLogic}
use talos_workflow_engine.Graph.Edges.{Edge}
use talos_workflow_engine.Engine.{NodeMeta, RetryPolicy, SystemNodeKind}
use talos_workflow_engine.Document.{Libraries, str_at, bool_at}
use talos_workflow_engine.Document.Kinds.{parse_system_node_kind}
use talos_workflow_engine.Document.Retries.{read_node_retry_policy_with_actor_cap}

-- The fields of the engine that loading reads and writes. The graph is its list of node weights, in
-- which a node's index is its place, and its list of edges, the newest first.
pub record Loading : Type 0 where
  pub nodes : List ℕ
  pub edges : List Edge
  pub node_map : HashMap ℕ
  pub node_meta : HashMap NodeMeta
  pub node_labels : HashMap String
  pub node_configs : HashMap Value
  pub node_timeouts : HashMap ℕ
  pub execution_timeout_secs : ℕ
  pub max_workflow_nodes : ℕ
  pub actor_id : Option ℕ

-- Past the cap the call does nothing.
unfoldable pub add_node :
    Loading → ℕ → Option ℕ → Option RetryPolicy → Option SystemNodeKind → Loading
add_node s id module_id retry_policy kind =
    if leb s.max_workflow_nodes (length s.nodes) then s else record s {
      nodes = s.nodes ++ id ∷ [];
      node_map = HashMap.insert s.node_map id (length s.nodes);
      node_meta =
          HashMap.insert s.node_meta id
            (record { module_id = module_id; retry_policy = retry_policy; kind = kind });
    }

-- `none` where an end is not in the graph.
unfoldable pub add_edge : Loading → ℕ → ℕ → EdgeLogic → Option Loading
add_edge s from to logic = do
  from_idx ← HashMap.get s.node_map from
  to_idx ← HashMap.get s.node_map to
  some (record s { edges = record { source = from_idx; target = to_idx; logic = logic } ∷ s.edges })

-- A reserved key of a node's configuration, which is an object where there is one.
unfoldable pub insert_in : String → Value → Value → Value
insert_in k v (object m) = object (insert_key m k v)
insert_in k v other = other

unfoldable pub set_config_key : ℕ → String → Value → HashMap Value → HashMap Value
unfolding insert_in
set_config_key id k v configs =
    HashMap.insert configs id (insert_in k v (HashMap.get_or configs id (object empty)))

unfoldable pub lift_skip : ℕ → Option String → HashMap Value → HashMap Value
unfolding set_config_key
lift_skip id none configs = configs
lift_skip id (some condition) configs =
    set_config_key id "__skip_condition" (string condition) configs

unfoldable pub lift_continue : ℕ → Bool → HashMap Value → HashMap Value
unfolding set_config_key
lift_continue id b configs =
    if b then set_config_key id "__continue_on_error" (bool true) configs else configs

-- The `data` of a node is its configuration, if it is an object with entries.
unfoldable pub store_data : ℕ → Value → HashMap Value → HashMap Value
store_data id (object m) configs =
    if is_empty m then configs else HashMap.insert configs id (object m)
store_data id other configs = configs

unfoldable pub config_str : Value → String → Option String
unfolding get str_at
config_str node k = get node "config" >>= λ c. str_at c k

-- The configuration of a module node with `data`, of one without, and of a system node.
unfoldable pub module_configs : ℕ → Value → Option Value → HashMap Value → HashMap Value
unfolding get as_bool str_at bool_at config_str store_data lift_skip lift_continue
module_configs id node (some d) configs =
    let skip =
      or_else (str_at d "skip_condition")
        (or_else (str_at node "skip_condition") (config_str node "skip_condition")) in
    let go_on = bool_at d "continue_on_error" false || bool_at node "continue_on_error" false in
    lift_continue id go_on (lift_skip id skip (store_data id d configs))
module_configs id node none configs =
    let skip = or_else (str_at node "skip_condition") (config_str node "skip_condition") in
    let go_on =
      unwrap_or
        (or_else (get node "continue_on_error" >>= as_bool)
          (get node "config" >>= λ c. get c "continue_on_error" >>= as_bool))
        false in
    lift_continue id go_on (lift_skip id skip configs)

unfoldable pub system_configs : ℕ → Value → Option Value → HashMap Value → HashMap Value
unfolding get str_at bool_at store_data lift_skip lift_continue
system_configs id node (some d) configs =
    let skip = or_else (str_at d "skip_condition") (str_at node "skip_condition") in
    let go_on = bool_at d "continue_on_error" false || bool_at node "continue_on_error" false in
    lift_continue id go_on (lift_skip id skip (store_data id d configs))
system_configs id node none configs = configs

-- `strip_prefix("system:")`.
unfoldable pub strip_system : String → Option String
strip_system s = if starts_with s "system:" then some (slice s 7 (len s)) else none

unfoldable pub timeout_of : Value → Option ℕ
unfolding get as_u64
timeout_of node =
    or_else (get node "data" >>= λ d. get d "timeout_secs") (get node "timeout_secs") >>= as_u64

unfoldable pub insert_timeout : ℕ → Option ℕ → HashMap ℕ → HashMap ℕ
insert_timeout id none timeouts = timeouts
insert_timeout id (some t) timeouts = HashMap.insert timeouts id t

unfoldable pub edge_logic : Value → EdgeLogic
unfolding str_at
edge_logic edge = record {
  source_handle = unwrap_or (str_at edge "sourceHandle") "output";
  target_handle = unwrap_or (str_at edge "targetHandle") "input";
  mapping = none;
  condition = str_at edge "condition";
  edge_type = unwrap_or (str_at edge "edge_type") "default";
}

-- The engine with the map from the document's node ids to the graph's.
abbrev pub NodeIds : Type 0
NodeIds = List (String × ℕ)

unfoldable pub lookup_id : NodeIds → String → Option ℕ
lookup_id [] k = none
lookup_id ((j, u) ∷ ids) k = if str_eq j k then some u else lookup_id ids k

pub record Progress : Type 0 where
  pub engine : Loading
  pub ids : NodeIds

unfoldable pub load_edge : NodeIds → Value → Loading → Loading
unfolding str_at lookup_id add_edge edge_logic
load_edge ids edge s =
    unwrap_or
      (lookup_id ids (unwrap_or (str_at edge "source") "") >>= λ src.
        lookup_id ids (unwrap_or (str_at edge "target") "") >>= λ tgt.
        add_edge s src tgt (edge_logic edge))
      s

module _ (lib : Libraries) where
  unfoldable pub module_id_text : Value → Option String
  unfolding get str_at
  module_id_text node =
      or_else (filter (λ s. is_some (lib.parse_uuid s)) (str_at node "type"))
        (get node "data" >>= λ d. str_at d "moduleId")

  -- The node's own id if it is a UUID, or else one that is derived from its hash.
  unfoldable pub node_id_of : String → ℕ
  node_id_of rf_id = unwrap_or (lib.parse_uuid rf_id) (lib.hash_uuid rf_id)

  unfoldable pub load_module_node : Value → String → ℕ → Progress → Progress
  unfolding get str_at module_configs node_id_of timeout_of insert_timeout add_node
  load_module_node node rf_id module_id p =
      let id = node_id_of rf_id in
      let s = p.engine in
      let kind = str_at node "kind" >>= λ k. parse_system_node_kind lib k node in
      let policy = read_node_retry_policy_with_actor_cap node s.actor_id in
      let configured = record s {
        node_labels = HashMap.insert s.node_labels id rf_id;
        node_configs = module_configs id node (get node "data") s.node_configs;
      } in
      let added = add_node configured id (some module_id) policy kind in
      record {
        engine = record added {
          node_timeouts = insert_timeout id (timeout_of node) added.node_timeouts;
        };
        ids = (rf_id, id) ∷ p.ids;
      }

  unfoldable pub load_system_node : Value → String → Progress → Progress
  unfolding get str_at system_configs node_id_of strip_system add_node
  load_system_node node rf_id p =
      let id = node_id_of rf_id in
      let s = p.engine in
      let kind_str = or_else (str_at node "kind") (str_at node "type" >>= strip_system) in
      let configured = record s {
        node_labels = HashMap.insert s.node_labels id rf_id;
        node_configs = system_configs id node (get node "data") s.node_configs;
      } in
      record {
        engine =
            add_node configured id none none (kind_str >>= λ k. parse_system_node_kind lib k node);
        ids = (rf_id, id) ∷ p.ids;
      }

  unfoldable pub is_system_type : Value → Bool
  unfolding str_at
  is_system_type node = elim (str_at node "type") [
    | none ↦ false
    | some s ↦ starts_with s "system:"
  ]

  -- A node that is neither a module's nor a system node is skipped.
  unfoldable pub load_node : Value → Progress → Progress
  unfolding str_at module_id_text load_module_node load_system_node is_system_type
  load_node node p =
      let rf_id = unwrap_or (str_at node "id") "" in
      elim (module_id_text node) [
        | some text ↦ elim (lib.parse_uuid text) [
          | some module_id ↦ load_module_node node rf_id module_id p
          | none ↦ p
        ]
        | none ↦ if is_system_type node then load_system_node node rf_id p else p
      ]

  unfoldable pub listed : Value → String → List Value
  unfolding get as_array
  listed graph k = unwrap_or (get graph k >>= as_array) []

  unfoldable pub set_timeout : Option ℕ → Loading → Loading
  set_timeout none s = s
  set_timeout (some t) s = record s { execution_timeout_secs = t }

  -- `none` is the error that the graph is empty, with the engine as it was.
  unfoldable pub parse_graph_document : Value → Loading → Option Loading
  unfolding get as_u64 listed set_timeout load_node load_edge
  parse_graph_document graph s = elim (listed graph "nodes") [
    | [] ↦ none
    | node ∷ nodes ↦
        let start = set_timeout (get graph "execution_timeout_secs" >>= as_u64) s in
        let done = fold load_node (node ∷ nodes) (record { engine = start; ids = [] }) in
        some (fold (load_edge done.ids) (listed graph "edges") done.engine)
  ]
