-- ===== src/Document/Validate.antt =====
-- `validate_value` of talos-workflow-engine/src/graph_json.rs: the check of a graph document that
-- counts its nodes and collects warnings. A node's place is printed in decimal.
use Prim.Native.Nat.{Ordering}
use Prim.Native.String.{compare}
use text.Mathlib.Text.{◌==◌ as str_eq}
use talos_workflow_engine.Base.{
  ℕ, suc, ◌+◌, String, Bool, true, not, ◌&&◌, ◌||◌, Option, none, some, List, [], ◌∷◌, ◌++◌, any,
  length, if◌then◌else◌,
}
use talos_workflow_engine.Base.Text.{format}
use talos_workflow_engine.Base.Options.{◌>>=◌, filter, is_some}
use talos_workflow_engine.Base.Json.{
  Value, null, bool, number, string, array, object, get, get_key, as_u64, values,
}
use talos_workflow_engine.Document.{Libraries, str_at}

abbrev known_system_kinds_base : List String
known_system_kinds_base =
    "wait" ∷ "sub_workflow" ∷ "loop" ∷ "while_loop" ∷ "repeat_loop" ∷ "fan_in" ∷ "error_handler"
    ∷ "collect" ∷ "synthesize" ∷ "verify" ∷ "dispatch" ∷ "capability_dispatch" ∷ []

abbrev known_system_kinds_llm : List String
known_system_kinds_llm =
    "agent_loop" ∷ "react_loop" ∷ "judge" ∷ "inline_judge" ∷ "ensemble" ∷ "confidence_gate"
    ∷ "reflective_retry" ∷ "llm_dispatch" ∷ []

pub data GraphJsonError : Type 0 where
  not_an_object : String → GraphJsonError
  nodes_not_array : String → GraphJsonError
  edges_not_array : String → GraphJsonError

pub record GraphSummary : Type 0 where
  pub node_count : ℕ
  pub edge_count : ℕ
  pub module_node_count : ℕ
  pub system_node_count : ℕ
  pub annotation_node_count : ℕ
  pub execution_timeout_secs : Option ℕ
  pub system_node_kinds : List String
  pub warnings : List String

pub data Validated : Type 0 where
  ok : GraphSummary → Validated
  err : GraphJsonError → Validated

unfoldable pub json_type_name : Value → String
json_type_name null = "null"
json_type_name (bool b) = "bool"
json_type_name (number n) = "number"
json_type_name (string s) = "string"
json_type_name (array vs) = "array"
json_type_name (object m) = "object"

unfoldable pub warn : List String → GraphSummary → GraphSummary
warn message s = record s { warnings = s.warnings ++ format message ∷ [] }

-- `is_none_or(str::is_empty)`.
unfoldable pub missing : Option String → Bool
missing none = true
missing (some s) = str_eq s ""

-- A `BTreeSet`'s `insert`: the kinds are sorted, and each is there once.
unfoldable pub insert_kind : String → List String → List String
insert_kind k [] = k ∷ []
insert_kind k (j ∷ js) = elim (compare k j) [
  | Ordering.lt ↦ k ∷ j ∷ js
  | Ordering.eq ↦ j ∷ js
  | Ordering.gt ↦ j ∷ insert_kind k js
]

module _ (lib : Libraries) where
  unfoldable pub known_system_kind : String → Bool
  known_system_kind kind =
      any (str_eq kind) known_system_kinds_base
      || (lib.llm_primitives && any (str_eq kind) known_system_kinds_llm)

  unfoldable pub known_llm_system_kind : String → Bool
  known_llm_system_kind kind = not lib.llm_primitives && any (str_eq kind) known_system_kinds_llm

  unfoldable pub is_uuid_text : Option String → Bool
  is_uuid_text o = is_some (filter (λ s. is_some (lib.parse_uuid s)) o)

  unfoldable pub names_module : Value → Bool
  unfolding str_at get is_uuid_text
  names_module node =
      is_uuid_text (str_at node "type")
      || is_uuid_text (get node "data" >>= λ d. str_at d "moduleId")

  -- A node with a `kind`.
  unfoldable pub classify_kind : ℕ → String → GraphSummary → GraphSummary
  unfolding warn known_system_kind known_llm_system_kind
  classify_kind idx kind s =
      if known_system_kind kind
      then record s { system_node_count = s.system_node_count + 1 }
      else if known_llm_system_kind kind
      then (let warned =
            warn
              ("node["
                ∷ lib.decimal idx
                ∷ "] `kind: "
                ∷ kind
                ∷ "` is an LLM-gated system kind but the `llm-primitives` feature is disabled on talos-workflow-engine; the engine will reject this node at dispatch time"
                ∷ [])
              s in
          record warned { annotation_node_count = s.annotation_node_count + 1 })
      else (let warned =
            warn
              ("node["
                ∷ lib.decimal idx
                ∷ "] `kind: "
                ∷ kind
                ∷ "` is not a known system kind; the engine will reject this node at dispatch time"
                ∷ [])
              s in
          record warned { annotation_node_count = s.annotation_node_count + 1 })

  -- A node without one.
  unfoldable pub classify_plain : ℕ → Value → GraphSummary → GraphSummary
  unfolding str_at warn missing names_module
  classify_plain idx node s =
      let counted = record s { annotation_node_count = s.annotation_node_count + 1 } in
      if names_module node
      then record s { module_node_count = s.module_node_count + 1 }
      else if missing (str_at node "type")
      then counted
      else warn
          ("node["
            ∷ lib.decimal idx
            ∷ "] has `type` but it is neither a UUID nor a known system kind; the engine will silently skip this node"
            ∷ [])
          counted

  unfoldable pub warn_missing : String → ℕ → Value → String → GraphSummary → GraphSummary
  unfolding str_at warn missing
  warn_missing what idx v k s =
      if missing (str_at v k)
      then warn (what ∷ "[" ∷ lib.decimal idx ∷ "] missing or empty `" ∷ k ∷ "`" ∷ []) s
      else s

  unfoldable pub classify_node : ℕ → Value → GraphSummary → GraphSummary
  unfolding str_at classify_kind classify_plain insert_kind warn_missing
  classify_node idx node s =
      let identified = warn_missing "node" idx node "id" s in
      elim (str_at node "kind") [
        | some kind ↦ classify_kind idx kind (record identified {
          system_node_kinds = insert_kind kind identified.system_node_kinds;
        })
        | none ↦ classify_plain idx node identified
      ]

  unfoldable pub inspect_edge : ℕ → Value → GraphSummary → GraphSummary
  unfolding warn_missing
  inspect_edge idx edge s =
      warn_missing "edge" idx edge "target" (warn_missing "edge" idx edge "source" s)

  -- The items with their places, from `idx` on.
  unfoldable pub classify_nodes : ℕ → List Value → GraphSummary → GraphSummary
  unfolding classify_node
  classify_nodes idx [] s = s
  classify_nodes idx (node ∷ nodes) s = classify_nodes (suc idx) nodes (classify_node idx node s)

  unfoldable pub inspect_edges : ℕ → List Value → GraphSummary → GraphSummary
  unfolding inspect_edge
  inspect_edges idx [] s = s
  inspect_edges idx (edge ∷ edges) s = inspect_edges (suc idx) edges (inspect_edge idx edge s)

  unfoldable pub validate_edges : Option Value → GraphSummary → Validated
  unfolding inspect_edges json_type_name
  validate_edges (some (array edges)) s =
      ok (inspect_edges 0 (values edges) (record s { edge_count = length (values edges) }))
  validate_edges (some other) s = err (edges_not_array (json_type_name other))
  validate_edges none s = ok s

  unfoldable pub validate_nodes : Option Value → Option Value → GraphSummary → Validated
  unfolding classify_nodes validate_edges json_type_name
  validate_nodes (some (array nodes)) edges s =
      validate_edges edges
        (classify_nodes 0 (values nodes) (record s { node_count = length (values nodes) }))
  validate_nodes (some other) edges s = err (nodes_not_array (json_type_name other))
  validate_nodes none edges s = validate_edges edges s

  abbrev pub no_summary : Option ℕ → GraphSummary
  no_summary secs = record {
    node_count = 0;
    edge_count = 0;
    module_node_count = 0;
    system_node_count = 0;
    annotation_node_count = 0;
    execution_timeout_secs = secs;
    system_node_kinds = [];
    warnings = [];
  }

  unfoldable pub validate_value : Value → Validated
  unfolding get_key as_u64 validate_nodes json_type_name
  validate_value (object obj) =
      validate_nodes (get_key obj "nodes") (get_key obj "edges")
        (no_summary (get_key obj "execution_timeout_secs" >>= as_u64))
  validate_value other = err (not_an_object (json_type_name other))
