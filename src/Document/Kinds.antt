-- ===== src/Document/Kinds.antt =====
-- `parse_system_node_kind` of talos-workflow-engine/src/graph_parser.rs: the system node that a `kind`
-- text and a node's `data` stand for, one function for each branch.
use text.Mathlib.Text.{◌==◌ as str_eq}
use talos_workflow_engine.Base.{
  ℕ, ◌-◌, ◌^◌, min, max, String, true, Option, none, some, List, [], ◌∷◌, filter_map, if◌then◌else◌,
}
use talos_workflow_engine.Base.Options.{◌>>=◌, unwrap_or}
use talos_workflow_engine.Base.Json.{
  Value, Map, null, object, empty, entry, get, as_str, as_array, as_object, as_u64,
}
use talos_workflow_engine.Engine.{
  JoinMode, SystemNodeKind, wait, while_loop, repeat_loop, error_handler, fan_in, sub_workflow,
  loop, collect, synthesize, verify, agent_loop, judge, inline_judge, ensemble, confidence_gate,
  dynamic_dispatch, capability_dispatch, react_loop, reflective_retry, llm_dispatch,
}
use talos_workflow_engine.Document.{Libraries, as_u32, str_at, u64_at, bool_at}

unfoldable pub parse_wait : Value → Option SystemNodeKind
unfolding get str_at
parse_wait node = some (wait (get node "data" >>= λ d. str_at d "message"))

unfoldable pub parse_loop : Value → Option SystemNodeKind
unfolding get str_at u64_at as_u32
parse_loop node = do
  d ← get node "data"
  condition ← str_at d "condition"
  some (loop (as_u32 (min (u64_at d "max_iterations" 10) 100)) condition)

unfoldable pub parse_while_loop : Value → Option SystemNodeKind
unfolding get str_at u64_at as_u32
parse_while_loop node = do
  d ← get node "data"
  condition ← str_at d "condition"
  some (while_loop condition (as_u32 (min (u64_at d "max_iterations" 10) 100)))

unfoldable pub parse_repeat_loop : Value → Option SystemNodeKind
unfolding get as_u32
parse_repeat_loop node =
    let count = unwrap_or (get node "data" >>= λ d. get d "count" >>= as_u64) 1 in
    some (repeat_loop (as_u32 (min count (2 ^ 32 - 1))))

unfoldable pub parse_error_handler : Value → Option SystemNodeKind
unfolding get str_at
parse_error_handler node = some (error_handler (get node "data" >>= λ d. str_at d "error_pattern"))

unfoldable pub parse_synthesize : Value → Option SystemNodeKind
unfolding get str_at
parse_synthesize node =
    some (synthesize (str_at (unwrap_or (get node "data") (object empty)) "synthesis_expr"))

unfoldable pub parse_verify : Value → Option SystemNodeKind
unfolding get str_at
parse_verify node = do
  d ← get node "data"
  condition ← str_at d "condition"
  some (verify condition (str_at d "check_label") (unwrap_or (str_at d "on_failure") "error"))

unfoldable pub parse_dispatch : Value → Option SystemNodeKind
unfolding get str_at u64_at
parse_dispatch node = do
  d ← get node "data"
  dispatch_expression ← str_at d "dispatch_expression"
  some (dynamic_dispatch dispatch_expression (u64_at d "timeout_secs" 30))

-- The entries of `routes` whose value is the text of a UUID.
unfoldable pub routes_of : (String → Option ℕ) → Map → List (String × ℕ)
unfolding as_str
routes_of parse_uuid empty = []
routes_of parse_uuid (entry k v m) =
    let rest = routes_of parse_uuid m in
    elim (as_str v >>= parse_uuid) [ none ↦ rest | some u ↦ (k, u) ∷ rest ]

unfoldable pub with_capabilities : List String → SystemNodeKind → Option SystemNodeKind
with_capabilities [] kind = none
with_capabilities (c ∷ cs) kind = some kind

module _ (lib : Libraries) where
  unfoldable pub uuid_at : Value → String → Option ℕ
  unfolding str_at
  uuid_at v k = str_at v k >>= lib.parse_uuid

  unfoldable pub parse_sub_workflow : Value → Option SystemNodeKind
  unfolding get uuid_at u64_at
  parse_sub_workflow node = do
    d ← get node "data"
    workflow_id ← uuid_at d "sub_workflow_id"
    some (sub_workflow workflow_id (u64_at d "timeout_secs" 30))

  unfoldable pub parse_fan_in : Value → Option SystemNodeKind
  unfolding get str_at
  parse_fan_in node =
      let d = unwrap_or (get node "data") (object empty) in
      some (
        fan_in (unwrap_or (get d "join_mode" >>= lib.join_from_value) JoinMode.all)
          (str_at d "aggregation_expr"))

  unfoldable pub parse_capability_dispatch : Value → Option SystemNodeKind
  unfolding get as_array as_str uuid_at u64_at with_capabilities
  parse_capability_dispatch node = do
    d ← get node "data"
    field ← get d "required_capabilities"
    listed ← as_array field
    let caps = filter_map as_str listed
    with_capabilities caps
        (capability_dispatch caps (uuid_at d "fallback_workflow_id") (u64_at d "timeout_secs" 30))

  unfoldable pub parse_agent_loop : Value → Option SystemNodeKind
  unfolding get uuid_at u64_at bool_at as_u32
  parse_agent_loop node = do
    d ← get node "data"
    body_workflow_id ← uuid_at d "body_workflow_id"
    some (
        agent_loop body_workflow_id (as_u32 (min (u64_at d "max_iterations" 10) 50))
          (bool_at d "inject_history" true) (u64_at d "timeout_secs" 60))

  unfoldable pub parse_react_loop : Value → Option SystemNodeKind
  unfolding get uuid_at u64_at bool_at as_u32
  parse_react_loop node = do
    d ← get node "data"
    body_workflow_id ← uuid_at d "body_workflow_id"
    some (
        react_loop body_workflow_id (as_u32 (min (u64_at d "max_iterations" 10) 50))
          (bool_at d "inject_history" true) (u64_at d "timeout_secs" 60))

  -- The nil UUID is 0.
  unfoldable pub uuid_or_nil : Value → String → ℕ
  unfolding uuid_at
  uuid_or_nil d k = unwrap_or (uuid_at d k) 0

  unfoldable pub parse_judge : Value → Option SystemNodeKind
  unfolding get str_at uuid_or_nil u64_at
  parse_judge node =
      let d = unwrap_or (get node "data") null in
      some (
        judge (uuid_or_nil d "judge_workflow_id") (unwrap_or (str_at d "rubric") "")
          (get d "pass_threshold" >>= lib.as_f64) (unwrap_or (str_at d "on_failure") "error")
          (u64_at d "timeout_secs" 60))

  unfoldable pub parse_inline_judge : Value → Option SystemNodeKind
  unfolding get str_at
  parse_inline_judge node =
      let d = unwrap_or (get node "data") null in
      let verdict_expr = unwrap_or (str_at d "verdict_expr") "" in
      if str_eq verdict_expr ""
      then none
      else some (
          inline_judge verdict_expr (get d "pass_threshold" >>= lib.as_f64)
            (unwrap_or (str_at d "on_failure") "error"))

  unfoldable pub parse_ensemble : Value → Option SystemNodeKind
  unfolding get str_at uuid_at uuid_or_nil u64_at as_u32
  parse_ensemble node =
      let d = unwrap_or (get node "data") null in
      some (
        ensemble (uuid_or_nil d "child_workflow_id") (as_u32 (max (min (u64_at d "count" 3) 10) 2))
          (unwrap_or (str_at d "consensus") "majority_vote") (uuid_at d "judge_workflow_id")
          (u64_at d "timeout_secs" 60))

  -- 0.7 as an `f64`.
  abbrev default_threshold : ℕ
  default_threshold = 0x3FE6666666666666

  unfoldable pub parse_confidence_gate : Value → Option SystemNodeKind
  unfolding get str_at
  parse_confidence_gate node =
      let d = unwrap_or (get node "data") null in
      some (
        confidence_gate
          (lib.clamp_unit (unwrap_or (get d "threshold" >>= lib.as_f64) default_threshold))
          (unwrap_or (str_at d "confidence_path") "__confidence__")
          (unwrap_or (str_at d "on_low_confidence") "pause"))

  unfoldable pub parse_reflective_retry : Value → Option SystemNodeKind
  unfolding get uuid_or_nil u64_at as_u32
  parse_reflective_retry node =
      let d = unwrap_or (get node "data") null in
      some (
        reflective_retry (uuid_or_nil d "child_workflow_id")
          (uuid_or_nil d "reflection_workflow_id")
          (as_u32 (max (min (u64_at d "max_retries" 2) 5) 1)) (u64_at d "timeout_secs" 60))

  unfoldable pub parse_llm_dispatch : Value → Option SystemNodeKind
  unfolding get as_object uuid_at uuid_or_nil u64_at routes_of
  parse_llm_dispatch node =
      let d = unwrap_or (get node "data") null in
      let routes : List (String × ℕ) = elim (get d "routes" >>= as_object) [
        | none ↦ []
        | some m ↦ routes_of lib.parse_uuid m
      ] in
      some (
        llm_dispatch (uuid_or_nil d "classifier_workflow_id") routes
          (uuid_at d "fallback_workflow_id") (u64_at d "timeout_secs" 60))

  -- With the feature off, no text names such a node.
  unfoldable pub parse_llm_system_node_kind : String → Value → Option SystemNodeKind
  unfolding parse_agent_loop parse_judge parse_inline_judge parse_ensemble parse_confidence_gate
      parse_reflective_retry parse_llm_dispatch parse_react_loop
  parse_llm_system_node_kind k node =
      if lib.llm_primitives
      then if str_eq k "agent_loop"
        then parse_agent_loop node
        else if str_eq k "judge"
        then parse_judge node
        else if str_eq k "inline_judge"
        then parse_inline_judge node
        else if str_eq k "ensemble"
        then parse_ensemble node
        else if str_eq k "confidence_gate"
        then parse_confidence_gate node
        else if str_eq k "reflective_retry"
        then parse_reflective_retry node
        else if str_eq k "llm_dispatch"
        then parse_llm_dispatch node
        else if str_eq k "react_loop"
        then parse_react_loop node
        else none
      else none

  unfoldable pub parse_system_node_kind : String → Value → Option SystemNodeKind
  unfolding parse_wait parse_sub_workflow parse_loop parse_while_loop parse_repeat_loop parse_fan_in
      parse_error_handler parse_synthesize parse_verify parse_dispatch parse_capability_dispatch
      parse_llm_system_node_kind
  parse_system_node_kind k node =
      if str_eq k "wait"
      then parse_wait node
      else if str_eq k "sub_workflow"
      then parse_sub_workflow node
      else if str_eq k "loop"
      then parse_loop node
      else if str_eq k "while_loop"
      then parse_while_loop node
      else if str_eq k "repeat_loop"
      then parse_repeat_loop node
      else if str_eq k "fan_in"
      then parse_fan_in node
      else if str_eq k "error_handler"
      then parse_error_handler node
      else if str_eq k "collect"
      then some collect
      else if str_eq k "synthesize"
      then parse_synthesize node
      else if str_eq k "verify"
      then parse_verify node
      else if str_eq k "dispatch"
      then parse_dispatch node
      else if str_eq k "capability_dispatch"
      then parse_capability_dispatch node
      else parse_llm_system_node_kind k node
