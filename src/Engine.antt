-- ===== src/Engine.antt =====
-- The engine's data: the kinds of system nodes (talos-workflow-engine-core/src/system_node.rs), the
-- fields of `ParallelWorkflowEngine` that the reactor reads, the reactor's state and the event and
-- hook records (talos-workflow-engine/src/engine.rs, talos-workflow-engine-core/src).
use talos_workflow_engine.Base.{
  ℕ, ◌+◌, ◌-◌, ◌%◌, ◌^◌, ◌/◌, String, Bool, true, false, ◌&&◌, Option, none, some, List, ltb, leb,
  if◌then◌else◌, length,
}
use talos_workflow_engine.Base.HashMap
use talos_workflow_engine.Base.HashMap.{HashMap}
use talos_workflow_engine.Base.Json.{Value}
use talos_workflow_engine.Graph.{DiGraph}

pub data JoinMode : Type 0 where
  all any majority : JoinMode
  n_of : ℕ → JoinMode

-- UUIDs are numbers, and a float is its bit pattern.
pub data SystemNodeKind : Type 0 where
  wait : (message : Option String) → SystemNodeKind
  while_loop : (condition : String) (max_iterations : ℕ) → SystemNodeKind
  repeat_loop : (count : ℕ) → SystemNodeKind
  error_handler : (error_pattern : Option String) → SystemNodeKind
  fan_in : (join_mode : JoinMode) (aggregation_expr : Option String) → SystemNodeKind
  sub_workflow : (workflow_id timeout_secs : ℕ) → SystemNodeKind
  loop : (max_iterations : ℕ) (condition : String) → SystemNodeKind
  collect : SystemNodeKind
  synthesize : (synthesis_expr : Option String) → SystemNodeKind
  verify : (condition : String) (check_label : Option String) (on_failure : String) → SystemNodeKind
  agent_loop :
      (body_workflow_id max_iterations : ℕ) (inject_history : Bool) (timeout_secs : ℕ)
      → SystemNodeKind
  judge :
      (judge_workflow_id : ℕ) (rubric : String) (pass_threshold : Option ℕ) (on_failure : String)
      (timeout_secs : ℕ)
      → SystemNodeKind
  inline_judge :
      (verdict_expr : String) (pass_threshold : Option ℕ) (on_failure : String) → SystemNodeKind
  ensemble :
      (child_workflow_id count : ℕ) (consensus : String) (judge_workflow_id : Option ℕ)
      (timeout_secs : ℕ)
      → SystemNodeKind
  confidence_gate : (threshold : ℕ) (confidence_path on_low_confidence : String) → SystemNodeKind
  dynamic_dispatch : (dispatch_expression : String) (timeout_secs : ℕ) → SystemNodeKind
  capability_dispatch :
      (required_capabilities : List String) (fallback_workflow_id : Option ℕ) (timeout_secs : ℕ)
      → SystemNodeKind
  react_loop :
      (body_workflow_id max_iterations : ℕ) (inject_history : Bool) (timeout_secs : ℕ)
      → SystemNodeKind
  reflective_retry :
      (child_workflow_id reflection_workflow_id max_retries timeout_secs : ℕ) → SystemNodeKind
  llm_dispatch :
      (classifier_workflow_id : ℕ) (routes : List (String × ℕ)) (fallback_workflow_id : Option ℕ)
      (timeout_secs : ℕ)
      → SystemNodeKind

pub record RetryPolicy : Type 0 where
  pub max_retries : ℕ
  pub backoff_ms : ℕ
  pub retry_condition : Option String
  pub retry_delay_expression : Option String

pub record NodeMeta : Type 0 where
  pub module_id : Option ℕ
  pub retry_policy : Option RetryPolicy
  pub kind : Option SystemNodeKind

-- Traits and libraries that the engine calls: serde_json's serializer (the number of bytes that it
-- writes, or `none` where it fails), the `Display` forms of numbers and UUIDs, and the sanitizers.
pub record Externals : Type 0 where
  pub json_bytes : Value → Option ℕ
  pub decimal : ℕ → String
  pub uuid_text : ℕ → String
  pub redact_str : Option (String → String)
  pub redact_error : Option (String → String)
  pub eval_bool : Option (String → Value → Bool)

pub record Engine : Type 0 where
  pub graph : DiGraph
  pub node_labels : HashMap String
  pub node_configs : HashMap Value
  pub node_meta : HashMap NodeMeta
  pub workflow_id : Option ℕ
  pub actor_id : Option ℕ
  pub max_node_output_bytes : ℕ
  pub has_event_sink : Bool
  pub has_node_hook : Bool
  pub externals : Externals

pub record NodeEventWrite : Type 0 where
  pub execution_id : ℕ
  pub event_type : String
  pub node_id : Option ℕ
  pub status : String
  pub log_message : Option String
  pub iteration_index : Option ℕ
  pub error_class : Option String

pub record NodeCompletionContext : Type 0 where
  pub workflow_id : ℕ
  pub execution_id : ℕ
  pub node_id : ℕ
  pub node_label : Option String
  pub module_id : Option ℕ
  pub actor_id : Option ℕ
  pub wall_time_ms : ℕ

pub data HookCall : Type 0 where
  on_node_completed : NodeCompletionContext → Value → HookCall
  on_node_failed : NodeCompletionContext → String → Option Value → HookCall

-- What the reactor mutates: its three local maps and queues, what it has told the event sink and the
-- lifecycle hook, and the keys of the module prefetch cache.
pub record Reactor : Type 0 where
  pub results : HashMap Value
  pub pending : HashMap ℕ
  pub ready : List ℕ
  pub events : List NodeEventWrite
  pub hooks : List HookCall
  pub prefetch_cache : List ℕ

-- The chains of a fresh run, and the index of the chain that a node stands in.
pub record Chains : Type 0 where
  pub chains : List (List ℕ)
  pub node_to_chain : HashMap ℕ

-- `usize` arithmetic of a release build, which wraps around; a debug build panics there instead.
abbrev pub usize_sub : ℕ → ℕ → ℕ
usize_sub a b = (a + 2 ^ 64 - b) % 2 ^ 64

module _ (e : Engine) where
  unfoldable pub eval_bool : String → Value → Bool
  eval_bool expression context = elim e.externals.eval_bool [
    | none ↦ false
    | some f ↦ f expression context
  ]

  unfoldable pub redact_str : String → String
  redact_str s = elim e.externals.redact_str [ none ↦ s | some f ↦ f s ]

  unfoldable pub node_kind : ℕ → Option SystemNodeKind
  node_kind id = elim (HashMap.get e.node_meta id) [ none ↦ none | some m ↦ m.kind ]

  unfoldable pub join_satisfied : JoinMode → ℕ → ℕ → Bool
  join_satisfied all total completed = false
  join_satisfied any total completed = true
  join_satisfied majority total completed = ltb (total / 2) completed
  join_satisfied (n_of n) total completed = leb n completed

  unfoldable pub fan_in_release : ℕ → JoinMode → HashMap ℕ → HashMap ℕ
  unfolding join_satisfied
  fan_in_release child mode pending =
      let total = length (e.graph.incoming child) in
      let cnt = HashMap.get_or pending child 0 in
      let completed = usize_sub total cnt in
      if join_satisfied mode total completed && ltb 0 cnt
      then HashMap.insert pending child 0
      else pending

  unfoldable pub fan_in_of : Option SystemNodeKind → Option JoinMode
  fan_in_of (some (fan_in mode expr)) = some mode
  fan_in_of _ = none

  -- `apply_fan_in_early_ready`.
  unfoldable pub apply_fan_in_early_ready : ℕ → HashMap ℕ → HashMap ℕ
  unfolding fan_in_release fan_in_of node_kind
  apply_fan_in_early_ready child pending = elim (fan_in_of (node_kind (e.graph.weight child))) [
    | none ↦ pending
    | some mode ↦ fan_in_release child mode pending
  ]
