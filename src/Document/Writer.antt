-- ===== src/Document/Writer.antt =====
-- `serialize_system_node_kind` of talos-workflow-engine/src/graph_builder.rs: the `kind` text and the
-- `data` of a system node.
use talos_workflow_engine.Base.{ℕ, String, Option, none, some, List, [], ◌∷◌, map}
use talos_workflow_engine.Base.Json.{
  Value, Map, Number, null, bool, number, string, array, object, empty, entry, items,
}
use talos_workflow_engine.Engine.{
  SystemNodeKind, wait, while_loop, repeat_loop, error_handler, fan_in, sub_workflow, loop, collect,
  synthesize, verify, agent_loop, judge, inline_judge, ensemble, confidence_gate, dynamic_dispatch,
  capability_dispatch, react_loop, reflective_retry, llm_dispatch,
}
use talos_workflow_engine.Document.{Libraries}

-- `json!` of a number, and of an optional value.
abbrev pub num : ℕ → Value
num n = number (Number.pos_int n)

abbrev pub nullable {ℓ} : {A : Type ℓ} → (A → Value) → Option A → Value
nullable f none = null
nullable f (some x) = f x

-- An object with one entry, if there is a value for it.
unfoldable pub optional_entry : String → Option String → Map → Map
optional_entry k none m = m
optional_entry k (some s) m = entry k (string s) m

unfoldable pub routes_map : (ℕ → String) → List (String × ℕ) → Map
routes_map uuid_text [] = empty
routes_map uuid_text ((k, u) ∷ routes) =
    entry k (string (uuid_text u)) (routes_map uuid_text routes)

-- The `kind` text of each variant.
unfoldable pub kind_text : SystemNodeKind → String
kind_text (wait message) = "wait"
kind_text (while_loop condition max_iterations) = "while_loop"
kind_text (repeat_loop count) = "repeat_loop"
kind_text (error_handler error_pattern) = "error_handler"
kind_text (fan_in join_mode aggregation_expr) = "fan_in"
kind_text (sub_workflow workflow_id timeout_secs) = "sub_workflow"
kind_text (loop max_iterations condition) = "loop"
kind_text collect = "collect"
kind_text (synthesize synthesis_expr) = "synthesize"
kind_text (verify condition check_label on_failure) = "verify"
kind_text (agent_loop w n h t) = "agent_loop"
kind_text (judge w r p f t) = "judge"
kind_text (inline_judge v p f) = "inline_judge"
kind_text (ensemble w n c j t) = "ensemble"
kind_text (confidence_gate t p l) = "confidence_gate"
kind_text (dynamic_dispatch x t) = "dispatch"
kind_text (capability_dispatch cs f t) = "capability_dispatch"
kind_text (react_loop w n h t) = "react_loop"
kind_text (reflective_retry c r m t) = "reflective_retry"
kind_text (llm_dispatch c r f t) = "llm_dispatch"

module _ (lib : Libraries) where
  uuid_value : ℕ → Value
  uuid_value u = string (lib.uuid_text u)

  -- The `data` of each variant.
  unfoldable pub kind_data : SystemNodeKind → Value
  unfolding optional_entry routes_map uuid_value
  kind_data (wait message) = object (optional_entry "message" message empty)
  kind_data (while_loop condition max_iterations) =
      object
        (entry "condition" (string condition) (entry "max_iterations" (num max_iterations) empty))
  kind_data (repeat_loop count) = object (entry "count" (num count) empty)
  kind_data (error_handler error_pattern) =
      object (optional_entry "error_pattern" error_pattern empty)
  kind_data (fan_in join_mode aggregation_expr) = object (
      entry "join_mode" (lib.join_to_value join_mode)
        (optional_entry "aggregation_expr" aggregation_expr empty))
  kind_data (sub_workflow workflow_id timeout_secs) = object (
      entry "sub_workflow_id" (uuid_value workflow_id)
        (entry "timeout_secs" (num timeout_secs) empty))
  kind_data (loop max_iterations condition) =
      object
        (entry "max_iterations" (num max_iterations) (entry "condition" (string condition) empty))
  kind_data collect = object empty
  kind_data (synthesize synthesis_expr) =
      object (optional_entry "synthesis_expr" synthesis_expr empty)
  kind_data (verify condition check_label on_failure) = object (
      entry "condition" (string condition) (
        entry "check_label" (nullable string check_label)
          (entry "on_failure" (string on_failure) empty)))
  kind_data (agent_loop body_workflow_id max_iterations inject_history timeout_secs) = object (
      entry "body_workflow_id" (uuid_value body_workflow_id) (
        entry "max_iterations" (num max_iterations) (
          entry "inject_history" (bool inject_history)
            (entry "timeout_secs" (num timeout_secs) empty))))
  kind_data (judge judge_workflow_id rubric pass_threshold on_failure timeout_secs) = object (
      entry "judge_workflow_id" (uuid_value judge_workflow_id) (
        entry "rubric" (string rubric) (
          entry "pass_threshold" (nullable lib.f64_to_value pass_threshold) (
            entry "on_failure" (string on_failure)
              (entry "timeout_secs" (num timeout_secs) empty)))))
  kind_data (inline_judge verdict_expr pass_threshold on_failure) = object (
      entry "verdict_expr" (string verdict_expr) (
        entry "pass_threshold" (nullable lib.f64_to_value pass_threshold)
          (entry "on_failure" (string on_failure) empty)))
  kind_data (ensemble child_workflow_id count consensus judge_workflow_id timeout_secs) = object (
      entry "child_workflow_id" (uuid_value child_workflow_id) (
        entry "count" (num count) (
          entry "consensus" (string consensus) (
            entry "judge_workflow_id" (nullable uuid_value judge_workflow_id)
              (entry "timeout_secs" (num timeout_secs) empty)))))
  kind_data (confidence_gate threshold confidence_path on_low_confidence) = object (
      entry "threshold" (lib.f64_to_value threshold) (
        entry "confidence_path" (string confidence_path)
          (entry "on_low_confidence" (string on_low_confidence) empty)))
  kind_data (dynamic_dispatch dispatch_expression timeout_secs) = object (
      entry "dispatch_expression" (string dispatch_expression)
        (entry "timeout_secs" (num timeout_secs) empty))
  kind_data (capability_dispatch required_capabilities fallback_workflow_id timeout_secs) = object (
      entry "required_capabilities" (array (items (map string required_capabilities))) (
        entry "fallback_workflow_id" (nullable uuid_value fallback_workflow_id)
          (entry "timeout_secs" (num timeout_secs) empty)))
  kind_data (react_loop body_workflow_id max_iterations inject_history timeout_secs) = object (
      entry "body_workflow_id" (uuid_value body_workflow_id) (
        entry "max_iterations" (num max_iterations) (
          entry "inject_history" (bool inject_history)
            (entry "timeout_secs" (num timeout_secs) empty))))
  kind_data (reflective_retry child_workflow_id reflection_workflow_id max_retries timeout_secs) =
      object (
        entry "child_workflow_id" (uuid_value child_workflow_id) (
          entry "reflection_workflow_id" (uuid_value reflection_workflow_id) (
            entry "max_retries" (num max_retries) (entry "timeout_secs" (num timeout_secs) empty))))
  kind_data (llm_dispatch classifier_workflow_id routes fallback_workflow_id timeout_secs) =
      object (
        entry "classifier_workflow_id" (uuid_value classifier_workflow_id) (
          entry "routes" (object (routes_map lib.uuid_text routes)) (
            entry "fallback_workflow_id" (nullable uuid_value fallback_workflow_id)
              (entry "timeout_secs" (num timeout_secs) empty))))

  unfoldable pub serialize_system_node_kind : SystemNodeKind → String × Value
  unfolding kind_text kind_data
  serialize_system_node_kind kind = (kind_text kind, kind_data kind)
