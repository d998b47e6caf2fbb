-- ===== src/Handlers/Checks.antt =====
-- The handlers of talos-workflow-engine/src/scheduler_handlers.rs that check, collect or skip: verify,
-- collect, synthesize, error handlers and skip conditions, with what they call of
-- talos-workflow-engine/src/engine.rs.
use text.Mathlib.Text.{◌==◌ as str_eq, find?}
use talos_workflow_engine.Base.{
  ℕ, zero, suc, String, Bool, true, false, ◌||◌, Option, none, some, List, [], ◌∷◌, map, filter_map,
  length, if◌then◌else◌,
}
use talos_workflow_engine.Base.HashMap
use talos_workflow_engine.Base.HashMap.{HashMap}
use talos_workflow_engine.Base.Options.{◌>>=◌, unwrap_or, or_else, is_some}
use talos_workflow_engine.Base.Result.{Result, ok, err}
use talos_workflow_engine.Base.Text.{format}
use talos_workflow_engine.Base.Json.{
  Value, Map, Number, number, string, bool, object, array, empty, entry, items, get, get_key,
  insert_key, as_str, as_u64, as_object,
}
use talos_workflow_engine.Engine.{
  Engine, SystemNodeKind, verify, collect, synthesize, error_handler, node_kind, eval_bool, Reactor,
}
use talos_workflow_engine.Completion.{emit, node_event}
use talos_workflow_engine.Inputs.{
  gather_inputs, collect_parent_outputs, strip_metadata, parent_output,
}
use talos_workflow_engine.Loader.Trigger.{find_trigger}

-- `entry(k).or_insert(v)` of each of the trigger's entries.
unfoldable pub overlay : Map → Map → Map
overlay empty m = m
overlay (entry k v rest) m = overlay rest (if is_some (get_key m k) then m else insert_key m k v)

unfoldable overlaid : Option Value → Value → Value
unfolding overlay
overlaid (some (object trigger)) (object m) = object (overlay trigger m)
overlaid _ context = context

-- The first value that has an error message.
unfoldable first_message : Map → Option Value
unfolding get
first_message empty = none
first_message (entry k v m) = or_else (get v "error_message") (first_message m)

unfoldable pub marked : Value → List (String × Value) → Value
unfolding insert_key
marked (object m) [] = object m
marked (object m) ((k, v) ∷ marks) = marked (object (insert_key m k v)) marks
marked v marks = v

abbrev skipped_for : String → Value
skipped_for reason = object (entry "__skipped" (bool true) (entry "reason" (string reason) empty))

unfoldable take : ℕ → List Value → List Value
take zero vs = []
take (suc n) [] = []
take (suc n) (v ∷ vs) = v ∷ take n vs

unfoldable count_of : Value → ℕ
unfolding get as_u64
count_of v = unwrap_or (get v "count" >>= as_u64) 0

module _ (e : Engine) where
  unfoldable pub emit_node_lifecycle_events : ℕ → ℕ → String → String → Reactor → Reactor
  unfolding emit node_event
  emit_node_lifecycle_events execution_id node_id status log_message s =
      emit e (node_event e execution_id node_id "node_completed" status (some log_message) none)
        (emit e (node_event e execution_id node_id "node_started" "Running" none none) s)

  unfoldable emit_node_skipped_event : ℕ → ℕ → Reactor → Reactor
  unfolding emit node_event
  emit_node_skipped_event execution_id node_id s =
      emit e (node_event e execution_id node_id "node_skipped" "Skipped" none none) s

  unfoldable pub verification_message : String → String → String
  verification_message check_label condition = format (
      "Verification failed for '" ∷ check_label ∷ "': condition '" ∷ condition
      ∷ "' evaluated to false. Wire an error edge from this verify node to a fix-up workflow, or set on_failure: 'passthrough' to route conditionally downstream."
      ∷ [])

  -- The output and whether the check passed.
  unfoldable pub evaluate_verify_node : ℕ → HashMap Value → String → String → String → Value × Bool
  unfolding marked verification_message gather_inputs eval_bool
  evaluate_verify_node node_idx results condition check_label on_failure =
      let parent_output = gather_inputs e results node_idx in
      let passed = eval_bool e condition parent_output in
      (
        if passed
            then marked parent_output
                (("__verified__", bool true) ∷ ("__check_label__", string check_label) ∷ [])
            else if str_eq on_failure "passthrough"
            then marked parent_output (
                ("__verified__", bool false)
                ∷ ("__verification_failed__", bool true)
                ∷ ("__check_label__", string check_label)
                ∷ ("__verification_condition__", string condition)
                ∷ [])
            else object (
                entry "__error" (bool true) (
                  entry "error_message" (string (verification_message check_label condition)) (
                    entry "__verified__" (bool false)
                      (entry "__check_label__" (string check_label) empty)))),
        passed,
      )

  unfoldable pub verify_of : Option SystemNodeKind → Option (String × (Option String × String))
  verify_of (some (verify condition check_label on_failure)) =
      some (condition, (check_label, on_failure))
  verify_of _ = none

  unfoldable verify_log : String → Bool → String
  verify_log check_label passed =
      format ("Verify '" ∷ check_label ∷ "': " ∷ (if passed then "PASSED" else "FAILED") ∷ [])

  unfoldable pub verify_outcome : String → String → String → Value × Bool → Result Value
  unfolding get as_str
  verify_outcome condition check_label on_failure (verify_result, passed) =
      if passed || str_eq on_failure "passthrough"
      then ok verify_result
      else err (
          unwrap_or (get verify_result "error_message" >>= as_str) (
            format
              ("Verification '" ∷ check_label ∷ "' failed (condition: " ∷ condition ∷ ")" ∷ [])))

  unfoldable pub try_dispatch_verify : ℕ → ℕ → ℕ → Reactor → Option (Result Value) × Reactor
  unfolding verify_of node_kind evaluate_verify_node emit_node_lifecycle_events verify_log
      verify_outcome
  try_dispatch_verify node_idx node_id execution_id s = elim (verify_of (node_kind e node_id)) [
    | none ↦ (none, s)
    | some (condition, (label, on_failure)) ↦
        let check_label = unwrap_or label "output quality" in
        let r = evaluate_verify_node node_idx s.results condition check_label on_failure in
        (
          some (verify_outcome condition check_label on_failure r),
          emit_node_lifecycle_events execution_id node_id (if r.1 then "Completed" else "Failed")
              (verify_log check_label r.1) s,
        )
  ]

  unfoldable pub try_dispatch_collect : ℕ → ℕ → ℕ → Reactor → Option Value × Reactor
  unfolding node_kind collect_parent_outputs emit_node_lifecycle_events count_of
  try_dispatch_collect node_idx node_id execution_id s = elim (node_kind e node_id) [
    | some collect ↦
        let collected = collect_parent_outputs e s.results node_idx in
        (
          some collected,
          emit_node_lifecycle_events execution_id node_id "Completed"
              (format (
                "collected "
                ∷ e.externals.decimal (count_of collected)
                ∷ " branch outputs into items array"
                ∷ []))
              s,
        )
    | _ ↦ (none, s)
  ]

  -- `eval_json` is the evaluator's, if there is one and it succeeds.
  unfoldable pub synthesize_parent_outputs :
      (String → Value → Option Value) → ℕ → HashMap Value → Option String → Value
  unfolding strip_metadata parent_output take
  synthesize_parent_outputs eval_json node_idx results synthesis_expr =
      let outputs =
        take 500
          (map strip_metadata (filter_map (parent_output e results) (e.graph.incoming node_idx))) in
      let collected = object (
        entry "items" (array (items outputs))
          (entry "count" (number (Number.pos_int (length outputs))) empty)) in
      elim synthesis_expr [
        | none ↦ collected
        | some expr ↦ unwrap_or (eval_json expr collected) collected
      ]

  unfoldable synthesis_of : Option SystemNodeKind → Option (Option String)
  synthesis_of (some (synthesize expr)) = some expr
  synthesis_of _ = none

  unfoldable pub try_dispatch_synthesize :
      (String → Value → Option Value) → ℕ → ℕ → ℕ → Reactor → Option Value × Reactor
  unfolding synthesis_of node_kind synthesize_parent_outputs emit_node_lifecycle_events count_of
  try_dispatch_synthesize eval_json node_idx node_id execution_id s =
      elim (synthesis_of (node_kind e node_id)) [
        | none ↦ (none, s)
        | some expr ↦
            let synthesized = synthesize_parent_outputs eval_json node_idx s.results expr in
            (
              some synthesized,
              emit_node_lifecycle_events execution_id node_id "Completed"
                  (format (
                    "synthesized "
                    ∷ e.externals.decimal (count_of synthesized)
                    ∷ " branch outputs"
                    ∷ []))
                  s,
            )
      ]

  unfoldable pub skip_condition_of : ℕ → Option String
  unfolding get as_str
  skip_condition_of node_id =
      HashMap.get e.node_configs node_id >>= (λ cfg. get cfg "__skip_condition") >>= as_str

  -- The node's input, with what the trigger has besides.
  unfoldable pub skip_context : ℕ → HashMap Value → Value
  unfolding gather_inputs overlaid find_trigger
  skip_context node_idx results =
      overlaid (find_trigger e.node_labels >>= HashMap.get results)
        (gather_inputs e results node_idx)

  unfoldable pub check_skip_condition : ℕ → ℕ → ℕ → Reactor → Option Value × Reactor
  unfolding skip_condition_of skip_context eval_bool emit_node_skipped_event
  check_skip_condition node_idx node_id execution_id s = elim (skip_condition_of node_id) [
    | none ↦ (none, s)
    | some skip_cond ↦
        if eval_bool e skip_cond (skip_context node_idx s.results)
        then (some (skipped_for "skip_condition"), emit_node_skipped_event execution_id node_id s)
        else (none, s)
  ]

  unfoldable pattern_of : Option SystemNodeKind → Option String
  pattern_of (some (error_handler error_pattern)) = error_pattern
  pattern_of _ = none

  unfoldable pub error_msg_of : Value → String
  unfolding get as_str as_object first_message
  error_msg_of inputs =
      unwrap_or
        (or_else (get inputs "error_message") (as_object inputs >>= first_message) >>= as_str) ""

  unfoldable pub try_dispatch_error_handler : ℕ → ℕ → HashMap Value → Option Value
  unfolding pattern_of node_kind gather_inputs error_msg_of
  try_dispatch_error_handler node_idx node_id results = elim (pattern_of (node_kind e node_id)) [
    | none ↦ none
    | some pattern' ↦
        if is_some (find? (error_msg_of (gather_inputs e results node_idx)) pattern')
        then none
        else some (skipped_for "error_pattern_mismatch")
  ]
