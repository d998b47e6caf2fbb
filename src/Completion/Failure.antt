-- ===== src/Completion/Failure.antt =====
-- `handle_node_failure`, `handle_completed_future` and `route_system_node_output` of
-- talos-workflow-engine/src/engine_completion.rs.
use talos_workflow_engine.Base.{
  ℕ, String, Bool, true, false, not, Option, none, some, [], ◌∷◌, any, fold, if◌then◌else◌,
}
use talos_workflow_engine.Base.HashMap
use talos_workflow_engine.Base.Json
use talos_workflow_engine.Base.Json.{Value, bool, string, object, empty, entry, flag, as_str}
use talos_workflow_engine.Base.Text.{format}
use talos_workflow_engine.Engine.{
  Engine, Reactor, Chains, on_node_failed, redact_str, apply_fan_in_early_ready,
}
use talos_workflow_engine.Completion.{
  Outcome, going, failed, panicked, skipped, extract_non_transient_class, is_error_edge, decrement,
  put_result, push_if_released, emit, call_hook, unblock_successors, has_error_edge, clear_chain,
  completion_context, node_event, handle_node_success,
}

pub data Completed : Type 0 where
  ok : Value → Completed
  err : String → Completed

module _ (e : Engine) where
  unfoldable pub found_error_edge : ℕ → ℕ → Bool
  unfolding is_error_edge
  found_error_edge p c = elim (e.graph.find_edge p c) [ none ↦ false | some l ↦ is_error_edge l ]

  unfoldable pub has_error_children : ℕ → Bool
  unfolding found_error_edge
  has_error_children idx = any (found_error_edge idx) (e.graph.outgoing idx)

  unfoldable pub display_label : ℕ → String
  display_label id = elim (HashMap.get e.node_labels id) [
    | none ↦ e.externals.uuid_text id
    | some l ↦ l
  ]

  -- The two-pass scrub of an error message.
  unfoldable pub scrub : String → String
  unfolding redact_str
  scrub msg = redact_str e (elim e.externals.redact_error [ none ↦ msg | some f ↦ f msg ])

  unfoldable pub error_payload : ℕ → String → Value
  unfolding display_label
  error_payload id msg = object (
      entry "__error" (bool true) (
        entry "error_message" (string msg) (entry "failed_node" (string (display_label id)) empty)))

  unfoldable pub continued_payload : String → Value
  continued_payload msg = object (
      entry "__error" (bool true)
        (entry "error_message" (string msg) (entry "__continued" (bool true) empty)))

  -- The counter of a child, after one parent failed into it.
  unfoldable pub failure_child : ℕ → ℕ → Reactor → Reactor
  unfolding has_error_edge put_result decrement push_if_released
  failure_child finished child s =
      if not (has_error_edge e finished child)
      then put_result (e.graph.weight child) skipped s
      else elim (HashMap.get s.pending child) [
        | none ↦ s
        | some cnt ↦
            push_if_released child
              (record s { pending = apply_fan_in_early_ready e child (decrement child s.pending) })
      ]

  unfoldable pub continue_child : ℕ → Reactor → Reactor
  unfolding decrement push_if_released
  continue_child child s = elim (HashMap.get s.pending child) [
    | none ↦ s
    | some cnt ↦ push_if_released child (record s { pending = decrement child s.pending })
  ]

  unfoldable pub continues_on_error : ℕ → Bool
  unfolding flag
  continues_on_error id = elim (HashMap.get e.node_configs id) [
    | none ↦ false
    | some config ↦ flag config "__continue_on_error"
  ]

  -- The branch that routes the error to the children on error edges.
  unfoldable pub route_error : ℕ → ℕ → String → Option Chains → Reactor → Outcome
  unfolding error_payload put_result clear_chain failure_child
  route_error idx id msg chains_ctx s =
      let s' = put_result id (error_payload id msg) s in
      elim (clear_chain e chains_ctx idx s'.pending) [
        | none ↦ panicked
        | some pending ↦
            going
              (fold (failure_child idx) (e.graph.outgoing idx) (record s' { pending = pending }))
      ]

  unfoldable pub continue_past : ℕ → ℕ → String → Reactor → Reactor
  unfolding continued_payload put_result continue_child
  continue_past idx id msg s =
      fold continue_child (e.graph.outgoing idx) (put_result id (continued_payload msg) s)

  -- The branch that gives up: the hook is told, and the prefetch cache is emptied.
  unfoldable pub give_up : ℕ → String → ℕ → ℕ → Reactor → Outcome
  unfolding call_hook completion_context display_label
  give_up id msg execution_id wall_time_ms s =
      let call =
        on_node_failed (completion_context e id execution_id wall_time_ms) msg
          (HashMap.get s.results id) in
      let s' = call_hook e call s in
      failed (record s' { prefetch_cache = [] })
        (format ("node '" ∷ display_label id ∷ "' failed: " ∷ msg ∷ []))

  unfoldable pub handle_node_failure : ℕ → String → ℕ → ℕ → Option Chains → Reactor → Outcome
  unfolding scrub emit node_event route_error continue_past give_up has_error_children
      continues_on_error
  handle_node_failure idx error_msg execution_id wall_time_ms chains_ctx s =
      let id = e.graph.weight idx in
      let msg = scrub error_msg in
      let s1 =
        emit e
          (node_event e execution_id id "node_failed" "Failed" (some msg)
            (extract_non_transient_class msg))
          s in
      if has_error_children idx
      then route_error idx id msg chains_ctx s1
      else if continues_on_error id
      then going (continue_past idx id msg s1)
      else give_up id msg execution_id wall_time_ms s1

  unfoldable pub handle_completed_future : ℕ → Completed → ℕ → ℕ → Option Chains → Reactor → Outcome
  unfolding handle_node_success handle_node_failure
  handle_completed_future idx (ok output) execution_id wall_time_ms chains_ctx s =
      handle_node_success e idx output execution_id wall_time_ms chains_ctx s
  handle_completed_future idx (err msg) execution_id wall_time_ms chains_ctx s =
      handle_node_failure idx msg execution_id wall_time_ms chains_ctx s

  unfoldable pub rejection_message : Value → String
  rejection_message output = elim (Json.get output "error_message") [
    | none ↦ "system node rejected output"
    | some v ↦ elim (as_str v) [ none ↦ "system node rejected output" | some m ↦ m ]
  ]

  unfoldable pub route_system_node_output : ℕ → Value → ℕ → Option Chains → Reactor → Outcome
  unfolding rejection_message handle_completed_future unblock_successors put_result flag as_str
  route_system_node_output idx output execution_id chains_ctx s =
      if flag output "__error"
      then handle_completed_future idx (err (rejection_message output)) execution_id 0 chains_ctx s
      else going (unblock_successors e idx (put_result (e.graph.weight idx) output s))
