-- ===== src/Completion.antt =====
-- The post-dispatch handlers of talos-workflow-engine/src/engine_completion.rs and
-- `unblock_successors` of talos-workflow-engine/src/scheduler_handlers.rs: what the reactor does with
-- the output or the error of a node.
pub mod Failure
pub mod Counters
pub mod Skips
pub mod Loops
pub mod Routing
pub mod FanIn
pub mod Outcomes
use Prim.Native.String.{len, slice}
use text.Mathlib.Text.{◌==◌ as str_eq, find?}
use talos_workflow_engine.Base.{
  ℕ, zero, suc, ◌+◌, ◌-◌, String, Bool, true, false, not, Option, none, some, List, [], ◌∷◌, ◌++◌,
  ◌==◌, ltb, any, fold, retain, get_elem?, if◌then◌else◌,
}
use talos_workflow_engine.Base.HashMap
use talos_workflow_engine.Base.HashMap.{HashMap}
use talos_workflow_engine.Base.Json
use talos_workflow_engine.Base.Json.{Value, bool, string, object, empty, entry, flag}
use talos_workflow_engine.Base.Text.{format}
use talos_workflow_engine.Graph.{EdgeLogic}
use talos_workflow_engine.Engine.{
  Engine, Reactor, Chains, NodeEventWrite, NodeCompletionContext, HookCall, on_node_completed,
  on_node_failed, eval_bool, redact_str, apply_fan_in_early_ready, usize_sub,
}
use talos_workflow_engine.Sanitize.{sanitize_node_output}
use talos_workflow_engine.Inputs.{unwrap_output}

-- A handler goes on, returns `Err`, or panics.
pub data Outcome : Type 0 where
  going : Reactor → Outcome
  failed : Reactor → String → Outcome
  panicked : Outcome

abbrev pub skipped : Value
skipped = object (entry "__skipped" (bool true) empty)

unfoldable pub extract_non_transient_class : String → Option String
extract_non_transient_class msg = elim (find? msg "(non-transient: ") [
  | none ↦ none
  | some at' ↦
      let rest = slice msg (at' + len "(non-transient: ") (len msg) in
      elim (find? rest ")") [ none ↦ none | some end ↦ some (slice rest 0 end) ]
]

unfoldable pub is_error_edge : EdgeLogic → Bool
is_error_edge l = str_eq l.edge_type "error"

-- `if *cnt > 0 { *cnt -= 1 }` on a counter that exists.
unfoldable pub decrement : ℕ → HashMap ℕ → HashMap ℕ
decrement idx pending = elim (HashMap.get pending idx) [
  | none ↦ pending
  | some cnt ↦ if ltb 0 cnt then HashMap.insert pending idx (cnt - 1) else pending
]

unfoldable pub push_back : ℕ → Reactor → Reactor
push_back idx s = record s { ready = s.ready ++ idx ∷ [] }

unfoldable pub put_result : ℕ → Value → Reactor → Reactor
put_result id v s = record s { results = HashMap.insert s.results id v }

-- `pending.get(&idx).copied().unwrap_or(1) == 0`, and then `ready.push_back(idx)`.
unfoldable pub push_if_released : ℕ → Reactor → Reactor
unfolding push_back
push_if_released idx s = if HashMap.get_or s.pending idx 1 == 0 then push_back idx s else s

module _ (e : Engine) where
  unfoldable pub emit : NodeEventWrite → Reactor → Reactor
  emit w s = if e.has_event_sink then record s { events = s.events ++ w ∷ [] } else s

  unfoldable pub call_hook : HookCall → Reactor → Reactor
  call_hook c s = if e.has_node_hook then record s { hooks = s.hooks ++ c ∷ [] } else s

  unfoldable pub unblock_successor : ℕ → Reactor → Reactor
  unfolding decrement push_back
  unblock_successor child s = elim (HashMap.get s.pending child) [
    | none ↦ s
    | some cnt ↦
        let s' = record s { pending = decrement child s.pending } in
        if (if ltb 0 cnt then cnt - 1 else cnt) == 0 then push_back child s' else s'
  ]

  unfoldable pub unblock_successors : ℕ → Reactor → Reactor
  unfolding unblock_successor
  unblock_successors node_idx s = fold unblock_successor (e.graph.outgoing node_idx) s

  unfoldable pub has_error_edge : ℕ → ℕ → Bool
  unfolding is_error_edge
  has_error_edge p c = any is_error_edge (e.graph.edges_connecting p c)

  unfoldable pub edge_blocks : Value → EdgeLogic → Bool
  unfolding eval_bool
  edge_blocks output l = elim l.condition [
    | none ↦ false
    | some cond ↦ not (eval_bool e cond (unwrap_output output))
  ]

  unfoldable pub condition_failed : Value → ℕ → ℕ → Bool
  unfolding edge_blocks
  condition_failed output p c = any (edge_blocks output) (e.graph.edges_connecting p c)

  -- The child of an edge whose condition is false, and the cascade to its own children.
  unfoldable pub skip_child : ℕ → Reactor → Reactor
  unfolding put_result decrement
  skip_child child s =
      let s' = put_result (e.graph.weight child) skipped s in
      record s' { pending = fold decrement (e.graph.outgoing child) s'.pending }

  -- One round of the loop over the successors of a node that succeeded.
  unfoldable pub success_child : ℕ → Value → ℕ → Reactor → Reactor
  unfolding has_error_edge condition_failed skip_child push_back put_result
  success_child finished output child s =
      if has_error_edge finished child
      then put_result (e.graph.weight child) skipped s
      else elim (HashMap.get s.pending child) [
        | none ↦ s
        | some cnt ↦
            let pending =
              apply_fan_in_early_ready e child (HashMap.insert s.pending child (usize_sub cnt 1)) in
            let s' = record s { pending = pending } in
            if not (HashMap.get_or pending child 1 == 0)
            then s'
            else if condition_failed output finished child
            then skip_child child s'
            else push_back child s'
      ]

  -- The pending counts of a whole chain; `none` is the panic of an index out of range.
  unfoldable pub clear_chain : Option Chains → ℕ → HashMap ℕ → Option (HashMap ℕ)
  clear_chain none idx pending = some pending
  clear_chain (some c) idx pending = elim (HashMap.get c.node_to_chain idx) [
    | none ↦ some pending
    | some k ↦ elim (get_elem? c.chains k) [
      | none ↦ none
      | some chain ↦ some (fold (λ n p. HashMap.insert p n 0) chain pending)
    ]
  ]

  unfoldable pub too_large : ℕ → Value
  too_large bytes = object (
      entry "__error" (bool true) (
        entry "error"
          (string (
            format (
              "Node output too large ("
              ∷ e.externals.decimal bytes
              ∷ " bytes > "
              ∷ e.externals.decimal e.max_node_output_bytes
              ∷ " byte limit). Reduce the amount of data returned by this node."
              ∷ [])))
          empty))

  unfoldable pub guard_size : Value → Value
  unfolding too_large
  guard_size output = elim (e.externals.json_bytes output) [
    | none ↦ output
    | some bytes ↦ if ltb e.max_node_output_bytes bytes then too_large bytes else output
  ]

  unfoldable pub completion_context : ℕ → ℕ → ℕ → NodeCompletionContext
  completion_context node_id execution_id wall_time_ms = record {
    workflow_id = elim e.workflow_id [ none ↦ execution_id | some w ↦ w ];
    execution_id = execution_id;
    node_id = node_id;
    node_label = HashMap.get e.node_labels node_id;
    module_id = elim (HashMap.get e.node_meta node_id) [ none ↦ none | some m ↦ m.module_id ];
    actor_id = e.actor_id;
    wall_time_ms = wall_time_ms;
  }

  unfoldable pub node_event :
      ℕ → ℕ → String → String → Option String → Option String → NodeEventWrite
  node_event execution_id node_id event_type status message class = record {
    execution_id = execution_id;
    event_type = event_type;
    node_id = some node_id;
    status = status;
    log_message = message;
    iteration_index = none;
    error_class = class;
  }

  -- `handle_node_success`.
  unfoldable pub handle_node_success : ℕ → Value → ℕ → ℕ → Option Chains → Reactor → Outcome
  unfolding emit call_hook success_child clear_chain guard_size completion_context node_event
      put_result
  handle_node_success idx output execution_id wall_time_ms chains_ctx s =
      let id = e.graph.weight idx in
      let s1 = emit (node_event execution_id id "node_completed" "Completed" none none) s in
      elim (sanitize_node_output (guard_size output)) [
        | none ↦ panicked
        | some clean ↦
            let s2 = put_result id clean s1 in
            let s3 =
              call_hook (on_node_completed (completion_context id execution_id wall_time_ms) clean)
                s2 in
            elim (clear_chain chains_ctx idx s3.pending) [
              | none ↦ panicked
              | some pending ↦ going (
                  fold (success_child idx clean) (e.graph.outgoing idx)
                    (record s3 { pending = pending }))
            ]
      ]
