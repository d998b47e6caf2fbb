-- ===== src/Completion/Routing.antt =====
-- Which successors a completed node enqueues, and which it marks as skipped: the loops of
-- talos-workflow-engine/src/engine_completion.rs over the outgoing edges.
use talos_workflow_engine.Base.{
  ℕ, ◌<◌, String, ◌≡◌, refl, sym, ap, ◌∙◌, inl, inr, true, false, Option, none, some, arith,
  Option-cases, count, fold,
}
use talos_workflow_engine.Base.HashMap
use talos_workflow_engine.Base.HashMap.{HashMap, get-insert}
use talos_workflow_engine.Base.Json.{Value}
use talos_workflow_engine.Engine.{
  Engine, Reactor, Chains, NodeEventWrite, HookCall, on_node_completed,
}
use talos_workflow_engine.Sanitize.{sanitize_node_output}
use talos_workflow_engine.Completion.{
  going, panicked, extract_non_transient_class, skipped, guard_size, has_error_edge, success_child,
  handle_node_success, clear_chain, emit, call_hook, node_event, completion_context, put_result,
}
use talos_workflow_engine.Completion.Failure.{
  failure_child, has_error_children, handle_node_failure, route_error, scrub, error_payload,
}
use talos_workflow_engine.Completion.Loops.{
  fold-count, fold-skips, success_child-keeps, success_child-skips, failure_child-count,
  failure_child-keeps, failure_child-skips,
}

module _ (e : Engine) where
  going-injective : {s s' : Reactor} → going s ≡ going s' → s ≡ s'
  going-injective h = cc

  panicked-going : {s : Reactor} → panicked ≡ going s → ⊥
  panicked-going h = cc

  emit-ready : (w : NodeEventWrite) (s : Reactor) → (emit e w s).ready ≡ s.ready
  unfolding emit
  emit-ready w s = ground arith

  call_hook-ready : (w : HookCall) (s : Reactor) → (call_hook e w s).ready ≡ s.ready
  unfolding call_hook
  call_hook-ready w s = ground arith

  call_hook-results : (w : HookCall) (s : Reactor) → (call_hook e w s).results ≡ s.results
  unfolding call_hook
  call_hook-results w s = ground arith

  module _ (idx execution_id wall_time_ms : ℕ) (chains_ctx : Option Chains) (s s' : Reactor) where
    unfoldable pub success_entry : Value → Reactor
    success_entry clean =
        let id = e.graph.weight idx in
        let s1 = emit e (node_event e execution_id id "node_completed" "Completed" none none) s in
        call_hook e (on_node_completed (completion_context e id execution_id wall_time_ms) clean)
          (put_result id clean s1)

    pub success-equation :
        (output clean : Value) (pending : HashMap ℕ)
        → sanitize_node_output (guard_size e output) ≡ some clean
        → clear_chain e chains_ctx idx (success_entry clean).pending ≡ some pending
        → handle_node_success e idx output execution_id wall_time_ms chains_ctx s
          ≡ going (
              fold
                (success_child e idx clean)
                (e.graph.outgoing idx)
                (record (success_entry clean) { pending = pending }))
    unfolding handle_node_success success_entry
    success-equation output clean pending sane there = rw (sane, there, handle_node_success) refl

    success-panic :
        (output clean : Value)
        → sanitize_node_output (guard_size e output) ≡ some clean
        → clear_chain e chains_ctx idx (success_entry clean).pending ≡ none
        → handle_node_success e idx output execution_id wall_time_ms chains_ctx s ≡ panicked
    unfolding handle_node_success success_entry
    success-panic output clean sane out = rw (sane, out, handle_node_success) refl

    success_entry-ready : (clean : Value) → (success_entry clean).ready ≡ s.ready
    unfolding success_entry put_result
    success_entry-ready clean =
        call_hook-ready _ _
        ∙ emit-ready
            (node_event e execution_id (e.graph.weight idx) "node_completed" "Completed" none none)
            s

    -- The state in which the loop over the successors starts.
    record Entered (f : ℕ → Reactor → Reactor) : Type 0 where
      pub entry_state : Reactor
      pub same_ready : entry_state.ready ≡ s.ready
      pub loop : fold f (e.graph.outgoing idx) entry_state ≡ s'

    success-Entered :
        (output clean : Value)
        → sanitize_node_output (guard_size e output) ≡ some clean
        → handle_node_success e idx output execution_id wall_time_ms chains_ctx s ≡ going s'
        → Entered (success_child e idx clean)
    success-Entered output clean sane h =
        elim (Option-cases (clear_chain e chains_ctx idx (success_entry clean).pending)) [
          | inl out ↦
              let k = success-panic output clean sane out in absurd (panicked-going (sym k ∙ h))
          | inr (pending, there) ↦ record {
            entry_state = record (success_entry clean) { pending = pending };
            same_ready = success_entry-ready clean;
            loop = going-injective (sym (success-equation output clean pending sane there) ∙ h);
          }
        ]

    -- A node that succeeds marks every successor on an error edge as skipped.
    pub handle_node_success-skips :
        (output clean : Value) (c : ℕ)
        → sanitize_node_output (guard_size e output) ≡ some clean
        → handle_node_success e idx output execution_id wall_time_ms chains_ctx s ≡ going s'
        → 0 < count c (e.graph.outgoing idx)
        → has_error_edge e idx c ≡ true
        → HashMap.get s'.results (e.graph.weight c) ≡ some skipped
    handle_node_success-skips output clean c sane h child error_edge =
        let entered = success-Entered output clean sane h in
        rw (← entered.loop) (
          fold-skips (success_child e idx clean) (e.graph.weight c)
            (success_child-keeps e idx clean (e.graph.weight c)) c
            (success_child-skips e idx clean c error_edge) (e.graph.outgoing idx)
            entered.entry_state child)

    unfoldable pub failure_entry : String → Reactor
    failure_entry error_msg =
        let id = e.graph.weight idx in
        let msg = scrub e error_msg in
        put_result id (error_payload e id msg) (
          emit e
            (node_event e execution_id id "node_failed" "Failed" (some msg)
              (extract_non_transient_class msg))
            s)

    pub failure-equation :
        (error_msg : String) (pending : HashMap ℕ)
        → has_error_children e idx ≡ true
        → clear_chain e chains_ctx idx (failure_entry error_msg).pending ≡ some pending
        → handle_node_failure e idx error_msg execution_id wall_time_ms chains_ctx s
          ≡ going (
              fold
                (failure_child e idx)
                (e.graph.outgoing idx)
                (record (failure_entry error_msg) { pending = pending }))
    unfolding handle_node_failure route_error failure_entry
    failure-equation error_msg pending handled there =
        rw (handled, there, route_error, handle_node_failure) refl

    failure-panic :
        (error_msg : String)
        → has_error_children e idx ≡ true
        → clear_chain e chains_ctx idx (failure_entry error_msg).pending ≡ none
        → handle_node_failure e idx error_msg execution_id wall_time_ms chains_ctx s ≡ panicked
    unfolding handle_node_failure route_error failure_entry
    failure-panic error_msg handled out = rw (handled, out, route_error, handle_node_failure) refl

    failure_entry-ready : (error_msg : String) → (failure_entry error_msg).ready ≡ s.ready
    unfolding failure_entry put_result
    failure_entry-ready error_msg = emit-ready _ s

    failure-Entered :
        (error_msg : String)
        → has_error_children e idx ≡ true
        → handle_node_failure e idx error_msg execution_id wall_time_ms chains_ctx s ≡ going s'
        → Entered (failure_child e idx)
    failure-Entered error_msg handled h =
        elim (Option-cases (clear_chain e chains_ctx idx (failure_entry error_msg).pending)) [
          | inl out ↦
              let k = failure-panic error_msg handled out in absurd (panicked-going (sym k ∙ h))
          | inr (pending, there) ↦ record {
            entry_state = record (failure_entry error_msg) { pending = pending };
            same_ready = failure_entry-ready error_msg;
            loop = going-injective (sym (failure-equation error_msg pending handled there) ∙ h);
          }
        ]

    -- A node that fails into its error handlers enqueues no successor without an error edge.
    pub handle_node_failure-blocked :
        (error_msg : String) (c : ℕ)
        → has_error_children e idx ≡ true
        → handle_node_failure e idx error_msg execution_id wall_time_ms chains_ctx s ≡ going s'
        → has_error_edge e idx c ≡ false
        → count c s'.ready ≡ count c s.ready
    handle_node_failure-blocked error_msg c handled h plain =
        let entered = failure-Entered error_msg handled h in
        ap (λ r. count c r.ready) (sym entered.loop)
        ∙ fold-count (failure_child e idx) c (failure_child-count e idx c plain)
            (e.graph.outgoing idx) entered.entry_state
        ∙ ap (count c) entered.same_ready

    -- A node that fails into its error handlers marks every successor without an error edge as skipped.
    handle_node_failure-skips :
        (error_msg : String) (c : ℕ)
        → has_error_children e idx ≡ true
        → handle_node_failure e idx error_msg execution_id wall_time_ms chains_ctx s ≡ going s'
        → 0 < count c (e.graph.outgoing idx)
        → has_error_edge e idx c ≡ false
        → HashMap.get s'.results (e.graph.weight c) ≡ some skipped
    handle_node_failure-skips error_msg c handled h child plain =
        let entered = failure-Entered error_msg handled h in
        rw (← entered.loop) (
          fold-skips (failure_child e idx) (e.graph.weight c)
            (failure_child-keeps e idx (e.graph.weight c)) c (failure_child-skips e idx c plain)
            (e.graph.outgoing idx) entered.entry_state child)
