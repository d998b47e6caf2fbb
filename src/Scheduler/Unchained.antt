-- ===== src/Scheduler/Unchained.antt =====
-- Runs without pipelines: a resumed run has no chains, and a fresh run may have found none. The turns
-- of both are the same.
use talos_workflow_engine.Base.{
  ℕ, String, ◌≡◌, refl, sym, ap, ◌∙◌, Option, none, some, List, inl, inr, Bool-cases, Option-cases,
}
use talos_workflow_engine.Base.HashMap
use talos_workflow_engine.Base.HashMap.{HashMap}
use talos_workflow_engine.Base.Json.{Value, flag}
use talos_workflow_engine.Engine.{Engine, Reactor, Chains}
use talos_workflow_engine.Sanitize.{sanitize_node_output}
use talos_workflow_engine.Completion.{clear_chain, guard_size, handle_node_success}
use talos_workflow_engine.Completion.Failure.{
  Completed, ok, err, has_error_children, handle_node_failure, rejection_message,
  handle_completed_future, route_system_node_output,
}
use talos_workflow_engine.Completion.Routing.{
  success-equation, success_entry, failure-equation, failure_entry,
}
use talos_workflow_engine.Scheduler.{
  Handling, settled, routed, rejected, paused, aborted, spawned, Run, turn_of, take_ready,
  handle_ready, finish_task, Step, spawn, settle, finish, Reach, here, next,
}

-- No node stands in a chain.
abbrev pub Unchained : Option Chains → Type 0
Unchained none = Unit
Unchained (some c) = (idx : ℕ) → HashMap.get c.node_to_chain idx ≡ none

clear_chain-id :
    (e : Engine) (chains_ctx : Option Chains)
    → Unchained chains_ctx
    → (idx : ℕ) (pending : HashMap ℕ) → clear_chain e chains_ctx idx pending ≡ some pending
unfolding clear_chain
clear_chain-id e none unchained idx pending = refl
clear_chain-id e (some c) unchained idx pending = rw (unchained idx, clear_chain) refl

module _ (e : Engine) (chains_ctx : Option Chains) (unchained : Unchained chains_ctx) where
  clear_chain-unchained :
      (idx : ℕ) (pending : HashMap ℕ) → clear_chain e chains_ctx idx pending ≡ some pending
  clear_chain-unchained idx pending = clear_chain-id e chains_ctx unchained idx pending

  module _ (idx execution_id wall_time_ms : ℕ) (s : Reactor) where
    success-unchained :
        (output : Value)
        → handle_node_success e idx output execution_id wall_time_ms chains_ctx s
          ≡ handle_node_success e idx output execution_id wall_time_ms none s
    unfolding handle_node_success success_entry
    success-unchained output = elim (Option-cases (sanitize_node_output (guard_size e output))) [
      | inl bad ↦ rw (bad, handle_node_success) refl
      | inr (clean, good) ↦
          let entry' = success_entry e idx execution_id wall_time_ms none s s clean in
          success-equation e idx execution_id wall_time_ms chains_ctx s s output clean
            entry'.pending good (clear_chain-unchained idx _)
          ∙ sym (
              success-equation e idx execution_id wall_time_ms none s s output clean entry'.pending
                good refl)
    ]

    failure-unchained :
        (msg : String)
        → handle_node_failure e idx msg execution_id wall_time_ms chains_ctx s
          ≡ handle_node_failure e idx msg execution_id wall_time_ms none s
    unfolding handle_node_failure failure_entry
    failure-unchained msg = elim (Bool-cases (has_error_children e idx)) [
      | inl handled ↦
          let entry' = failure_entry e idx execution_id wall_time_ms none s s msg in
          failure-equation e idx execution_id wall_time_ms chains_ctx s s msg entry'.pending handled
            (clear_chain-unchained idx _)
          ∙ sym (
              failure-equation e idx execution_id wall_time_ms none s s msg entry'.pending handled
                refl)
      | inr unhandled ↦ rw (unhandled, handle_node_failure) refl
    ]

  module _ (execution_id : ℕ) where
    completed-unchained :
        (idx : ℕ) (result : Completed) (wall_time_ms : ℕ) (s : Reactor)
        → handle_completed_future e idx result execution_id wall_time_ms chains_ctx s
          ≡ handle_completed_future e idx result execution_id wall_time_ms none s
    unfolding handle_completed_future
    completed-unchained idx (ok output) wall_time_ms s =
        success-unchained idx execution_id wall_time_ms s output
    completed-unchained idx (err msg) wall_time_ms s =
        failure-unchained idx execution_id wall_time_ms s msg

    routed-unchained :
        (idx : ℕ) (output : Value) (s : Reactor)
        → route_system_node_output e idx output execution_id chains_ctx s
          ≡ route_system_node_output e idx output execution_id none s
    unfolding route_system_node_output
    routed-unchained idx output s = elim (Bool-cases (flag output "__error")) [
      | inl error ↦
          rw (error, route_system_node_output)
            (completed-unchained idx (err (rejection_message e output)) 0 s)
      | inr fine ↦ rw (fine, route_system_node_output) refl
    ]

    finish_task-unchained :
        (idx : ℕ) (result : Completed) (wall_time_ms : ℕ) (r : Run)
        → finish_task e execution_id chains_ctx idx result wall_time_ms r
          ≡ finish_task e execution_id none idx result wall_time_ms r
    unfolding finish_task
    finish_task-unchained idx result wall_time_ms r =
        ap (turn_of _) (completed-unchained idx result wall_time_ms r.reactor)

    handle_ready-unchained :
        (idx : ℕ) (h : Handling) (r : Run)
        → handle_ready e execution_id chains_ctx idx h r ≡ handle_ready e execution_id none idx h r
    unfolding handle_ready
    handle_ready-unchained idx (settled output) r = refl
    handle_ready-unchained idx (routed output) r =
        ap (turn_of r.executing) (routed-unchained idx output r.reactor)
    handle_ready-unchained idx (rejected msg) r =
        ap (turn_of r.executing) (completed-unchained idx (err msg) 0 r.reactor)
    handle_ready-unchained idx (paused output) r = refl
    handle_ready-unchained idx (aborted msg) r = refl
    handle_ready-unchained idx spawned r = refl

    pub Step-unchained :
        {done : List ℕ} {r : Run} {done' : List ℕ} {r' : Run}
        → Step e execution_id chains_ctx done r done' r'
        → Step e execution_id none done r done' r'
    Step-unchained {done} {r} (spawn idx there k) =
        spawn idx there (sym (handle_ready-unchained idx spawned (take_ready idx r)) ∙ k)
    Step-unchained {done} {r} (settle idx h there local k) =
        settle idx h there local (sym (handle_ready-unchained idx h (take_ready idx r)) ∙ k)
    Step-unchained {done} {r} (finish idx result wall_time_ms there k) =
        finish idx result wall_time_ms there
          (sym (finish_task-unchained idx result wall_time_ms r) ∙ k)

    pub Reach-unchained :
        {done : List ℕ} {r : Run} {done' : List ℕ} {r' : Run}
        → Reach e execution_id chains_ctx done r done' r'
        → Reach e execution_id none done r done' r'
    Reach-unchained here = here
    Reach-unchained (next steps step) = next (Reach-unchained steps) (Step-unchained step)
