-- ===== src/Completion/Outcomes.antt =====
-- What the error message of a failed node can reach.
use talos_workflow_engine.Base.{ℕ, String, ◌≡◌, refl, Option}
use talos_workflow_engine.Engine.{Engine, Reactor, Chains}
use talos_workflow_engine.Completion.Failure.{scrub, handle_node_failure}

module _ (e : Engine) (idx execution_id wall_time_ms : ℕ) (chains_ctx : Option Chains) where
  -- Nothing that a failure does depends on more of the error message than its scrubbed form: two
  -- messages that are scrubbed to one text have one outcome, with the same events, hook calls, results
  -- and returned error.
  pub handle_node_failure-scrubbed :
      (error_msg other : String) (s : Reactor)
      → scrub e error_msg ≡ scrub e other
      → handle_node_failure e idx error_msg execution_id wall_time_ms chains_ctx s
        ≡ handle_node_failure e idx other execution_id wall_time_ms chains_ctx s
  unfolding handle_node_failure
  handle_node_failure-scrubbed error_msg other s same = rw (same, handle_node_failure) refl
