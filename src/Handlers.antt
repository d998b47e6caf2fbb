-- ===== src/Handlers.antt =====
-- Handlers of talos-workflow-engine/src/scheduler_handlers.rs that compute a node's output themselves.
pub mod WhileLoop
pub mod Checks
pub mod Gate
pub mod Gated
pub mod Judge
pub mod Marks
pub mod Judged
pub mod Verified
use talos_workflow_engine.Base.{ℕ, zero, suc, ◌+◌, String, Option, none, some, if◌then◌else◌, true}
use talos_workflow_engine.Base.HashMap
use talos_workflow_engine.Base.HashMap.{HashMap}
use talos_workflow_engine.Base.Json.{Value, Map, Number, number, string, bool, object, empty, entry}
use talos_workflow_engine.Engine.{
  Engine, SystemNodeKind, while_loop, repeat_loop, wait, node_kind, eval_bool,
}
use talos_workflow_engine.Inputs.{gather_inputs}

pub record Rounds : Type 0 where
  pub iteration : ℕ
  pub current_output : Value

abbrev pub loop_output : ℕ → Value → Value
loop_output iteration input = object (
    entry "__loop_iteration" (number (Number.pos_int iteration)) (entry "__loop_input" input empty))

module _ (e : Engine) where
  -- The loop, on as many rounds as it has left.
  unfoldable pub while_rounds : String → ℕ → ℕ → Value → Rounds
  unfolding eval_bool
  while_rounds condition zero iteration current_output = record {
    iteration = iteration;
    current_output = current_output;
  }
  while_rounds condition (suc left) iteration current_output =
      let rest =
        while_rounds condition left (suc iteration) (loop_output (suc iteration) current_output) in
      if eval_bool e condition current_output
      then rest
      else record { iteration = iteration; current_output = current_output }

  unfoldable pub while_output : Rounds → Value
  while_output r = object (
      entry "iterations" (number (Number.pos_int r.iteration))
        (entry "output" r.current_output empty))

  unfoldable pub while_loop_of : Option SystemNodeKind → Option (String × ℕ)
  while_loop_of (some (while_loop condition max_iterations)) = some (condition, max_iterations)
  while_loop_of _ = none

  unfoldable pub try_dispatch_while_loop : ℕ → ℕ → HashMap Value → Option Value
  unfolding while_rounds while_output while_loop_of node_kind gather_inputs
  try_dispatch_while_loop node_idx node_id results = elim (while_loop_of (node_kind e node_id)) [
    | none ↦ none
    | some (condition, max_iterations) ↦
        some (
          while_output (while_rounds condition max_iterations 0 (gather_inputs e results node_idx)))
  ]

  unfoldable pub repeat_loop_of : Option SystemNodeKind → Option ℕ
  repeat_loop_of (some (repeat_loop count)) = some count
  repeat_loop_of _ = none

  unfoldable pub try_dispatch_repeat_loop : ℕ → ℕ → HashMap Value → Option Value
  unfolding repeat_loop_of node_kind gather_inputs
  try_dispatch_repeat_loop node_idx node_id results = elim (repeat_loop_of (node_kind e node_id)) [
    | none ↦ none
    | some count ↦ some (
        object (
          entry "iterations" (number (Number.pos_int count))
            (entry "input" (gather_inputs e results node_idx) empty)))
  ]

  unfoldable pub wait_of : Option SystemNodeKind → Option (Option String)
  wait_of (some (wait message)) = some message
  wait_of _ = none

  -- The envelope of the pause.
  unfoldable pub try_dispatch_wait : ℕ → ℕ → Option Value
  unfolding wait_of node_kind
  try_dispatch_wait node_id execution_id = elim (wait_of (node_kind e node_id)) [
    | none ↦ none
    | some message ↦
        let rest : Map = elim message [
          | none ↦ empty
          | some m ↦ entry "message" (string m) empty
        ] in
        some (
          object (
            entry "__waiting__" (bool true) (
              entry "node_id" (string (e.externals.uuid_text node_id))
                (entry "execution_id" (string (e.externals.uuid_text execution_id)) rest))))
  ]
