-- ===== src/Handlers/Gate.antt =====
-- The confidence gate: `try_dispatch_confidence_gate` of talos-workflow-engine/src/scheduler_handlers.rs
-- and `evaluate_confidence_gate` of talos-workflow-engine/src/engine.rs.
use text.Mathlib.Text.{◌==◌ as str_eq}
use talos_workflow_engine.Base.{ℕ, String, Bool, true, Option, none, some, [], ◌∷◌, if◌then◌else◌}
use talos_workflow_engine.Base.HashMap.{HashMap}
use talos_workflow_engine.Base.Options.{◌>>=◌, unwrap_or}
use talos_workflow_engine.Base.Text.{format}
use talos_workflow_engine.Base.Json.{
  Value, Map, string, bool, object, empty, entry, get, as_str, flag,
}
use talos_workflow_engine.Engine.{Engine, SystemNodeKind, confidence_gate, node_kind}
use talos_workflow_engine.Inputs.{gather_inputs}
use talos_workflow_engine.Handlers.Checks.{marked}

-- What the approval gate answers.
pub data Approval : Type 0 where
  approved pending unrecognized : Approval
  denied : (reason : String) → Approval
  failed : (error : String) → Approval

-- Floats are bit patterns: reading one from a value and back, `>=`, and the form `{:.3}`.
pub record Floats : Type 0 where
  pub as_f64 : Value → Option ℕ
  pub to_value : ℕ → Value
  pub at_least : ℕ → ℕ → Bool
  pub three_digits : ℕ → String

-- `Ok`, which the scheduler goes on with, or `Err`, which it waits on.
pub data Evaluated : Type 0 where
  settled waiting : Value → Evaluated

pub data ConfidenceGateOutcome : Type 0 where
  proceed : Value → ConfidenceGateOutcome
  halt : String → ConfidenceGateOutcome
  pause : Value → ConfidenceGateOutcome

unfoldable pub object_or_empty : Value → Value
object_or_empty (object m) = object m
object_or_empty v = object empty

abbrev pub error_envelope : String → Map → Value
error_envelope message rest =
    object (entry "__error" (bool true) (entry "error_message" (string message) rest))

-- An envelope of an error halts the workflow.
unfoldable pub outcome_of : Evaluated → ConfidenceGateOutcome
unfolding flag get as_str
outcome_of (waiting v) = pause v
outcome_of (settled v) =
    if flag v "__error"
    then halt (unwrap_or (get v "error_message" >>= as_str) "Confidence gate rejected input")
    else proceed v

module _ (e : Engine) (floats : Floats) where
  unfoldable pub confidence_of : Value → String → ℕ
  unfolding get
  confidence_of inputs path = unwrap_or (get inputs path >>= floats.as_f64) 0

  unfoldable pub comparison : ℕ → ℕ → String
  comparison confidence threshold =
      format (floats.three_digits confidence ∷ " < threshold " ∷ floats.three_digits threshold ∷ [])

  unfoldable pub on_approval : Value → ℕ → ℕ → Option Approval → Evaluated
  unfolding object_or_empty marked comparison
  on_approval inputs confidence threshold none =
      settled (error_envelope "ConfidenceGate pause requires an approval gate" empty)
  on_approval inputs confidence threshold (some approved) = settled (
      marked (object_or_empty inputs) (
        ("__confidence_gate_passed__", bool true)
        ∷ ("__confidence_used__", floats.to_value confidence)
        ∷ ("__confidence_gate_approved__", bool true)
        ∷ []))
  on_approval inputs confidence threshold (some pending) = waiting (
      object (
        entry "__waiting__" (bool true) (
          entry "__confidence_used__" (floats.to_value confidence) (
            entry "message"
              (string (
                format (
                  "Confidence gate paused: "
                  ∷ comparison confidence threshold
                  ∷ ". Awaiting approval."
                  ∷ [])))
              empty))))
  on_approval inputs confidence threshold (some (denied reason)) =
      settled (error_envelope reason empty)
  on_approval inputs confidence threshold (some unrecognized) =
      settled (error_envelope "ConfidenceGate approval gate returned an unrecognized status" empty)
  on_approval inputs confidence threshold (some (failed error)) =
      settled (error_envelope (format ("ConfidenceGate approval error: " ∷ error ∷ [])) empty)

  -- `approval` is what the approval gate answers if it is asked, or `none` if there is no gate.
  unfoldable pub evaluate_confidence_gate :
      Value → Option Approval → ℕ → String → String → Evaluated
  unfolding confidence_of on_approval object_or_empty marked comparison
  evaluate_confidence_gate inputs approval threshold path on_low_confidence =
      let confidence = confidence_of inputs path in
      let used = floats.to_value confidence in
      if floats.at_least confidence threshold
      then settled (
          marked (object_or_empty inputs)
            (("__confidence_gate_passed__", bool true) ∷ ("__confidence_used__", used) ∷ []))
      else if str_eq on_low_confidence "passthrough"
      then settled (
          marked (object_or_empty inputs)
            (("__confidence_gate_failed__", bool true) ∷ ("__confidence_used__", used) ∷ []))
      else if str_eq on_low_confidence "error"
      then settled (
          error_envelope (format ("Confidence gate: " ∷ comparison confidence threshold ∷ []))
            (entry "__confidence_used__" used empty))
      else on_approval inputs confidence threshold approval

  unfoldable pub gate_of : Option SystemNodeKind → Option (ℕ × (String × String))
  gate_of (some (confidence_gate threshold path on_low_confidence)) =
      some (threshold, (path, on_low_confidence))
  gate_of _ = none

  unfoldable pub try_dispatch_confidence_gate :
      ℕ → ℕ → HashMap Value → Option Approval → Option ConfidenceGateOutcome
  unfolding gate_of node_kind gather_inputs evaluate_confidence_gate outcome_of
  try_dispatch_confidence_gate node_idx node_id results approval =
      elim (gate_of (node_kind e node_id)) [
        | none ↦ none
        | some (threshold, (path, on_low_confidence)) ↦ some (
            outcome_of (
              evaluate_confidence_gate (gather_inputs e results node_idx) approval threshold path
                on_low_confidence))
      ]
