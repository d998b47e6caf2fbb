-- ===== src/Handlers/Gated.antt =====
-- When a confidence gate lets a workflow go on.
use text.Mathlib.Text.{◌==◌ as str_eq}
use talos_workflow_engine.Base.{
  ℕ, String, ◌≡◌, ◌≢◌, ◌⊎◌, Bool, true, false, Option, none, some, [], ◌∷◌,
}
use talos_workflow_engine.Base.Text.{format}
use talos_workflow_engine.Base.HashMap.{HashMap}
use talos_workflow_engine.Base.Json.{Value, bool, get, flag}
use talos_workflow_engine.Engine.{Engine}
use talos_workflow_engine.Inputs.{gather_inputs}
use talos_workflow_engine.Handlers.Gate.{
  Approval, approved, pending, unrecognized, denied, failed, Floats, ConfidenceGateOutcome, proceed,
  halt, pause, confidence_of,
}

-- The message of a refusal, which an approval and a pending request are not.
abbrev pub Refusal : Option Approval → String → Type 0
Refusal none message = message ≡ "ConfidenceGate pause requires an approval gate"
Refusal (some approved) message = ⊥
Refusal (some pending) message = ⊥
Refusal (some unrecognized) message =
    message ≡ "ConfidenceGate approval gate returned an unrecognized status"
Refusal (some (denied reason)) message = message ≡ reason
Refusal (some (failed error)) message =
    message ≡ format ("ConfidenceGate approval error: " ∷ error ∷ [])

module _ (e : Engine) (floats : Floats) (node_idx node_id threshold : ℕ)
    (path on_low_confidence k : String) (results : HashMap Value) (approval : Option Approval) where
  abbrev pub input : Value
  input = gather_inputs e results node_idx

  abbrev pub confidence : ℕ
  confidence = confidence_of e floats input path

  abbrev pub high : Bool
  high = floats.at_least confidence threshold

  -- The approval gate is asked: the confidence is low, and the mode is neither of the other two.
  abbrev pub Asks : Type 0
  Asks = (high ≡ false) × (on_low_confidence ≢ "passthrough") × (on_low_confidence ≢ "error")

  -- What lets the input through: a confidence that is high, the mode, or an approval that was asked for.
  abbrev pub Passes : Type 0
  Passes =
      (high ≡ true)
      ⊎ (((high ≡ false) × (on_low_confidence ≡ "passthrough"))
          ⊎ (Asks × (approval ≡ some approved)))

  -- The mark of the case, or both marks of an approval, in an output.
  abbrev pub Told : Value → Type 0
  Told v =
      ((high ≡ true) × (get v "__confidence_gate_passed__" ≡ some (bool true)))
      ⊎ (((high ≡ false)
            × (on_low_confidence ≡ "passthrough")
            × (get v "__confidence_gate_failed__" ≡ some (bool true)))
          ⊎ (Asks
              × (approval ≡ some approved)
              × (get v "__confidence_gate_passed__" ≡ some (bool true))
              × (get v "__confidence_gate_approved__" ≡ some (bool true))))

  -- What accounts for an outcome.
  abbrev pub Justified : ConfidenceGateOutcome → Type 0
  Justified (proceed v) =
      Told v
      × (flag input "__error" ≡ false)
      × (get v k ≡ get input k)
      × (get v "__confidence_used__" ≡ some (floats.to_value confidence))
  Justified (pause v) = Asks × (approval ≡ some pending) × (get v "__waiting__" ≡ some (bool true))
  Justified (halt message) =
      (Passes × (flag input "__error" ≡ true))
      ⊎ (((high ≡ false)
            × (on_low_confidence ≡ "error")
            × (message
                ≡ format (
                    "Confidence gate: "
                    ∷ format (
                        floats.three_digits confidence
                        ∷ " < threshold "
                        ∷ floats.three_digits threshold
                        ∷ [])
                    ∷ [])))
          ⊎ (Asks × Refusal approval message))

  abbrev used : String × Value
  used = ("__confidence_used__", floats.to_value confidence)
