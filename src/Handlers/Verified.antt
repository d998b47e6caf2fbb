-- ===== src/Handlers/Verified.antt =====
-- What a verify node makes of its input.
use text.Mathlib.Text.{◌==◌ as str_eq}
use talos_workflow_engine.Base.{ℕ, String, ◌≡◌, true, false, Option, List, [], ◌∷◌, All}
use talos_workflow_engine.Base.Options.{unwrap_or}
use talos_workflow_engine.Base.Json.{Value, bool, string, get, IsHandedOn}
use talos_workflow_engine.Engine.{Engine, Reactor}
use talos_workflow_engine.Inputs.{gather_inputs}
use talos_workflow_engine.Handlers.Marks.{mark_of}

abbrev pub passed_marks : String → List (String × Value)
passed_marks label = ("__verified__", bool true) ∷ ("__check_label__", string label) ∷ []

abbrev pub failed_marks : String → String → List (String × Value)
failed_marks label condition =
    ("__verified__", bool false)
    ∷ ("__verification_failed__", bool true)
    ∷ ("__check_label__", string label)
    ∷ ("__verification_condition__", string condition)
    ∷ []

-- An object agrees with the input on `k` and bears the marks; any other input is the output.
pub record Marked (k : String) (input : Value) (marks : List (String × Value)) (output : Value)
    : Type 0 where
  pub handed_on : IsHandedOn input output
  pub kept : get output k ≡ get input k
  pub bears : All (λ mark. get output mark.0 ≡ mark_of input mark.1) marks

module _ (e : Engine) (node_idx node_id execution_id : ℕ) (condition on_failure : String)
    (label : Option String) (s : Reactor) where
  abbrev input : Value
  input = gather_inputs e s.results node_idx

  abbrev check_label : String
  check_label = unwrap_or label "output quality"
