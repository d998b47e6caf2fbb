-- ===== src/Handlers/Judged.antt =====
-- When an inline judge lets an output pass.
use text.Mathlib.Text.{◌==◌ as str_eq, starts_with}
use talos_workflow_engine.Base.{
  ℕ, String, ◌≡◌, ◌≢◌, ◌⊎◌, Bool, true, false, Option, none, some, List, [], ◌∷◌,
}
use talos_workflow_engine.Base.HashMap.{HashMap}
use talos_workflow_engine.Base.Options.{◌>>=◌, unwrap_or}
use talos_workflow_engine.Base.Result.{Result}
use talos_workflow_engine.Base.Text.{format}
use talos_workflow_engine.Base.Json.{Value, bool, string, get, as_str}
use talos_workflow_engine.Engine.{Engine}
use talos_workflow_engine.Inputs.{gather_inputs}
use talos_workflow_engine.Handlers.Gate.{Floats}

module _ (floats : Floats) (pass_threshold : Option ℕ) where
  -- A score that is missing is 0.
  abbrev pub score_of : Value → ℕ
  score_of verdict = unwrap_or (get verdict "score" >>= floats.as_f64) 0

  -- The score reaches the threshold, if there is one.
  abbrev pub reaches_threshold : Option ℕ → ℕ → Bool
  reaches_threshold none score = true
  reaches_threshold (some threshold) score = floats.at_least score threshold

  abbrev pub Accepts : Value → Type 0
  Accepts verdict =
      (get verdict "passed" ≡ some (bool true))
      × (reaches_threshold pass_threshold (score_of verdict) ≡ true)

  abbrev pub Rejects : Value → Type 0
  Rejects verdict =
      (get verdict "passed" ≢ some (bool true))
      ⊎ (reaches_threshold pass_threshold (score_of verdict) ≡ false)

module _ (e : Engine) (floats : Floats) (eval_json : String → Value → Result Value)
    (two_digits : ℕ → String) (node_idx node_id : ℕ) (verdict_expr on_failure k : String)
    (pass_threshold : Option ℕ) (results : HashMap Value) where
  abbrev pub input : Value
  input = gather_inputs e results node_idx

  -- The text of a verdict under a key, which is empty where there is none.
  abbrev pub text_of : Value → String → String
  text_of verdict key = unwrap_or (get verdict key >>= as_str) ""

  -- What every output says of the verdict.
  abbrev pub Says : Value → Bool → Value → Type 0
  Says verdict passed output =
      (get output "__judge_score__"
        ≡ some (floats.to_value (score_of floats pass_threshold verdict)))
      × (get output "__judge_passed__" ≡ some (bool passed))
      × (get output "__judge_feedback__" ≡ some (string (text_of verdict "feedback")))

  abbrev pub Rejected : Value → Value → Type 0
  Rejected verdict output =
      ((on_failure ≡ "passthrough")
        × (get output k ≡ get input k)
        × (get output "__judge_rejected__" ≡ some (bool true)))
      ⊎ ((on_failure ≢ "passthrough")
          × (get output "__error" ≡ some (bool true))
          × (get output "error_message"
              ≡ some (
                  string (
                    format (
                      "InlineJudge rejected output: "
                      ∷ text_of verdict "reasoning"
                      ∷ " (score: "
                      ∷ two_digits (score_of floats pass_threshold verdict)
                      ∷ ")"
                      ∷ [])))))

  abbrev pub Judges : Value → Value → Type 0
  Judges verdict output =
      (Accepts floats pass_threshold verdict
        × Says verdict true output
        × (get output k ≡ get input k))
      ⊎ (Rejects floats pass_threshold verdict
          × Says verdict false output
          × Rejected verdict output)

  module _ (plain : starts_with k "__" ≡ false) (verdict : Value) where
    abbrev texts : List (String × Value)
    texts =
        ("__judge_reasoning__", string (text_of verdict "reasoning"))
        ∷ ("__judge_feedback__", string (text_of verdict "feedback"))
        ∷ []

    abbrev passed_marks : List (String × Value)
    passed_marks =
        ("__judge_score__", floats.to_value (score_of floats pass_threshold verdict))
        ∷ ("__judge_passed__", bool true)
        ∷ texts

    abbrev rejected_marks : List (String × Value)
    rejected_marks =
        ("__judge_score__", floats.to_value (score_of floats pass_threshold verdict))
        ∷ ("__judge_passed__", bool false)
        ∷ ("__judge_rejected__", bool true)
        ∷ texts
