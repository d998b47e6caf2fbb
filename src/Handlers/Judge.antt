-- ===== src/Handlers/Judge.antt =====
-- Verdicts: `JudgeVerdict::from_collapsed` and `dispatch_inline_judge` of
-- talos-workflow-engine/src/engine.rs, and the inline judge and fan-in handlers of
-- talos-workflow-engine/src/scheduler_handlers.rs.
use text.Mathlib.Text.{◌==◌ as str_eq}
use talos_workflow_engine.Base.{
  ℕ, ◌+◌, String, Bool, true, false, ◌&&◌, Option, none, some, [], ◌∷◌, if◌then◌else◌,
}
use talos_workflow_engine.Base.HashMap.{HashMap}
use talos_workflow_engine.Base.Options.{◌>>=◌, unwrap_or, is_some}
use talos_workflow_engine.Base.Result.{Result, ok, err}
use talos_workflow_engine.Base.Text.{format}
use talos_workflow_engine.Base.Json.{Value, string, bool, empty, entry, get, as_bool, as_str}
use talos_workflow_engine.Engine.{Engine, SystemNodeKind, inline_judge, fan_in, JoinMode, node_kind}
use talos_workflow_engine.Inputs.{gather_inputs, aggregate_fan_in}
use talos_workflow_engine.Handlers.Checks.{marked}
use talos_workflow_engine.Handlers.Gate.{Floats, object_or_empty, error_envelope}

pub record JudgeVerdict : Type 0 where
  pub score : ℕ
  pub passed : Bool
  pub reasoning : String
  pub feedback : String
  pub malformed_field_count : ℕ

-- A field that is absent or of another type is counted.
abbrev malformed {ℓ} : {A : Type ℓ} → Option A → ℕ
malformed o = if is_some o then 0 else 1

module _ (floats : Floats) where
  unfoldable pub from_collapsed : Value → JudgeVerdict
  unfolding get as_bool as_str
  from_collapsed verdict =
      let score = get verdict "score" >>= floats.as_f64 in
      let passed = get verdict "passed" >>= as_bool in
      let reasoning = get verdict "reasoning" >>= as_str in
      let feedback = get verdict "feedback" >>= as_str in
      record {
        score = unwrap_or score 0;
        passed = unwrap_or passed false;
        reasoning = unwrap_or reasoning "";
        feedback = unwrap_or feedback "";
        malformed_field_count =
            malformed score + malformed passed + malformed reasoning + malformed feedback;
      }

  unfoldable pub passes : Option ℕ → JudgeVerdict → Bool
  passes none v = v.passed
  passes (some threshold) v = v.passed && floats.at_least v.score threshold

  -- `two_digits` is the form `{:.2}` of a float.
  unfoldable pub judged : (ℕ → String) → Value → Option ℕ → String → JudgeVerdict → Value
  unfolding passes object_or_empty marked
  judged two_digits parent_inputs pass_threshold on_failure v =
      let score = floats.to_value v.score in
      if passes pass_threshold v
      then marked (object_or_empty parent_inputs) (
          ("__judge_score__", score)
          ∷ ("__judge_passed__", bool true)
          ∷ ("__judge_reasoning__", string v.reasoning)
          ∷ ("__judge_feedback__", string v.feedback)
          ∷ [])
      else if str_eq on_failure "passthrough"
      then marked (object_or_empty parent_inputs) (
          ("__judge_score__", score)
          ∷ ("__judge_passed__", bool false)
          ∷ ("__judge_rejected__", bool true)
          ∷ ("__judge_reasoning__", string v.reasoning)
          ∷ ("__judge_feedback__", string v.feedback)
          ∷ [])
      else error_envelope
          (format (
            "InlineJudge rejected output: "
            ∷ v.reasoning
            ∷ " (score: "
            ∷ two_digits v.score
            ∷ ")"
            ∷ []))
          (entry "__judge_score__" score (
            entry "__judge_passed__" (bool false)
              (entry "__judge_feedback__" (string v.feedback) empty)))

  unfoldable pub dispatch_inline_judge :
      (String → Value → Result Value) → (ℕ → String) → Value → String → Option ℕ → String → Value
  unfolding from_collapsed judged
  dispatch_inline_judge eval_json two_digits parent_inputs verdict_expr pass_threshold on_failure =
      elim (eval_json verdict_expr parent_inputs) [
        | err e ↦ error_envelope (format ("InlineJudge expression failed: " ∷ e ∷ [])) empty
        | ok raw_verdict ↦
            judged two_digits parent_inputs pass_threshold on_failure (from_collapsed raw_verdict)
      ]

module _ (e : Engine) where
  unfoldable pub judge_of : Option SystemNodeKind → Option (String × (Option ℕ × String))
  judge_of (some (inline_judge verdict_expr pass_threshold on_failure)) =
      some (verdict_expr, (pass_threshold, on_failure))
  judge_of _ = none

  unfoldable pub try_dispatch_inline_judge :
      Floats → (String → Value → Result Value) → (ℕ → String) → ℕ → ℕ → HashMap Value → Option Value
  unfolding judge_of node_kind gather_inputs dispatch_inline_judge
  try_dispatch_inline_judge floats eval_json two_digits node_idx node_id results =
      elim (judge_of (node_kind e node_id)) [
        | none ↦ none
        | some (verdict_expr, (pass_threshold, on_failure)) ↦ some (
            dispatch_inline_judge floats eval_json two_digits (gather_inputs e results node_idx)
              verdict_expr pass_threshold on_failure)
      ]

  unfoldable join_of : Option SystemNodeKind → Option (JoinMode × Option String)
  join_of (some (fan_in join_mode aggregation_expr)) = some (join_mode, aggregation_expr)
  join_of _ = none

  unfoldable pub try_dispatch_fan_in : ℕ → ℕ → HashMap Value → Option Value
  unfolding join_of node_kind aggregate_fan_in
  try_dispatch_fan_in node_idx node_id results = elim (join_of (node_kind e node_id)) [
    | none ↦ none
    | some (join_mode, aggregation_expr) ↦
        some (aggregate_fan_in e results node_idx join_mode aggregation_expr)
  ]
