-- ===== src/Samples/Gates.antt =====
-- A confidence gate that reads the confidence of its input as a number.
use talos_workflow_engine.Base.{false, ◌≡◌, refl, true, none, some, [], ◌∷◌, leb}
use talos_workflow_engine.Base.HashMap
use talos_workflow_engine.Base.HashMap.{HashMap}
use talos_workflow_engine.Base.Json.{
  Value, Number, number, bool, object, entry, empty, get_key, as_u64,
}
use talos_workflow_engine.Engine.{Engine, confidence_gate}
use talos_workflow_engine.Inputs.{unwrap_output}
use talos_workflow_engine.Handlers.Gate.{Floats, halt, try_dispatch_confidence_gate}
use talos_workflow_engine.Base.{String}
use talos_workflow_engine.Base.Result.{Result, ok}
use talos_workflow_engine.Base.Json.{get}
use talos_workflow_engine.Engine.{inline_judge}
use talos_workflow_engine.Handlers.Judge.{from_collapsed}
use talos_workflow_engine.Samples.{engine_of, triangle}

abbrev whole_numbers : Floats
whole_numbers = record {
  as_f64 = as_u64;
  to_value = λ x. number (Number.pos_int x);
  at_least = λ x y. leb y x;
  three_digits = λ x. "x";
}

abbrev gated : Engine
gated = record (engine_of triangle) {
  node_meta =
      (
        101,
        record {
          module_id = none;
          retry_policy = none;
          kind = some (confidence_gate 7 "confidence" "error");
        },
      )
      ∷ [];
}

abbrev sure : Value
sure = object (entry "confidence" (number (Number.pos_int 9)) empty)

abbrev sure_error : Value
sure_error =
    object (entry "confidence" (number (Number.pos_int 9)) (entry "__error" (bool true) empty))

-- The confidence reaches the threshold, and an error mark of the input halts the workflow all the same.
halts :
    try_dispatch_confidence_gate gated whole_numbers 1 101 ((100, sure_error) ∷ []) none
    ≡ some (halt "Confidence gate rejected input")
unfolding try_dispatch_confidence_gate HashMap.get get_key unwrap_output as_u64
halts = refl

-- A verdict of the right score without the word that the output passed is a rejection, with three
-- fields missing.
verdict_needs_passed :
    ((from_collapsed whole_numbers
        (object (entry "score" (number (Number.pos_int 9)) empty))).passed
      ≡ false)
    × ((from_collapsed whole_numbers
          (object (entry "score" (number (Number.pos_int 9)) empty))).malformed_field_count
        ≡ 3)
unfolding from_collapsed get_key as_u64
verdict_needs_passed = (refl, refl)

abbrev judging : Engine
judging = record (engine_of triangle) {
  node_meta =
      (
        101,
        record {
          module_id = none;
          retry_policy = none;
          kind = some (inline_judge "verdict" (some 7) "error");
        },
      )
      ∷ [];
}

-- The verdict is the input itself.
abbrev echo : String → Value → Result Value
echo expression context = ok context
