-- ===== src/Document/Limits.antt =====
-- Which kinds of system nodes `parse_system_node_kind` of talos-workflow-engine/src/graph_parser.rs can
-- yield.
use text.Mathlib.Text.{◌==◌ as str_eq}
use talos_workflow_engine.Base.{
  ℕ, ◌≤◌, ◌<◌, ◌^◌, ◌≡◌, ◌≢◌, min, max, String, false, Option, some, List, [], ◌∷◌, filter_map,
  arith, Bool-cases, inl, inr,
}
use talos_workflow_engine.Base.Options.{OnSome, OnSome-if, OnSome-bind, OnSome-some, unwrap_or}
use talos_workflow_engine.Base.Json.{Value, null, get, as_str, as_array}
use talos_workflow_engine.Engine.{
  SystemNodeKind, while_loop, repeat_loop, loop, agent_loop, inline_judge, ensemble,
  capability_dispatch, react_loop, reflective_retry,
}
use talos_workflow_engine.Document.{Libraries, as_u32, str_at, u64_at}
use talos_workflow_engine.Document.Kinds.{
  parse_wait, parse_loop, parse_while_loop, parse_repeat_loop, parse_error_handler,
  parse_synthesize, parse_verify, parse_dispatch, with_capabilities, uuid_at, parse_sub_workflow,
  parse_fan_in, parse_capability_dispatch, parse_agent_loop, parse_react_loop, parse_judge,
  parse_inline_judge, parse_ensemble, parse_confidence_gate, parse_reflective_retry,
  parse_llm_dispatch, parse_llm_system_node_kind, parse_system_node_kind,
}
use talos_workflow_engine.Document.Writer.{kind_text}

-- A kind whose numbers are within the limits of the format, as every parsed kind has them.
abbrev pub WithinLimits : SystemNodeKind → Type 0
WithinLimits (while_loop condition max_iterations) = max_iterations ≤ 100
WithinLimits (repeat_loop count) = count < 2 ^ 32
WithinLimits (loop max_iterations condition) = max_iterations ≤ 100
WithinLimits (agent_loop w max_iterations h t) = max_iterations ≤ 50
WithinLimits (react_loop w max_iterations h t) = max_iterations ≤ 50
WithinLimits (inline_judge verdict_expr p f) = str_eq verdict_expr "" ≡ false
WithinLimits (ensemble w count c j t) = (2 ≤ count) × (count ≤ 10)
WithinLimits (reflective_retry c r max_retries t) = (1 ≤ max_retries) × (max_retries ≤ 5)
WithinLimits (capability_dispatch capabilities f t) = capabilities ≢ []
WithinLimits _ = Unit

clamp-le : (n m : ℕ) → m < 2 ^ 32 → as_u32 (min n m) ≤ m
unfolding as_u32
clamp-le n m h = omega arith

clamp_bounds :
    (n lo hi : ℕ)
    → lo ≤ hi
    → hi < 2 ^ 32
    → (lo ≤ as_u32 (max (min n hi) lo)) × (as_u32 (max (min n hi) lo) ≤ hi)
unfolding as_u32
clamp_bounds n lo hi h k = omega arith

module _ (k : String) where
  -- The kind is within the limits, and `k` is its text.
  abbrev pub Named : SystemNodeKind → Type 0
  Named kind = WithinLimits kind × (k ≡ kind_text kind)

  Named-with_capabilities :
      (cs : List String) (f : Option ℕ) (t : ℕ)
      → k ≡ "capability_dispatch"
      → OnSome Named (with_capabilities cs (capability_dispatch cs f t))
  unfolding with_capabilities kind_text
  Named-with_capabilities [] f t e = tt
  Named-with_capabilities (c ∷ cs) f t e = (λ h. cc h, e)

  module _ (node : Value) where
    Named-loop : k ≡ "loop" → OnSome Named (parse_loop node)
    unfolding parse_loop kind_text
    Named-loop e = OnSome-bind Named (get node "data") _ λ d.
        OnSome-bind Named (str_at d "condition") _
          λ condition. (clamp-le (u64_at d "max_iterations" 10) 100 (omega arith), e)

    Named-while_loop : k ≡ "while_loop" → OnSome Named (parse_while_loop node)
    unfolding parse_while_loop kind_text
    Named-while_loop e = OnSome-bind Named (get node "data") _ λ d.
        OnSome-bind Named (str_at d "condition") _
          λ condition. (clamp-le (u64_at d "max_iterations" 10) 100 (omega arith), e)

    Named-verify : k ≡ "verify" → OnSome Named (parse_verify node)
    unfolding parse_verify kind_text
    Named-verify e =
        OnSome-bind Named (get node "data") _
          λ d. OnSome-bind Named (str_at d "condition") _ λ condition. (tt, e)

    Named-dispatch : k ≡ "dispatch" → OnSome Named (parse_dispatch node)
    unfolding parse_dispatch kind_text
    Named-dispatch e =
        OnSome-bind Named (get node "data") _
          λ d. OnSome-bind Named (str_at d "dispatch_expression") _ λ x. (tt, e)

    Named-repeat_loop : k ≡ "repeat_loop" → OnSome Named (parse_repeat_loop node)
    unfolding parse_repeat_loop kind_text
    Named-repeat_loop e = (omega arith, e)

  module _ (lib : Libraries) (node : Value) where
    Named-sub_workflow : k ≡ "sub_workflow" → OnSome Named (parse_sub_workflow lib node)
    unfolding parse_sub_workflow kind_text
    Named-sub_workflow e =
        OnSome-bind Named (get node "data") _
          λ d. OnSome-bind Named (uuid_at lib d "sub_workflow_id") _ λ w. (tt, e)

    Named-capability_dispatch :
        k ≡ "capability_dispatch" → OnSome Named (parse_capability_dispatch lib node)
    unfolding parse_capability_dispatch
    Named-capability_dispatch e = OnSome-bind Named (get node "data") _ λ d.
        OnSome-bind Named (get d "required_capabilities") _ λ field.
          OnSome-bind Named (as_array field) _ λ listed.
            Named-with_capabilities (filter_map as_str listed)
              (uuid_at lib d "fallback_workflow_id") (u64_at d "timeout_secs" 30) e

    Named-agent_loop : k ≡ "agent_loop" → OnSome Named (parse_agent_loop lib node)
    unfolding parse_agent_loop kind_text
    Named-agent_loop e = OnSome-bind Named (get node "data") _ λ d.
        OnSome-bind Named (uuid_at lib d "body_workflow_id") _
          λ w. (clamp-le (u64_at d "max_iterations" 10) 50 (omega arith), e)

    Named-react_loop : k ≡ "react_loop" → OnSome Named (parse_react_loop lib node)
    unfolding parse_react_loop kind_text
    Named-react_loop e = OnSome-bind Named (get node "data") _ λ d.
        OnSome-bind Named (uuid_at lib d "body_workflow_id") _
          λ w. (clamp-le (u64_at d "max_iterations" 10) 50 (omega arith), e)

    Named-inline_judge : k ≡ "inline_judge" → OnSome Named (parse_inline_judge lib node)
    unfolding parse_inline_judge kind_text
    Named-inline_judge e =
        let verdict_expr =
          unwrap_or (str_at (unwrap_or (get node "data") null) "verdict_expr") "" in
        elim (Bool-cases (str_eq verdict_expr "")) [
          | inl none' ↦ rw none' tt
          | inr some' ↦ rw some' (some', e)
        ]

    Named-ensemble : k ≡ "ensemble" → OnSome Named (parse_ensemble lib node)
    unfolding parse_ensemble kind_text
    Named-ensemble e = (
      clamp_bounds (u64_at (unwrap_or (get node "data") null) "count" 3) 2 10 (omega arith)
          (omega arith),
      e,
    )

    Named-reflective_retry : k ≡ "reflective_retry" → OnSome Named (parse_reflective_retry lib node)
    unfolding parse_reflective_retry kind_text
    Named-reflective_retry e = (
      clamp_bounds (u64_at (unwrap_or (get node "data") null) "max_retries" 2) 1 5 (omega arith)
          (omega arith),
      e,
    )

    Named-judge : k ≡ "judge" → OnSome Named (parse_judge lib node)
    unfolding parse_judge kind_text
    Named-judge e = (tt, e)

    Named-confidence_gate : k ≡ "confidence_gate" → OnSome Named (parse_confidence_gate lib node)
    unfolding parse_confidence_gate kind_text
    Named-confidence_gate e = (tt, e)

    Named-llm_dispatch : k ≡ "llm_dispatch" → OnSome Named (parse_llm_dispatch lib node)
    unfolding parse_llm_dispatch kind_text
    Named-llm_dispatch e = (tt, e)

    Named-parse_llm : OnSome Named (parse_llm_system_node_kind lib k node)
    unfolding parse_llm_system_node_kind
    Named-parse_llm = elim (Bool-cases lib.llm_primitives) [
      | inr off ↦ rw off tt
      | inl on ↦ rw on (
          OnSome-if Named k "agent_loop" _ _ Named-agent_loop (
            OnSome-if Named k "judge" _ _ Named-judge (
              OnSome-if Named k "inline_judge" _ _ Named-inline_judge (
                OnSome-if Named k "ensemble" _ _ Named-ensemble (
                  OnSome-if Named k "confidence_gate" _ _ Named-confidence_gate (
                    OnSome-if Named k "reflective_retry" _ _ Named-reflective_retry (
                      OnSome-if Named k "llm_dispatch" _ _ Named-llm_dispatch
                        (OnSome-if Named k "react_loop" _ _ Named-react_loop tt))))))))
    ]

    -- Whatever a document holds, a node that is parsed is of the kind that the text names, and its
    -- numbers are within the limits: at most 100 rounds of a loop and 50 of an agent's, 2 to 10
    -- members of an ensemble, 1 to 5 reflective retries, one capability at least to dispatch by, and
    -- an expression that is not empty to judge by.
    pub parse_system_node_kind-WithinLimits :
        (kind : SystemNodeKind)
        → parse_system_node_kind lib k node ≡ some kind
        → WithinLimits kind × (k ≡ kind_text kind)
    unfolding parse_system_node_kind kind_text parse_wait parse_fan_in parse_error_handler
        parse_synthesize
    parse_system_node_kind-WithinLimits kind =
        OnSome-some Named (parse_system_node_kind lib k node) (
          OnSome-if Named k "wait" _ _ (λ e. (tt, e))
            (OnSome-if Named k "sub_workflow" _ _ Named-sub_workflow (
              OnSome-if Named k "loop" _ _ (Named-loop node) (
                OnSome-if Named k "while_loop" _ _ (Named-while_loop node) (
                  OnSome-if Named k "repeat_loop" _ _ (Named-repeat_loop node) (
                    OnSome-if Named k "fan_in" _ _ (λ e. (tt, e))
                      (OnSome-if Named k "error_handler" _ _ (λ e. (tt, e))
                        (OnSome-if Named k "collect" _ _ (λ e. (tt, e))
                          (OnSome-if Named k "synthesize" _ _ (λ e. (tt, e))
                            (OnSome-if Named k "verify" _ _ (Named-verify node) (
                              OnSome-if Named k "dispatch" _ _ (Named-dispatch node) (
                                OnSome-if Named k "capability_dispatch" _ _
                                  Named-capability_dispatch Named-parse_llm))))))))))))
