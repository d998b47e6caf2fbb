-- ===== src/Document/RoundTrip.antt =====
-- What `parse_system_node_kind` reads of what `serialize_system_node_kind` wrote
-- (talos-workflow-engine/src/graph_parser.rs and graph_builder.rs).
use talos_workflow_engine.Base.{
  ℕ, ◌-◌, ◌≤◌, ◌<◌, ◌^◌, ◌≡◌, refl, ap, min, max, String, true, none, some, List, [], ◌∷◌, map,
  filter_map, arith,
}
use talos_workflow_engine.Base.Options.{OnSome}
use talos_workflow_engine.Base.Json.{Value, string, get, items, values, as_str}
use talos_workflow_engine.Engine.{
  SystemNodeKind, wait, while_loop, repeat_loop, error_handler, fan_in, sub_workflow, loop, collect,
  synthesize, verify, agent_loop, judge, inline_judge, ensemble, confidence_gate, dynamic_dispatch,
  capability_dispatch, react_loop, reflective_retry, llm_dispatch,
}
use talos_workflow_engine.Document.{Libraries, IsFaithful, as_u32}
use talos_workflow_engine.Document.Limits.{WithinLimits}
use talos_workflow_engine.Document.Kinds.{routes_of, parse_system_node_kind}
use talos_workflow_engine.Document.Writer.{routes_map, kind_text, kind_data}

module _ (lib : Libraries) where
  -- Floats that JSON can carry, and a confidence threshold from 0 to 1.
  abbrev pub HasJson : SystemNodeKind → Type 0
  HasJson (judge w r pass_threshold f t) = OnSome (λ x. lib.is_finite x ≡ true) pass_threshold
  HasJson (inline_judge v pass_threshold f) = OnSome (λ x. lib.is_finite x ≡ true) pass_threshold
  HasJson (confidence_gate threshold p l) =
      (lib.is_finite threshold ≡ true) × (lib.clamp_unit threshold ≡ threshold)
  HasJson _ = Unit

  -- The kinds that need the feature `llm-primitives`.
  abbrev pub IsEnabled : SystemNodeKind → Type 0
  IsEnabled (agent_loop w n h t) = lib.llm_primitives ≡ true
  IsEnabled (judge w r p f t) = lib.llm_primitives ≡ true
  IsEnabled (inline_judge v p f) = lib.llm_primitives ≡ true
  IsEnabled (ensemble w n c j t) = lib.llm_primitives ≡ true
  IsEnabled (confidence_gate t p l) = lib.llm_primitives ≡ true
  IsEnabled (react_loop w n h t) = lib.llm_primitives ≡ true
  IsEnabled (reflective_retry c r m t) = lib.llm_primitives ≡ true
  IsEnabled (llm_dispatch c r f t) = lib.llm_primitives ≡ true
  IsEnabled _ = Unit

filter_map-as_str : (cs : List String) → filter_map as_str (values (items (map string cs))) ≡ cs
unfolding as_str
filter_map-as_str [] = refl
filter_map-as_str (c ∷ cs) = ap (λ (l : List String). c ∷ l) (filter_map-as_str cs)

routes_of-routes_map :
    (lib : Libraries)
    → IsFaithful lib
    → (routes : List (String × ℕ))
    → routes_of lib.parse_uuid (routes_map lib.uuid_text routes) ≡ routes
unfolding routes_of routes_map
routes_of-routes_map lib f [] = refl
routes_of-routes_map lib f ((k, u) ∷ routes) =
    rw (f.parse_uuid-uuid_text u, routes_of-routes_map lib f routes) refl

clamp_small : (n m : ℕ) → n ≤ m → m < 2 ^ 32 → as_u32 (min n m) ≡ n
unfolding as_u32
clamp_small n m h k = omega arith

clamp_between : (n lo hi : ℕ) → lo ≤ n → n ≤ hi → hi < 2 ^ 32 → as_u32 (max (min n hi) lo) ≡ n
unfolding as_u32
clamp_between n lo hi h k l = omega arith

module _ (lib : Libraries) (faithful : IsFaithful lib) (node : Value) where
  -- A node that carries the data of a system node is parsed as this node under its `kind` text, where
  -- the numbers of the node are within the limits of the format, its floats are finite, and the
  -- feature that it needs is on.
  pub parse_system_node_kind-kind_data :
      (kind : SystemNodeKind)
      → WithinLimits kind
      → HasJson lib kind
      → IsEnabled lib kind
      → get node "data" ≡ some (kind_data lib kind)
      → parse_system_node_kind lib (kind_text kind) node ≡ some kind
  unfolding parse_system_node_kind kind_data kind_text
  parse_system_node_kind-kind_data (wait none) l j e carries = rw carries refl
  parse_system_node_kind-kind_data (wait (some m)) l j e carries = rw carries refl
  parse_system_node_kind-kind_data (while_loop condition n) l j e carries =
      rw carries (rw (clamp_small n 100 l (omega arith)) refl)
  parse_system_node_kind-kind_data (repeat_loop n) l j e carries =
      rw carries (rw (clamp_small n (2 ^ 32 - 1) (omega arith) (omega arith)) refl)
  parse_system_node_kind-kind_data (error_handler none) l j e carries = rw carries refl
  parse_system_node_kind-kind_data (error_handler (some p)) l j e carries = rw carries refl
  parse_system_node_kind-kind_data (fan_in mode none) l j e carries =
      rw carries (rw (faithful.join_from_value-join_to_value mode) refl)
  parse_system_node_kind-kind_data (fan_in mode (some x)) l j e carries =
      rw carries (rw (faithful.join_from_value-join_to_value mode) refl)
  parse_system_node_kind-kind_data (sub_workflow w t) l j e carries =
      rw carries (rw (faithful.parse_uuid-uuid_text w) refl)
  parse_system_node_kind-kind_data (loop n condition) l j e carries =
      rw carries (rw (clamp_small n 100 l (omega arith)) refl)
  parse_system_node_kind-kind_data collect l j e carries = refl
  parse_system_node_kind-kind_data (synthesize none) l j e carries = rw carries refl
  parse_system_node_kind-kind_data (synthesize (some x)) l j e carries = rw carries refl
  parse_system_node_kind-kind_data (verify c none f) l j e carries = rw carries refl
  parse_system_node_kind-kind_data (verify c (some x) f) l j e carries = rw carries refl
  parse_system_node_kind-kind_data (agent_loop w n h t) l j e carries =
      rw (carries, e) (rw (faithful.parse_uuid-uuid_text w, clamp_small n 50 l (omega arith)) refl)
  parse_system_node_kind-kind_data (judge w r none f t) l j e carries =
      rw (carries, e) (rw (faithful.parse_uuid-uuid_text w, faithful.as_f64-null) refl)
  parse_system_node_kind-kind_data (judge w r (some p) f t) l j e carries =
      rw (carries, e) (rw (faithful.parse_uuid-uuid_text w, faithful.as_f64-f64_to_value p j) refl)
  parse_system_node_kind-kind_data (inline_judge v none f) l j e carries =
      rw (carries, e) (rw (l, faithful.as_f64-null) refl)
  parse_system_node_kind-kind_data (inline_judge v (some p) f) l j e carries =
      rw (carries, e) (rw (l, faithful.as_f64-f64_to_value p j) refl)
  parse_system_node_kind-kind_data (ensemble w n c none t) l j e carries =
      rw (carries, e)
        (rw (faithful.parse_uuid-uuid_text w, clamp_between n 2 10 l.0 l.1 (omega arith)) refl)
  parse_system_node_kind-kind_data (ensemble w n c (some u) t) l j e carries =
      rw (carries, e)
        (rw
          (
            faithful.parse_uuid-uuid_text w,
            faithful.parse_uuid-uuid_text u,
            clamp_between n 2 10 l.0 l.1 (omega arith),
          )
          refl)
  parse_system_node_kind-kind_data (confidence_gate x p c) l j e carries =
      rw (carries, e) (rw (faithful.as_f64-f64_to_value x j.0, j.1) refl)
  parse_system_node_kind-kind_data (dynamic_dispatch x t) l j e carries = rw carries refl
  parse_system_node_kind-kind_data (capability_dispatch [] f t) l j e carries = absurd (l refl)
  parse_system_node_kind-kind_data (capability_dispatch (c ∷ cs) none t) l j e carries =
      rw carries (rw (filter_map-as_str cs) refl)
  parse_system_node_kind-kind_data (capability_dispatch (c ∷ cs) (some u) t) l j e carries =
      rw carries (rw (filter_map-as_str cs, faithful.parse_uuid-uuid_text u) refl)
  parse_system_node_kind-kind_data (react_loop w n h t) l j e carries =
      rw (carries, e) (rw (faithful.parse_uuid-uuid_text w, clamp_small n 50 l (omega arith)) refl)
  parse_system_node_kind-kind_data (reflective_retry c r n t) l j e carries =
      rw (carries, e)
        (rw
          (
            faithful.parse_uuid-uuid_text c,
            faithful.parse_uuid-uuid_text r,
            clamp_between n 1 5 l.0 l.1 (omega arith),
          )
          refl)
  parse_system_node_kind-kind_data (llm_dispatch c routes none t) l j e carries =
      rw (carries, e)
        (rw (faithful.parse_uuid-uuid_text c, routes_of-routes_map lib faithful routes) refl)
  parse_system_node_kind-kind_data (llm_dispatch c routes (some u) t) l j e carries =
      rw (carries, e)
        (rw
          (
            faithful.parse_uuid-uuid_text c,
            faithful.parse_uuid-uuid_text u,
            routes_of-routes_map lib faithful routes,
          )
          refl)
