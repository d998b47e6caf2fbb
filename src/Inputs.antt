-- ===== src/Inputs.antt =====
-- How a node's input is made from its parents' outputs: `unwrap_output`, `gather_inputs`,
-- `extract_trigger_input` and the collectors of talos-workflow-engine/src/engine.rs.
pub mod Labels
pub mod Collect
use text.Mathlib.Text.{◌==◌ as str_eq, starts_with}
use talos_workflow_engine.Base.{
  ℕ, String, Bool, true, false, not, ◌&&◌, ◌||◌, Option, none, some, List, [], ◌∷◌, ◌==◌, length,
  filter_map, map, all, if◌then◌else◌,
}
use talos_workflow_engine.Base.HashMap
use talos_workflow_engine.Base.HashMap.{HashMap}
use talos_workflow_engine.Base.Json.{
  Value, Map, Number, null, bool, number, array, object, empty, entry, items, get_key, insert_key,
  retain_keys, size, is_empty, keys, is_null,
}
use talos_workflow_engine.Engine.{Engine, eval_bool, JoinMode, any}

contains_key : Map → String → Bool
unfolding get_key
contains_key m k = elim (get_key m k) [ none ↦ false | some v ↦ true ]

-- Case 1: the real payload stands under `input`, and every key of it is repeated outside.
wrapped_input : Map → Option Value
unfolding contains_key keys is_empty
wrapped_input m = elim (get_key m "input") [
  | none ↦ none
  | some inner ↦ elim inner [
    | object inner_obj ↦
        if all (contains_key m) (keys inner_obj) && not (is_empty inner_obj)
        then some (object inner_obj)
        else none
    | _ ↦ none
  ]
]

-- Case 2: `input` is null, and the payload stands under `config`.
wrapped_config : Map → Option Value
unfolding get_key is_null is_empty size
wrapped_config m = elim (get_key m "input") [
  | none ↦ none
  | some inner ↦ if not (is_null inner) then none else elim (get_key m "config") [
    | none ↦ none
    | some config ↦
        let rest : Option Value = if size m == 2 then some null else none in
        elim config [ object c ↦ if is_empty c then rest else some (object c) | _ ↦ rest ]
  ]
]

unfoldable pub unwrap_output : Value → Value
unfolding wrapped_input wrapped_config
unwrap_output (object m) = elim (wrapped_input m) [
  | some v ↦ v
  | none ↦ elim (wrapped_config m) [ some v ↦ v | none ↦ object m ]
]
unwrap_output v = v

unfoldable pub keeps_key : String → Bool
keeps_key k = not (starts_with k "__") || str_eq k "__error" || str_eq k "__continued"

unfoldable pub strip_metadata : Value → Value
unfolding keeps_key retain_keys
strip_metadata (object m) = object (retain_keys keeps_key m)
strip_metadata v = v

module _ (e : Engine) (results : HashMap Value) where
  -- A parent that has a result, by its UUID.
  unfoldable pub parent_result : ℕ → Option (ℕ × Value)
  parent_result p = elim (HashMap.get results (e.graph.weight p)) [
    | none ↦ none
    | some out ↦ some (e.graph.weight p, out)
  ]

  unfoldable pub label_of : ℕ → String
  label_of id = elim (HashMap.get e.node_labels id) [ none ↦ e.externals.uuid_text id | some l ↦ l ]

  labelled : List (ℕ × Value) → Map → Map
  unfolding label_of
  labelled [] m = m
  labelled ((pid, out) ∷ ps) m = labelled ps (insert_key m (label_of pid) (unwrap_output out))

  inputs_of : List (ℕ × Value) → Value
  unfolding labelled
  inputs_of [] = object empty
  inputs_of ((pid, out) ∷ []) = unwrap_output out
  inputs_of (p ∷ q ∷ ps) = object (labelled (p ∷ q ∷ ps) empty)

  unfoldable pub gather_inputs : ℕ → Value
  unfolding inputs_of parent_result
  gather_inputs node_idx = inputs_of (filter_map parent_result (e.graph.incoming node_idx))

  unfoldable pub parent_output : ℕ → Option Value
  parent_output p = HashMap.get results (e.graph.weight p)

  joined : JoinMode → List Value → Value
  joined any [] = null
  joined any (v ∷ vs) = v
  joined mode vs = array (items vs)

  -- `aggregate_fan_in`.
  unfoldable pub aggregate_fan_in : ℕ → JoinMode → Option String → Value
  unfolding joined parent_output
  aggregate_fan_in node_idx mode expr =
      let aggregated = joined mode (filter_map parent_output (e.graph.incoming node_idx)) in
      elim expr [
        | none ↦ aggregated
        | some ex ↦
            if eval_bool e ex aggregated
            then aggregated
            else object (entry "__aggregation_failed" (bool true) empty)
      ]

  -- `collect_parent_outputs_for_node`.
  unfoldable pub collect_parent_outputs : ℕ → Value
  unfolding strip_metadata parent_output
  collect_parent_outputs node_idx =
      let outputs = map strip_metadata (filter_map parent_output (e.graph.incoming node_idx)) in
      object (
        entry "items" (array (items outputs))
          (entry "count" (number (Number.pos_int (length outputs))) empty))

  -- `extract_trigger_input`, at the UUID that carries the label `__trigger__`, if one does.
  unfoldable pub extract_trigger_input : Option ℕ → Option Value
  unfolding get_key
  extract_trigger_input none = none
  extract_trigger_input (some trigger) = elim (HashMap.get results trigger) [
    | none ↦ none
    | some blob ↦ elim blob [
      | object m ↦ elim (get_key m "__trigger_input__") [
        | none ↦ some (object m)
        | some inner ↦ some inner
      ]
      | other ↦ some other
    ]
  ]
