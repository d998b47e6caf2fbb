-- ===== src/Inputs/Collect.antt =====
-- What a collect node shows of its parents' outputs.
use text.Mathlib.Text.{starts_with}
use text.Mathlib.TextEquality.{eq_iff}
use talos_workflow_engine.Base.{
  ◌≢◌, ◌⊎◌, inl, inr, true, ℕ, String, ◌≡◌, refl, false, none, List, [], ◌∷◌, map, filter_map,
  length, arith,
}
use talos_workflow_engine.Base.HashMap
use talos_workflow_engine.Base.HashMap.{HashMap}
use talos_workflow_engine.Base.Json
use talos_workflow_engine.Base.Json.{
  Value, Map, Number, null, bool, number, string, array, object, empty, entry, items, get_key,
  retain_keys, get_key-retain_keys, IsHandedOn,
}
use talos_workflow_engine.Engine.{Engine}
use talos_workflow_engine.Inputs.{keeps_key, strip_metadata, parent_output, collect_parent_outputs}

hidden_key :
    (k : String)
    → starts_with k "__" ≡ true
    → k ≢ "__error"
    → k ≢ "__continued"
    → keeps_key k ≡ false
unfolding keeps_key
hidden_key k reserved not_error not_continued =
    ground (arith, reserved, eq_iff k "__error", eq_iff k "__continued", not_error, not_continued)

-- The keys of a node's own data, and the two marks of an error.
abbrev pub IsShown : String → Type 0
IsShown k = (starts_with k "__" ≡ false) ⊎ ((k ≡ "__error") ⊎ (k ≡ "__continued"))

shown_key : (k : String) → IsShown k → keeps_key k ≡ true
unfolding keeps_key
shown_key k (inl plain) = rw plain refl
shown_key k (inr (inl error)) = rw error refl
shown_key k (inr (inr continued)) = rw continued refl

-- One item for each output, in order: without `hidden`, with what the output has at `shown`, and the
-- output itself if it is no object.
abbrev pub Items : (hidden shown : String) → List Value → List Value → Type 0
Items hidden shown [] [] = Unit
Items hidden shown (v ∷ vs) (w ∷ ws) =
    IsHandedOn v w
    × (Json.get w hidden ≡ none)
    × (Json.get w shown ≡ Json.get v shown)
    × Items hidden shown vs ws
Items hidden shown _ _ = ⊥

module _ (hidden shown : String) (h : keeps_key hidden ≡ false) (k : keeps_key shown ≡ true) where
  strip_metadata-item :
      (v : Value)
      → IsHandedOn v (strip_metadata v)
        × (Json.get (strip_metadata v) hidden ≡ none)
        × (Json.get (strip_metadata v) shown ≡ Json.get v shown)
  unfolding strip_metadata Json.get
  strip_metadata-item (object m) = (
    (retain_keys keeps_key m, refl),
    ground (arith, get_key-retain_keys keeps_key m hidden, h),
    ground (arith, get_key-retain_keys keeps_key m shown, k),
  )
  strip_metadata-item null = (refl, refl, refl)
  strip_metadata-item (bool b) = (refl, refl, refl)
  strip_metadata-item (number n) = (refl, refl, refl)
  strip_metadata-item (string s) = (refl, refl, refl)
  strip_metadata-item (array xs) = (refl, refl, refl)

  strip_metadata-Items : (vs : List Value) → Items hidden shown vs (map strip_metadata vs)
  strip_metadata-Items [] = tt
  strip_metadata-Items (v ∷ vs) =
      let (handed_on, hides, shows) = strip_metadata-item v in
      (handed_on, hides, shows, strip_metadata-Items vs)

module _ (e : Engine) (results : HashMap Value) where
  -- A collect node has one item for each parent with a result, in the order of the parents, and their
  -- number. In no item does a key that begins with `__` have a value, other than the error marks
  -- `__error` and `__continued`; these two and every key that does not begin with `__` have the value
  -- that they have in the parent's output. An output that is no object is an item as it is.
  pub collect_parent_outputs-hides :
      (node_idx : ℕ) (hidden shown : String)
      → starts_with hidden "__" ≡ true
      → hidden ≢ "__error"
      → hidden ≢ "__continued"
      → IsShown shown
      → (outputs : List Value) × (collect_parent_outputs e results node_idx
          ≡ object (
              entry "items"
                (array (items outputs))
                (entry "count" (number (Number.pos_int (length outputs))) empty)))
        × Items hidden shown
            (filter_map (λ p. HashMap.get results (e.graph.weight p)) (e.graph.incoming node_idx))
            outputs
  unfolding collect_parent_outputs parent_output
  collect_parent_outputs-hides node_idx hidden shown reserved not_error not_continued shows =
      let given =
        filter_map (λ p. HashMap.get results (e.graph.weight p)) (e.graph.incoming node_idx) in
      (
        map strip_metadata given,
        refl,
        strip_metadata-Items hidden shown (hidden_key hidden reserved not_error not_continued)
            (shown_key shown shows) given,
      )
