-- ===== src/Inputs/Labels.antt =====
-- The input of a node with several parents: each parent's output under its label.
use text.Mathlib.Text.{◌==◌ as str_eq}
use text.Mathlib.TextEquality.{eq_iff}
use talos_workflow_engine.Base.{
  ℕ, ◌≤◌, ◌<◌, String, ◌≡◌, refl, sym, ap, ◌∙◌, ◌⊎◌, inl, inr, Bool, true, none, some, List, [],
  ◌∷◌, All, any, filter_map, filter_map-none, filter_map-some, length, count, arith, ◌==◌, ==_iff,
  Bool-cases, Option-cases,
}
use talos_workflow_engine.Base.HashMap
use talos_workflow_engine.Base.HashMap.{HashMap}
use talos_workflow_engine.Base.Json
use talos_workflow_engine.Base.Json.{
  Value, Map, object, empty, get_key, insert_key, get_key-insert_key,
}
use talos_workflow_engine.Engine.{Engine}
use talos_workflow_engine.Inputs.{
  parent_result, label_of, labelled, inputs_of, gather_inputs, unwrap_output,
}

module _ (e : Engine) (results : HashMap Value) (k : String) (v : Value) where
  -- Every parent with this label has this output.
  abbrev Agrees : List (ℕ × Value) → Type 0
  Agrees ps = All (λ p. label_of e results p.0 ≡ k → unwrap_output p.1 ≡ v) ps

  abbrev has_label : List (ℕ × Value) → Bool
  has_label ps = any (λ p. str_eq (label_of e results p.0) k) ps

  labelled-get :
      (ps : List (ℕ × Value)) (m : Map)
      → Agrees ps
      → (has_label ps ≡ true) ⊎ (get_key m k ≡ some v)
      → get_key (labelled e results ps m) k ≡ some v
  unfolding labelled
  labelled-get [] m agree (inl h) = cc
  labelled-get [] m agree (inr h) = h
  labelled-get ((pid, out) ∷ ps) m agree h =
      labelled-get ps (insert_key m (label_of e results pid) (unwrap_output out)) agree.1
        (elim (Bool-cases (str_eq (label_of e results pid) k)) [
          | inl same ↦
              let e' = agree.0 ((eq_iff (label_of e results pid) k).0 same) in
              inr (
                get_key-insert_key m (label_of e results pid) k (unwrap_output out)
                ∙ rw same (ap some e'))
          | inr other ↦ elim h [
            | inl further ↦ inl (ground (arith, further, other))
            | inr before ↦ inr (
                get_key-insert_key m (label_of e results pid) k (unwrap_output out)
                ∙ rw other before)
          ]
        ])

some-injective : {v w : Value} → some v ≡ some w → v ≡ w
some-injective h = cc

inputs_of-several :
    (e : Engine) (results : HashMap Value) (ps : List (ℕ × Value))
    → 2 ≤ length ps
    → inputs_of e results ps ≡ object (labelled e results ps empty)
unfolding inputs_of
inputs_of-several e results [] h = absurd (omega arith)
inputs_of-several e results (p ∷ []) h = absurd (omega arith)
inputs_of-several e results (p ∷ q ∷ ps) h = refl

module _ (e : Engine) (results : HashMap Value) (p : ℕ) (out : Value)
    (stored : HashMap.get results (e.graph.weight p) ≡ some out) where
  parent_result-none :
      (c : ℕ) → HashMap.get results (e.graph.weight c) ≡ none → parent_result e results c ≡ none
  unfolding parent_result
  parent_result-none c h = rw (h, parent_result) refl

  parent_result-some :
      (c : ℕ) (w : Value)
      → HashMap.get results (e.graph.weight c) ≡ some w
      → parent_result e results c ≡ some (e.graph.weight c, w)
  unfolding parent_result
  parent_result-some c w h = rw (h, parent_result) refl

  parents-Agrees :
      (cs : List ℕ)
      → ((q : ℕ)
          → 0 < count q cs
          → label_of e results (e.graph.weight q) ≡ label_of e results (e.graph.weight p)
          → e.graph.weight q ≡ e.graph.weight p)
      → Agrees e results
          (label_of e results (e.graph.weight p))
          (unwrap_output out)
          (filter_map (parent_result e results) cs)
  parents-Agrees [] apart = tt
  parents-Agrees (c ∷ cs) apart =
      let rest = parents-Agrees cs (λ q h. apart q (ground arith)) in
      elim (Option-cases (HashMap.get results (e.graph.weight c))) [
        | inl absent ↦
            rw (filter_map-none (parent_result e results) c cs (parent_result-none c absent)) rest
        | inr (w, there) ↦
            rw (filter_map-some (parent_result e results) c cs _ (parent_result-some c w there)) (
              (λ same.
                  let id = apart c (ground arith) same in
                  ap unwrap_output
                    (some-injective (sym there ∙ ap (HashMap.get results) id ∙ stored))),
              rest,
            )
      ]

  parents-has_label :
      (cs : List ℕ)
      → 0 < count p cs
      → has_label e results
          (label_of e results (e.graph.weight p))
          (unwrap_output out)
          (filter_map (parent_result e results) cs)
        ≡ true
  parents-has_label [] h = absurd (omega arith)
  parents-has_label (c ∷ cs) h = elim (Bool-cases (c == p)) [
    | inl same ↦
        let c_p : c ≡ p = (==_iff c p).0 same in
        let there : HashMap.get results (e.graph.weight c) ≡ some out =
          ap (λ i. HashMap.get results (e.graph.weight i)) c_p ∙ stored in
        let named : str_eq (label_of e results (e.graph.weight c))
              (label_of e results (e.graph.weight p))
            ≡ true =
          (eq_iff (label_of e results (e.graph.weight c)) (label_of e results (e.graph.weight p))).1
            (ap (λ i. label_of e results (e.graph.weight i)) c_p) in
        rw (filter_map-some (parent_result e results) c cs _ (parent_result-some c out there))
          (ground (arith, named))
    | inr other ↦
        let rest = parents-has_label cs (ground (arith, other)) in
        elim (Option-cases (HashMap.get results (e.graph.weight c))) [
          | inl absent ↦
              rw (filter_map-none (parent_result e results) c cs (parent_result-none c absent)) rest
          | inr (w, there) ↦
              rw (filter_map-some (parent_result e results) c cs _ (parent_result-some c w there))
                (ground (arith, rest))
        ]
  ]

  -- A node with results from two parents or more finds, under the label of each, the unwrapped output
  -- of that parent, provided that no other of its parents has the same label.
  pub gather_inputs-labelled :
      (node_idx : ℕ)
      → 0 < count p (e.graph.incoming node_idx)
      → 2 ≤ length (filter_map (parent_result e results) (e.graph.incoming node_idx))
      → ((q : ℕ)
          → 0 < count q (e.graph.incoming node_idx)
          → label_of e results (e.graph.weight q) ≡ label_of e results (e.graph.weight p)
          → e.graph.weight q ≡ e.graph.weight p)
      → Json.get (gather_inputs e results node_idx) (label_of e results (e.graph.weight p))
        ≡ some (unwrap_output out)
  unfolding gather_inputs Json.get
  gather_inputs-labelled node_idx parent several apart =
      let ps = filter_map (parent_result e results) (e.graph.incoming node_idx) in
      let label = label_of e results (e.graph.weight p) in
      rw (inputs_of-several e results ps several) (
        labelled-get e results label (unwrap_output out) ps empty
          (parents-Agrees (e.graph.incoming node_idx) apart)
          (inl (parents-has_label (e.graph.incoming node_idx) parent)))
