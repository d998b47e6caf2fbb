-- ===== src/Samples/Parents.antt =====
-- The input of a node with two parents that have labels.
use talos_workflow_engine.Base.{
  ℕ, ◌+◌, ◌<◌, String, ◌≡◌, refl, sym, ap, ◌∙◌, some, List, [], ◌∷◌, arith, count, length, ◌==◌,
  ==_iff, Bool-cases, inl, inr, ◌≢◌,
}
use talos_workflow_engine.Base.HashMap
use talos_workflow_engine.Base.HashMap.{HashMap}
use talos_workflow_engine.Base.Json
use talos_workflow_engine.Base.Json.{
  Value, Number, null, bool, number, string, array, object, empty, entry, items,
}
use talos_workflow_engine.Engine.{Engine}
use talos_workflow_engine.Inputs.{
  label_of, parent_result, gather_inputs, collect_parent_outputs, unwrap_output,
}
use talos_workflow_engine.Inputs.Labels.{gather_inputs-labelled}
use talos_workflow_engine.Inputs.Collect.{Items, collect_parent_outputs-hides}
use talos_workflow_engine.Samples.{engine_of, triangle}

abbrev labelled : Engine
labelled = record (engine_of triangle) { node_labels = (100, "fetch") ∷ (101, "parse") ∷ [] }

abbrev outputs : HashMap Value
outputs = (100, string "page") ∷ (101, object (entry "__fuel" null empty)) ∷ []

apart :
    (q : ℕ)
    → 0 < count q (1 ∷ 0 ∷ [])
    → label_of labelled outputs (q + 100) ≡ label_of labelled outputs 100
    → q + 100 ≡ 100
unfolding label_of HashMap.get
apart q h same = elim (Bool-cases (q == 1)) [
  | inl one ↦
      let e : q ≡ 1 = (==_iff q 1).0 one in
      let k : ◌≡◌ {A = String} "parse" "fetch" =
        ap (λ i. label_of labelled outputs (i + 100)) (sym e) ∙ same in
      absurd (cc)
  | inr other ↦ ground arith
]

gather_inputs-labelled_example :
    Json.get (gather_inputs labelled outputs 2) "fetch" ≡ some (string "page")
unfolding label_of parent_result HashMap.get unwrap_output
gather_inputs-labelled_example =
    gather_inputs-labelled labelled outputs 0 (string "page") refl 2 (omega arith) (omega arith)
      apart

fuel-error : ◌≢◌ {A = String} "__fuel" "__error"
fuel-error h = cc h

fuel-continued : ◌≢◌ {A = String} "__fuel" "__continued"
fuel-continued h = cc h

collect_parent_outputs-hides_example :
    (shown : List Value) × (collect_parent_outputs labelled outputs 2
      ≡ object (
          entry "items"
            (array (items shown))
            (entry "count" (number (Number.pos_int (length shown))) empty)))
    × Items "__fuel" "title" (object (entry "__fuel" null empty) ∷ string "page" ∷ []) shown
unfolding HashMap.get
collect_parent_outputs-hides_example =
    collect_parent_outputs-hides labelled outputs 2 "__fuel" "title" refl fuel-error fuel-continued
      (inl refl)
