-- ===== src/Document/Counts.antt =====
-- What `validate_value` of talos-workflow-engine/src/graph_json.rs says of a document, and of one that
-- `WorkflowGraphBuilder` (talos-workflow-engine/src/graph_builder.rs) built.
use talos_workflow_engine.Base.{
  ℕ, suc, ◌+◌, String, ◌≡◌, ◌≢◌, refl, ◌∙◌, ◌⊎◌, inl, inr, Option, none, some, List, [], ◌∷◌,
  length, arith, Bool-cases, Option-cases, List-cases,
}
use talos_workflow_engine.Base.Json.{Value, values-items, array, get_key, as_u64, items}
use talos_workflow_engine.Document.{Libraries, str_at}
use talos_workflow_engine.Document.Builder.{
  WorkflowGraphBuilder, assemble_root, build, Built, build_error,
}
use talos_workflow_engine.Document.Validate.{
  GraphSummary, ok, warn_missing, classify_kind, classify_plain, classify_node, classify_nodes,
  inspect_edge, inspect_edges, validate_edges, validate_nodes, validate_value, no_summary,
  insert_kind, missing, names_module, known_system_kind, known_llm_system_kind,
}

-- The nodes that a summary has classified.
abbrev pub classified : GraphSummary → ℕ
classified s = s.module_node_count + s.system_node_count + s.annotation_node_count

-- Between two summaries, `n` more nodes are classified, and only the kinds and the warnings differ
-- otherwise.
record Grows (n : ℕ) (s t : GraphSummary) : Type 0 where
  pub more : classified t ≡ classified s + n
  pub same_nodes : t.node_count ≡ s.node_count
  pub same_edges : t.edge_count ≡ s.edge_count
  pub same_timeout : t.execution_timeout_secs ≡ s.execution_timeout_secs

Grows-trans :
    {m n k : ℕ} (s t u : GraphSummary) → Grows m s t → Grows n t u → m + n ≡ k → Grows k s u
Grows-trans s t u g h e = record {
  more = omega (arith, g.more, h.more);
  same_nodes = h.same_nodes ∙ g.same_nodes;
  same_edges = h.same_edges ∙ g.same_edges;
  same_timeout = h.same_timeout ∙ g.same_timeout;
}

module _ (s : GraphSummary) (kinds : List String) (ws : List String) where
  Grows-none : Grows 0 s (record s { system_node_kinds = kinds; warnings = ws })
  Grows-none = record {
    more = omega arith;
    same_nodes = refl;
    same_edges = refl;
    same_timeout = refl;
  }

  Grows-module : Grows 1 s (record s {
    module_node_count = s.module_node_count + 1;
    system_node_kinds = kinds;
    warnings = ws;
  })
  Grows-module = record {
    more = omega arith;
    same_nodes = refl;
    same_edges = refl;
    same_timeout = refl;
  }

  Grows-system : Grows 1 s (record s {
    system_node_count = s.system_node_count + 1;
    system_node_kinds = kinds;
    warnings = ws;
  })
  Grows-system = record {
    more = omega arith;
    same_nodes = refl;
    same_edges = refl;
    same_timeout = refl;
  }

  Grows-annotation : Grows 1 s (record s {
    annotation_node_count = s.annotation_node_count + 1;
    system_node_kinds = kinds;
    warnings = ws;
  })
  Grows-annotation = record {
    more = omega arith;
    same_nodes = refl;
    same_edges = refl;
    same_timeout = refl;
  }

module _ (lib : Libraries) where
  warn_missing-Grows :
      (what : String) (idx : ℕ) (v : Value) (k : String) (s : GraphSummary)
      → Grows 0 s (warn_missing lib what idx v k s)
  unfolding warn_missing
  warn_missing-Grows what idx v k s = elim (Bool-cases (missing (str_at v k))) [
    | inl gone ↦ rw (gone, warn_missing) (Grows-none s _ _)
    | inr there ↦ rw (there, warn_missing) (Grows-none s _ _)
  ]

  classify_kind-Grows :
      (idx : ℕ) (kind : String) (s : GraphSummary) → Grows 1 s (classify_kind lib idx kind s)
  unfolding classify_kind
  classify_kind-Grows idx kind s = elim (Bool-cases (known_system_kind lib kind)) [
    | inl known ↦ rw (known, classify_kind) (Grows-system s _ _)
    | inr unknown ↦ elim (Bool-cases (known_llm_system_kind lib kind)) [
      | inl gated ↦ rw (unknown, gated, classify_kind) (Grows-annotation s _ _)
      | inr foreign ↦ rw (unknown, foreign, classify_kind) (Grows-annotation s _ _)
    ]
  ]

  classify_plain-Grows :
      (idx : ℕ) (node : Value) (s : GraphSummary) → Grows 1 s (classify_plain lib idx node s)
  unfolding classify_plain
  classify_plain-Grows idx node s = elim (Bool-cases (names_module lib node)) [
    | inl a_module ↦ rw (a_module, classify_plain) (Grows-module s _ _)
    | inr no_module ↦ elim (Bool-cases (missing (str_at node "type"))) [
      | inl gone ↦ rw (no_module, gone, classify_plain) (Grows-annotation s _ _)
      | inr there ↦ rw (no_module, there, classify_plain) (Grows-annotation s _ _)
    ]
  ]

  classify_node-Grows :
      (idx : ℕ) (node : Value) (s : GraphSummary) → Grows 1 s (classify_node lib idx node s)
  unfolding classify_node
  classify_node-Grows idx node s =
      let identified = warn_missing lib "node" idx node "id" s in
      let first = warn_missing-Grows "node" idx node "id" s in
      elim (Option-cases (str_at node "kind")) [
        | inl none' ↦
            rw (none', classify_node)
              (Grows-trans s identified _ first (classify_plain-Grows idx node identified)
                (omega arith))
        | inr (kind, there) ↦
            let kinds = insert_kind kind identified.system_node_kinds in
            let seen = record identified { system_node_kinds = kinds } in
            rw (there, classify_node)
              (Grows-trans s identified _ first
                (Grows-trans {n = 1} {k = 1} identified seen _ (Grows-none identified kinds _)
                  (classify_kind-Grows idx kind seen) (omega arith))
                (omega arith))
      ]

  classify_nodes-Grows :
      (idx : ℕ) (nodes : List Value) (s : GraphSummary)
      → Grows (length nodes) s (classify_nodes lib idx nodes s)
  unfolding classify_nodes
  classify_nodes-Grows idx [] s = Grows-none s _ _
  classify_nodes-Grows idx (node ∷ nodes) s =
      let t = classify_node lib idx node s in
      Grows-trans s t _ (classify_node-Grows idx node s) (classify_nodes-Grows (suc idx) nodes t)
        (omega arith)

  inspect_edges-Grows :
      (idx : ℕ) (edges : List Value) (s : GraphSummary) → Grows 0 s (inspect_edges lib idx edges s)
  unfolding inspect_edges inspect_edge
  inspect_edges-Grows idx [] s = Grows-none s _ _
  inspect_edges-Grows idx (edge ∷ edges) s =
      let t = warn_missing lib "edge" idx edge "source" s in
      let u = warn_missing lib "edge" idx edge "target" t in
      Grows-trans s t _ (warn_missing-Grows "edge" idx edge "source" s)
        (Grows-trans {n = 0} {k = 0} t u _ (warn_missing-Grows "edge" idx edge "target" t)
          (inspect_edges-Grows (suc idx) edges u) (omega arith))
        (omega arith)

  -- What a summary says of the nodes, the edges and the timeout of a document.
  pub record Summarises (nodes edges : List Value) (secs : Option ℕ) (s : GraphSummary)
      : Type 0 where
    pub all_classified : classified s ≡ length nodes
    pub nodes_counted : s.node_count ≡ length nodes
    pub edges_counted : s.edge_count ≡ length edges
    pub timeout_read : s.execution_timeout_secs ≡ secs

  validate_arrays :
      (nodes edges : List Value) (secs : Option ℕ)
      → (s : GraphSummary) × (validate_nodes lib
            (some (array (items nodes)))
            (some (array (items edges)))
            (no_summary lib secs)
          ≡ ok s)
        × Summarises nodes edges secs s
  unfolding validate_nodes validate_edges
  validate_arrays nodes edges secs =
      let start = record (no_summary lib secs) { node_count = length nodes } in
      let t = classify_nodes lib 0 nodes start in
      let g = classify_nodes-Grows 0 nodes start in
      let u = record t { edge_count = length edges } in
      let h = inspect_edges-Grows 0 edges u in
      (
        inspect_edges lib 0 edges u,
        rw (values-items nodes, values-items edges) refl,
        record {
          all_classified = omega (arith, g.more, h.more);
          nodes_counted = h.same_nodes ∙ g.same_nodes;
          edges_counted = h.same_edges;
          timeout_read = h.same_timeout ∙ g.same_timeout;
        },
      )

  validate_value-assemble_root :
      (nodes edges : List Value) (secs : Option ℕ)
      → (s : GraphSummary) × (validate_value lib (assemble_root nodes edges secs) ≡ ok s)
        × Summarises nodes edges secs s
  unfolding validate_value assemble_root get_key as_u64
  validate_value-assemble_root nodes edges none = validate_arrays nodes edges none
  validate_value-assemble_root nodes edges (some t) = validate_arrays nodes edges (some t)

  -- Every document that a builder builds is accepted by the check, which counts all its nodes and
  -- edges, reads its timeout, and classifies each node as exactly one of the three sorts. A builder
  -- with a recorded error builds none.
  pub validate_value-build :
      (b : WorkflowGraphBuilder)
      → ((b.errors ≢ []) × (build b ≡ build_error b.errors))
        ⊎ ((doc : Value) × (s : GraphSummary) × (b.errors ≡ [])
            × (build b ≡ Built.ok doc)
            × (validate_value lib doc ≡ ok s)
            × Summarises b.nodes b.edges b.execution_timeout_secs s)
  unfolding build
  validate_value-build b = elim (List-cases b.errors) [
    | inl none' ↦
        let (s, valid, sums) =
          validate_value-assemble_root b.nodes b.edges b.execution_timeout_secs in
        inr (
          assemble_root b.nodes b.edges b.execution_timeout_secs,
          s,
          none',
          rw (none', build) refl,
          valid,
          sums,
        )
    | inr (e, es, some') ↦ inl (rw some' (λ h. cc h), rw (some', build) refl)
  ]
