-- ===== src/Loader/Loaded.antt =====
-- The graph of an engine that has taken in a document, as petgraph presents it to the scheduler.
use talos_workflow_engine.Base.{
  ℕ, zero, suc, ◌≤◌, ◌<◌, ◌≡◌, refl, some, List, [], ◌∷◌, inl, inr, length, count, All-map, arith,
  get_elem?,
}
use talos_workflow_engine.Base.Options.{unwrap_or}
use talos_workflow_engine.Base.Json.{Value}
use talos_workflow_engine.Graph.{DiGraph, IsDiGraph, edge_limit}
use talos_workflow_engine.Graph.Edges.{graph_of, graph_of-IsDiGraph, Joins}
use talos_workflow_engine.Document.{Libraries}
use talos_workflow_engine.Loader.{Loading, parse_graph_document}
use talos_workflow_engine.Loader.WellFormed.{
  IsWellFormed, Within, parse_graph_document-IsWellFormed,
}

-- The indices below `n`.
abbrev pub indices : ℕ → List ℕ
indices zero = []
indices (suc n) = n ∷ indices n

abbrev pub digraph_of : Loading → DiGraph
digraph_of s = record (graph_of (indices (length s.nodes)) s.edges) {
  weight = λ i. unwrap_or (get_elem? s.nodes i) 0;
}

count-indices : (i n : ℕ) → count i (indices n) ≤ 1 × (n ≤ i → count i (indices n) ≡ 0)
count-indices i zero = (omega arith, λ h. refl)
count-indices i (suc n) =
    let (once, none') = count-indices i n in
    (ground (arith, once, none'), λ h. ground (arith, none'))

count-indices-lt : (i n : ℕ) → i < n → 0 < count i (indices n)
count-indices-lt i zero h = absurd (omega arith)
count-indices-lt i (suc n) h = ground (arith, count-indices-lt i n)

module _ (s : Loading) (v : IsWellFormed s) where
  digraph_of-IsDiGraph : length s.edges < edge_limit → IsDiGraph (digraph_of s)
  digraph_of-IsDiGraph few =
      let n = length s.nodes in
      let ok =
        graph_of-IsDiGraph (indices n) s.edges (λ i. (count-indices i n).0)
          (All-map (Within n) (Joins (indices n)) s.edges
            (λ e h. (count-indices-lt e.source n h.0, count-indices-lt e.target n h.1)) v.joined)
          few in
      record {
        indices_once = ok.indices_once;
        both_ends = ok.both_ends;
        source_listed = ok.source_listed;
        target_listed = ok.target_listed;
        edges_listed = ok.edges_listed;
        few_edges = ok.few_edges;
        found_listed = ok.found_listed;
        found_if_any = ok.found_if_any;
      }

module _ (lib : Libraries) (graph : Value) (s : Loading) {t : Loading} where
  -- The graph that a document leaves in an engine that was well-formed, as a new one is, has all that
  -- the scheduler relies on, where petgraph can hold its edges.
  pub parse_graph_document-IsDiGraph :
      IsWellFormed s
      → parse_graph_document lib graph s ≡ some t
      → length t.edges < edge_limit
      → IsDiGraph (digraph_of t)
  parse_graph_document-IsDiGraph v loaded few =
      elim (parse_graph_document-IsWellFormed lib graph s v) [
        | inl (empty, refused) ↦ absurd (cc (refused, loaded))
        | inr (nonempty, t', loaded', v') ↦
            let same : t' ≡ t = cc (loaded, loaded') in digraph_of-IsDiGraph t (rw same at v') few
      ]
