-- ===== src/Graph/Edges.antt =====
-- A concrete graph, given by its edges with the newest first: petgraph's order of neighbours. It shows
-- that the interface of Graph.antt can be met, and gives the tests their graphs.
use talos_workflow_engine.Base.{
  ℕ, ◌+◌, ◌<◌, ◌≤◌, ◌≡◌, refl, ◌&&◌, Option, none, some, inl, inr, Bool-cases, List, [], ◌∷◌, arith,
  ◌==◌, if◌then◌else◌, length, count, All,
}
use talos_workflow_engine.Graph.{EdgeLogic, DiGraph, IsDiGraph, Listed, edge_limit}

pub record Edge : Type 0 where
  pub source : ℕ
  pub target : ℕ
  pub logic : EdgeLogic

abbrev pub targets : List Edge → ℕ → List ℕ
targets [] p = []
targets (e ∷ es) p = let rest = targets es p in if e.source == p then e.target ∷ rest else rest

abbrev pub sources : List Edge → ℕ → List ℕ
sources [] c = []
sources (e ∷ es) c = let rest = sources es c in if e.target == c then e.source ∷ rest else rest

abbrev pub connecting : List Edge → ℕ → ℕ → List EdgeLogic
connecting [] p c = []
connecting (e ∷ es) p c =
    let rest = connecting es p c in if e.source == p && e.target == c then e.logic ∷ rest else rest

abbrev pub newest : List EdgeLogic → Option EdgeLogic
newest [] = none
newest (l ∷ ls) = some l

pub connecting-All :
    (P : EdgeLogic → Type 0) (es : List Edge) (p c : ℕ)
    → All (λ e. P e.logic) es
    → All P (connecting es p c)
connecting-All P [] p c h = tt
connecting-All P (e ∷ es) p c h = elim (Bool-cases (e.source == p && e.target == c)) [
  | inl joined ↦ rw joined (h.0, connecting-All P es p c h.1)
  | inr apart ↦ rw apart (connecting-All P es p c h.1)
]

newest-Listed : (ls : List EdgeLogic) (l : EdgeLogic) → newest ls ≡ some l → Listed l ls
newest-Listed [] l h = cc
newest-Listed (x ∷ ls) l h = inl (cc)

newest-none : (ls : List EdgeLogic) → newest ls ≡ none → ls ≡ []
newest-none [] h = refl
newest-none (x ∷ ls) h = cc

-- The node with index `i` carries the UUID `i + 100`.
abbrev pub graph_of : List ℕ → List Edge → DiGraph
graph_of nodes es = record {
  node_indices = nodes;
  weight = λ i. i + 100;
  outgoing = targets es;
  incoming = sources es;
  edges_connecting = connecting es;
  find_edge = λ p c. newest (connecting es p c);
}

both_ends : (es : List Edge) (p c : ℕ) → count c (targets es p) ≡ count p (sources es c)
both_ends [] p c = refl
both_ends (e ∷ es) p c = ground (arith, both_ends es p c)

length-sources : (es : List Edge) (c : ℕ) → length (sources es c) ≤ length es
length-sources [] c = omega arith
length-sources (e ∷ es) c = ground (arith, length-sources es c)

edges_listed : (es : List Edge) (p c : ℕ) → length (connecting es p c) ≡ count c (targets es p)
edges_listed [] p c = refl
edges_listed (e ∷ es) p c = ground (arith, edges_listed es p c)

abbrev pub Joins : List ℕ → Edge → Type 0
Joins nodes e = (0 < count e.source nodes) × (0 < count e.target nodes)

module _ (nodes : List ℕ) where
  source_listed :
      (es : List Edge) (p c : ℕ)
      → All (Joins nodes) es
      → 0 < count c (targets es p)
      → 0 < count p nodes
  source_listed [] p c h k = absurd (omega arith)
  source_listed (e ∷ es) p c h k = ground (arith, source_listed es p c h.1)

  target_listed :
      (es : List Edge) (p c : ℕ)
      → All (Joins nodes) es
      → 0 < count c (targets es p)
      → 0 < count c nodes
  target_listed [] p c h k = absurd (omega arith)
  target_listed (e ∷ es) p c h k = ground (arith, target_listed es p c h.1)

  pub graph_of-IsDiGraph :
      (es : List Edge)
      → ((i : ℕ) → count i nodes ≤ 1)
      → All (Joins nodes) es
      → length es < edge_limit
      → IsDiGraph (graph_of nodes es)
  graph_of-IsDiGraph es once h few = record {
    indices_once = once;
    both_ends = both_ends es;
    source_listed = λ p c. source_listed es p c h;
    target_listed = λ p c. target_listed es p c h;
    edges_listed = edges_listed es;
    few_edges = λ c. omega (arith, length-sources es c);
    found_listed = λ p c. newest-Listed (connecting es p c);
    found_if_any = λ p c. newest-none (connecting es p c);
  }
