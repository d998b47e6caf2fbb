-- ===== src/Loader/WellFormed.antt =====
-- What holds of an engine that has taken in a document by `parse_graph_document` of
-- talos-workflow-engine/src/engine.rs.
use talos_workflow_engine.Base.{
  ℕ, zero, suc, ◌≤◌, ◌<◌, ◌≡◌, ◌≢◌, refl, ◌⊎◌, inl, inr, Option, none, some, List, [], ◌∷◌, ◌++◌,
  leb, length, length-append, get_elem?, All, All-map, fold, arith, Bool-cases, ◌==◌, Option-cases,
  List-cases,
}
use talos_workflow_engine.Base.Options.{◌>>=◌, unwrap_or, or_else, OnSome, OnSome-bind}
use talos_workflow_engine.Document.Retries.{read_node_retry_policy_with_actor_cap}
use talos_workflow_engine.Base.HashMap
use talos_workflow_engine.Base.HashMap.{HashMap}
use talos_workflow_engine.Base.Json.{Value, get, as_u64}
use talos_workflow_engine.Graph.{EdgeLogic}
use talos_workflow_engine.Graph.Edges.{Edge}
use talos_workflow_engine.Engine.{NodeMeta, RetryPolicy, SystemNodeKind}
use talos_workflow_engine.Document.{Libraries, str_at}
use talos_workflow_engine.Document.Kinds.{parse_system_node_kind}
use talos_workflow_engine.Loader.{
  Loading, Progress, NodeIds, add_node, add_edge, lookup_id, edge_logic, load_edge, load_node,
  module_id_text, node_id_of, is_system_type, listed, set_timeout, parse_graph_document,
  strip_system,
}

abbrev pub Within : ℕ → Edge → Type 0
Within n e = (e.source < n) × (e.target < n)

-- Every mapped id stands at its index and is described, every edge joins two nodes, and the cap on
-- the number of nodes is kept.
pub record IsWellFormed (s : Loading) : Type 0 where
  pub placed : (u i : ℕ) → HashMap.get s.node_map u ≡ some i → get_elem? s.nodes i ≡ some u
  pub described :
      (u i : ℕ)
      → HashMap.get s.node_map u ≡ some i
      → (m : NodeMeta) × (HashMap.get s.node_meta u ≡ some m)
  pub joined : All (Within (length s.nodes)) s.edges
  pub capped : length s.nodes ≤ s.max_workflow_nodes

get_elem?-append_left :
    (xs ys : List ℕ) (i u : ℕ) → get_elem? xs i ≡ some u → get_elem? (xs ++ ys) i ≡ some u
get_elem?-append_left [] ys i u h = cc
get_elem?-append_left (x ∷ xs) ys zero u h = h
get_elem?-append_left (x ∷ xs) ys (suc i) u h = get_elem?-append_left xs ys i u h

get_elem?-length : (xs : List ℕ) (u : ℕ) → get_elem? (xs ++ u ∷ []) (length xs) ≡ some u
get_elem?-length [] u = refl
get_elem?-length (x ∷ xs) u = get_elem?-length xs u

pub get_elem?-lt : (xs : List ℕ) (i u : ℕ) → get_elem? xs i ≡ some u → i < length xs
get_elem?-lt [] i u h = cc
get_elem?-lt (x ∷ xs) zero u h = omega arith
get_elem?-lt (x ∷ xs) (suc i) u h = omega (arith, get_elem?-lt xs i u h)

module _ (s : Loading) (v : IsWellFormed s) where
  add_node-IsWellFormed :
      (id : ℕ) (module_id : Option ℕ) (policy : Option RetryPolicy) (kind : Option SystemNodeKind)
      → IsWellFormed (add_node s id module_id policy kind)
  unfolding add_node
  add_node-IsWellFormed id module_id policy kind =
      elim (Bool-cases (leb s.max_workflow_nodes (length s.nodes))) [
        | inl full ↦ rw full v
        | inr room ↦ rw room (record {
          placed = λ u i h. elim (Bool-cases (id == u)) [
            | inl same ↦ ground (
              arith,
              same,
              get_elem?-length s.nodes id,
              HashMap.get-insert s.node_map id u (length s.nodes),
            )
            | inr other ↦ get_elem?-append_left s.nodes (id ∷ []) i u (
                v.placed u i
                  (ground (arith, other, HashMap.get-insert s.node_map id u (length s.nodes))))
          ];
          described = λ u i h. elim (Bool-cases (id == u)) [
            | inl same ↦ (
              record { module_id = module_id; retry_policy = policy; kind = kind },
              ground (
                arith,
                same,
                HashMap.get-insert s.node_meta id u
                    (record { module_id = module_id; retry_policy = policy; kind = kind }),
              ),
            )
            | inr other ↦
                let (m, there) =
                  v.described u i
                    (ground (arith, other, HashMap.get-insert s.node_map id u (length s.nodes))) in
                (
                  m,
                  ground (
                    arith,
                    other,
                    there,
                    HashMap.get-insert s.node_meta id u
                        (record { module_id = module_id; retry_policy = policy; kind = kind }),
                  ),
                )
          ];
          joined =
              All-map (Within (length s.nodes)) _ s.edges
                (λ e h. omega (arith, length-append s.nodes (id ∷ []))) v.joined;
          capped = ground (arith, room, length-append s.nodes (id ∷ []), v.capped);
        })
      ]

  add_edge-IsWellFormed :
      (from to : ℕ) (logic : EdgeLogic) → OnSome IsWellFormed (add_edge s from to logic)
  unfolding add_edge
  add_edge-IsWellFormed from to logic = elim (Option-cases (HashMap.get s.node_map from)) [
    | inl absent ↦ rw absent tt
    | inr (i, there) ↦ elim (Option-cases (HashMap.get s.node_map to)) [
      | inl absent ↦ rw (there, absent) tt
      | inr (j, there') ↦
          rw (there, there')
            (record {
              placed = v.placed;
              described = v.described;
              joined = (
                (
                  get_elem?-lt s.nodes i from (v.placed from i there),
                  get_elem?-lt s.nodes j to (v.placed to j there'),
                ),
                v.joined,
              );
              capped = v.capped;
            })
    ]
  ]

-- The other fields play no part.
IsWellFormed-others :
    (s t : Loading)
    → s.nodes ≡ t.nodes
    → s.edges ≡ t.edges
    → s.node_map ≡ t.node_map
    → s.node_meta ≡ t.node_meta
    → s.max_workflow_nodes ≡ t.max_workflow_nodes
    → IsWellFormed s
    → IsWellFormed t
IsWellFormed-others s t n e m d c v = record {
  placed = rw (← n, ← m) v.placed;
  described = rw (← m, ← d) v.described;
  joined = rw (← n, ← e) v.joined;
  capped = rw (← n, ← c) v.capped;
}

-- Loading one node or edge after another keeps what each of them keeps.
fold-keeps :
    {A S : Type 0} (P : S → Type 0) (f : A → S → S) (xs : List A)
    → ((x : A) (s : S) → P s → P (f x s))
    → (s : S) → P s
    → P (fold f xs s)
fold-keeps P f [] keep s h = h
fold-keeps P f (x ∷ xs) keep s h = fold-keeps P f xs keep (f x s) (keep x s h)

OnSome-unwrap_or :
    {A : Type 0} (P : A → Type 0) (o : Option A) (d : A) → OnSome P o → P d → P (unwrap_or o d)
OnSome-unwrap_or P none d h k = k
OnSome-unwrap_or P (some x) d h k = h

load_edge-IsWellFormed :
    (ids : NodeIds) (edge : Value) (s : Loading)
    → IsWellFormed s
    → IsWellFormed (load_edge ids edge s)
unfolding load_edge
load_edge-IsWellFormed ids edge s v =
    OnSome-unwrap_or IsWellFormed _ s
      (OnSome-bind IsWellFormed (lookup_id ids (unwrap_or (str_at edge "source") "")) _ λ src.
        OnSome-bind IsWellFormed (lookup_id ids (unwrap_or (str_at edge "target") "")) _
          λ tgt. add_edge-IsWellFormed s v src tgt (edge_logic edge))
      v

module _ (lib : Libraries) where
  abbrev Keeps : Progress → Type 0
  Keeps p = IsWellFormed p.engine

  set_timeout-IsWellFormed :
      (secs : Option ℕ) (s : Loading) → IsWellFormed s → IsWellFormed (set_timeout lib secs s)
  unfolding set_timeout
  set_timeout-IsWellFormed none s v = v
  set_timeout-IsWellFormed (some t) s v = IsWellFormed-others s _ refl refl refl refl refl v

  load_node-IsWellFormed : (node : Value) (p : Progress) → Keeps p → Keeps (load_node lib node p)
  unfolding load_node
  load_node-IsWellFormed node p v =
      let rf_id = unwrap_or (str_at node "id") "" in
      elim (Option-cases (module_id_text lib node)) [
        | inl no_module ↦ elim (Bool-cases (is_system_type lib node)) [
          | inl system ↦
              rw (no_module, system, load_node)
                (add_node-IsWellFormed _ (IsWellFormed-others p.engine _ refl refl refl refl refl v)
                  (node_id_of lib rf_id) none none
                  (or_else (str_at node "kind") (str_at node "type" >>= strip_system) >>= λ k.
                    parse_system_node_kind lib k node))
          | inr other ↦ rw (no_module, other, load_node) v
        ]
        | inr (text, there) ↦ elim (Option-cases (lib.parse_uuid text)) [
          | inl no_uuid ↦ rw (there, no_uuid, load_node) v
          | inr (module_id, parsed) ↦
              rw (there, parsed, load_node)
                (IsWellFormed-others _ _ refl refl refl refl refl (
                  add_node-IsWellFormed _
                    (IsWellFormed-others p.engine _ refl refl refl refl refl v)
                    (node_id_of lib rf_id) (some module_id)
                    (read_node_retry_policy_with_actor_cap node p.engine.actor_id)
                    (str_at node "kind" >>= λ k. parse_system_node_kind lib k node)))
        ]
      ]

  -- A document is refused exactly when it lists no nodes. Any other is taken in, whatever it holds, and
  -- a well-formed engine, as a new one is, stays well-formed.
  pub parse_graph_document-IsWellFormed :
      (graph : Value) (s : Loading)
      → IsWellFormed s
      → ((listed lib graph "nodes" ≡ []) × (parse_graph_document lib graph s ≡ none))
        ⊎ ((listed lib graph "nodes" ≢ [])
            × (t : Loading) × (parse_graph_document lib graph s ≡ some t)
            × IsWellFormed t)
  unfolding parse_graph_document
  parse_graph_document-IsWellFormed graph s v = elim (List-cases (listed lib graph "nodes")) [
    | inl none' ↦ inl (none', rw (none', parse_graph_document) refl)
    | inr (node, nodes, some') ↦
        let timed = set_timeout lib (get graph "execution_timeout_secs" >>= as_u64) s in
        let start : Progress = record { engine = timed; ids = [] } in
        let done = fold (load_node lib) (node ∷ nodes) start in
        let timed_ok : IsWellFormed timed =
          set_timeout-IsWellFormed (get graph "execution_timeout_secs" >>= as_u64) s v in
        inr (
          rw some' (λ e. cc e),
          fold (load_edge done.ids) (listed lib graph "edges") done.engine,
          rw (some', parse_graph_document) refl,
          fold-keeps IsWellFormed (load_edge done.ids) (listed lib graph "edges")
              (load_edge-IsWellFormed done.ids) done.engine
              (fold-keeps Keeps (load_node lib) (node ∷ nodes) load_node-IsWellFormed start
                timed_ok),
        )
  ]
