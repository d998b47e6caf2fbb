-- ===== src/Loader/Wired.antt =====
-- What `ensure_trigger_node_wired_to_roots` of talos-workflow-engine/src/engine.rs does to the edges.
use talos_workflow_engine.Base.{
  ℕ, zero, suc, ◌+◌, ◌≤◌, ◌<◌, String, ◌≡◌, ◌≢◌, refl, sym, ap, ◌∙◌, inl, inr, true, false, Option,
  none, some, List, [], ◌∷◌, length, leb, ◌==◌, get_elem?, All, arith, Bool-cases, Option-cases,
  if◌then◌else◌,
}
use talos_workflow_engine.Base.Options.{◌>>=◌}
use talos_workflow_engine.Base.HashMap
use talos_workflow_engine.Base.HashMap.{HashMap}
use talos_workflow_engine.Graph.Edges.{Edge, sources}
use talos_workflow_engine.Loader.{Loading, add_node, add_edge}
use talos_workflow_engine.Loader.Trigger.{
  find_trigger, roots_from, default_logic, is_wired, wire, with_trigger, paired,
  ensure_trigger_node_wired_to_roots, IsIndexed,
}

-- What wiring changes: edges are added, and at least one to each root.
pub record Wires (roots : List ℕ) (s t : Loading) : Type 0 where
  pub same_nodes : t.nodes ≡ s.nodes
  pub same_map : t.node_map ≡ s.node_map
  pub same_labels : t.node_labels ≡ s.node_labels
  pub grows : (i : ℕ) → length (sources s.edges i) ≤ length (sources t.edges i)
  pub fed :
      All
        (λ r. (i : ℕ) × (HashMap.get s.node_map r ≡ some i) × (0 < length (sources t.edges i)))
        roots

pub connecting-sources :
    (es : List Edge) (p c : ℕ) → is_wired es p c ≡ true → 0 < length (sources es c)
unfolding is_wired
connecting-sources [] p c h = cc
connecting-sources (e ∷ es) p c h = ground (arith, connecting-sources es p c)

none_apart : {x : Loading} → ◌≡◌ {A = Option Loading} none (some x) → ⊥
none_apart h = cc h

-- The edges after one root was looked at.
abbrev pub one_more : ℕ → ℕ → Loading → List Edge
one_more p c s =
    if is_wired s.edges p c
    then s.edges
    else record { source = p; target = c; logic = default_logic } ∷ s.edges

module _ (trigger root : ℕ) (roots : List ℕ) (s : Loading) where
  pub wire-step :
      (p c : ℕ)
      → HashMap.get s.node_map trigger ≡ some p
      → HashMap.get s.node_map root ≡ some c
      → wire trigger (root ∷ roots) s ≡ wire trigger roots (record s { edges = one_more p c s })
  unfolding wire add_edge
  wire-step p c there there' = elim (Bool-cases (is_wired s.edges p c)) [
    | inl wired ↦ rw (there, there', wired, wire) refl
    | inr bare ↦ rw (there, there', bare, wire, add_edge) refl
  ]

  -- A call that does not panic has found both ends.
  pub wire-found :
      {t : Loading}
      → wire trigger (root ∷ roots) s ≡ some t
      → (p : ℕ) × (c : ℕ) × (HashMap.get s.node_map trigger ≡ some p)
        × (HashMap.get s.node_map root ≡ some c)
  unfolding wire
  wire-found h = elim (Option-cases (HashMap.get s.node_map trigger)) [
    | inl absent ↦ absurd (none_apart (rw (absent, wire) at h))
    | inr (p, there) ↦ elim (Option-cases (HashMap.get s.node_map root)) [
      | inl absent ↦ absurd (none_apart (rw (there, absent, wire) at h))
      | inr (c, there') ↦ (p, c, there, there')
    ]
  ]

one_more-grows :
    (p c : ℕ) (s : Loading) (i : ℕ)
    → length (sources s.edges i) ≤ length (sources (one_more p c s) i)
one_more-grows p c s i = ground arith

one_more-feeds : (p c : ℕ) (s : Loading) → 0 < length (sources (one_more p c s) c)
one_more-feeds p c s = elim (Bool-cases (is_wired s.edges p c)) [
  | inl wired ↦ rw wired (connecting-sources s.edges p c wired)
  | inr bare ↦ rw bare (ground arith)
]

abbrev Fed : Loading → List Edge → ℕ → Type 0
Fed s es r = (i : ℕ) × (HashMap.get s.node_map r ≡ some i) × (0 < length (sources es i))

wire-Wires :
    (trigger : ℕ) (roots : List ℕ) (s t : Loading) → wire trigger roots s ≡ some t → Wires roots s t
unfolding wire
wire-Wires trigger [] s t h =
    let same : s ≡ t = cc h in
    record {
      same_nodes = ap (λ (x : Loading). x.nodes) (sym same);
      same_map = ap (λ (x : Loading). x.node_map) (sym same);
      same_labels = ap (λ (x : Loading). x.node_labels) (sym same);
      grows = λ i. omega (arith, ap (λ (x : Loading). length (sources x.edges i)) same);
      fed = tt;
    }
wire-Wires trigger (root ∷ roots) s t h =
    let (p, c, there, there') = wire-found trigger root roots s h in
    let s' = record s { edges = one_more p c s } in
    let rest =
      wire-Wires trigger roots s' t (sym (wire-step trigger root roots s p c there there') ∙ h) in
    record {
      same_nodes = rest.same_nodes;
      same_map = rest.same_map;
      same_labels = rest.same_labels;
      grows = λ i. omega (arith, one_more-grows p c s i, rest.grows i);
      fed = ((c, there', omega (arith, one_more-feeds p c s, rest.grows c)), rest.fed);
    }

find_trigger-insert :
    (labels : HashMap String) (id : ℕ)
    → find_trigger labels ≡ none
    → find_trigger (HashMap.insert labels id "__trigger__") ≡ some id
unfolding find_trigger HashMap.insert
find_trigger-insert [] id h = refl
find_trigger-insert ((j, l) ∷ labels) id h = ground (arith, h, find_trigger-insert labels id)

-- The trigger is labelled as such.
with_trigger-label :
    (fresh : ℕ) (s : Loading)
    → find_trigger (with_trigger fresh s).1.node_labels ≡ some (with_trigger fresh s).0
unfolding with_trigger add_node
with_trigger-label fresh s = elim (Option-cases (find_trigger s.node_labels)) [
  | inr (id, there) ↦ rw (there, with_trigger) there
  | inl absent ↦ elim (Bool-cases (leb s.max_workflow_nodes (length s.nodes))) [
    | inl full ↦ rw (absent, full, with_trigger) (find_trigger-insert s.node_labels fresh absent)
    | inr room ↦ rw (absent, room, with_trigger) (find_trigger-insert s.node_labels fresh absent)
  ]
]

roots_tail :
    (P : ℕ → Type 0) (es : List Edge) (trigger i id : ℕ) (ids : List ℕ)
    → All P (roots_from es trigger i (id ∷ ids))
    → All P (roots_from es trigger (suc i) ids)
unfolding roots_from
roots_tail P es trigger i id ids all = elim (Bool-cases (id == trigger)) [
  | inl same ↦ rw same at all
  | inr other ↦ elim (Bool-cases (length (sources es i) == 0)) [
    | inl root ↦ (rw (other, root) at all).1
    | inr fed ↦ rw (other, fed) at all
  ]
]

-- A node without predecessors that is not the trigger is among the roots.
root_listed :
    (P : ℕ → Type 0) (es : List Edge) (trigger i : ℕ) (ids : List ℕ)
    → All P (roots_from es trigger i ids)
    → (k u : ℕ) → get_elem? ids k ≡ some u
    → u ≢ trigger
    → length (sources es (i + k)) ≡ 0
    → P u
unfolding roots_from
root_listed P es trigger i [] all k u there apart bare = absurd (cc there)
root_listed P es trigger i (id ∷ ids) all zero u there apart bare =
    let same : id ≡ u = cc there in
    let start : i + 0 ≡ i = omega arith in
    let alone : length (sources es i) ≡ 0 = rw start at bare in
    let other : (id == trigger) ≡ false = ground (arith, same, apart) in
    let root : (length (sources es i) == 0) ≡ true = ground (arith, alone) in
    rw same at (rw (other, root, roots_from) at all).0
root_listed P es trigger i (id ∷ ids) all (suc k) u there apart bare =
    let shift : i + suc k ≡ suc i + k = omega arith in
    root_listed P es trigger (suc i) ids (roots_tail P es trigger i id ids all) k u there apart
      (rw shift at bare)

start : (i : ℕ) → i + 0 ≡ i
start i = omega arith

shift : (i k : ℕ) → i + suc k ≡ suc i + k
shift i k = omega arith

-- Where no node but the trigger is without predecessors, there are no roots.
no_roots :
    (es : List Edge) (trigger i : ℕ) (ids : List ℕ)
    → ((k u : ℕ) → get_elem? ids k ≡ some u → u ≢ trigger → 0 < length (sources es (i + k)))
    → roots_from es trigger i ids ≡ []
unfolding roots_from
no_roots es trigger i [] fed = refl
no_roots es trigger i (id ∷ ids) fed =
    let rest : roots_from es trigger (suc i) ids ≡ [] =
      no_roots es trigger (suc i) ids λ k u there apart.
        omega (arith, fed (suc k) u there apart, ap (λ n. length (sources es n)) (shift i k)) in
    elim (Bool-cases (id == trigger)) [
      | inl same ↦ rw same rest
      | inr other ↦
          let first = fed 0 id refl (λ e. absurd (ground (arith, other, e))) in
          let here : (length (sources es i) == 0) ≡ false =
            ground (arith, first, ap (λ n. length (sources es n)) (start i)) in
          rw (other, here) rest
    ]

bind-paired :
    (o : Option Loading) (a b : ℕ) (t : Loading)
    → (o >>= paired a) ≡ some (b, t)
    → (a ≡ b) × (o ≡ some t)
unfolding paired
bind-paired none a b t h = absurd (cc h)
bind-paired (some u) a b t h = (cc h, cc h)

module _ (fresh trigger : ℕ) (s t : Loading)
    (done : ensure_trigger_node_wired_to_roots fresh s ≡ some (trigger, t))
    (indexed : IsIndexed t) where
  -- What the call did after the trigger was there.
  pub record Done : Type 0 where
    pub found : (with_trigger fresh s).0 ≡ trigger
    pub ran :
        wire trigger
          (roots_from (with_trigger fresh s).1.edges trigger 0 (with_trigger fresh s).1.nodes)
          (with_trigger fresh s).1
        ≡ some t
    pub wires :
        Wires
          (roots_from (with_trigger fresh s).1.edges trigger 0 (with_trigger fresh s).1.nodes)
          (with_trigger fresh s).1
          t

  pub ensure-Done : Done
  unfolding ensure_trigger_node_wired_to_roots
  ensure-Done =
      let (id, u) = with_trigger fresh s in
      let (same, wired) =
        bind-paired (wire id (roots_from u.edges id 0 u.nodes) u) id trigger t done in
      record {
        found = same;
        ran = rw same at wired;
        wires = rw same at (wire-Wires id (roots_from u.edges id 0 u.nodes) u t wired);
      }

  fed_by : (i u : ℕ) → get_elem? t.nodes i ≡ some u → u ≢ trigger → 0 < length (sources t.edges i)
  fed_by i u there apart =
      let before = (with_trigger fresh s).1 in
      let w = ensure-Done.wires in
      elim (Bool-cases (length (sources before.edges i) == 0)) [
        | inr fed ↦ ground (arith, fed, w.grows i)
        | inl bare ↦
            let (j, mapped, fed) =
              root_listed (Fed before t.edges) before.edges trigger 0 before.nodes w.fed i u
                (rw w.same_nodes at there) apart (ground (arith, bare)) in
            let at_i : HashMap.get before.node_map u ≡ some i =
              rw w.same_map at (indexed i u there) in
            let same : j ≡ i = cc (mapped, at_i) in rw same at fed
      ]

  pub label : find_trigger t.node_labels ≡ some trigger
  label = rw (ensure-Done.wires.same_labels, with_trigger-label fresh s, ensure-Done.found) refl

  pub again : (fresh' : ℕ) → ensure_trigger_node_wired_to_roots fresh' t ≡ some (trigger, t)
  unfolding ensure_trigger_node_wired_to_roots
  again fresh' =
      let none' : roots_from t.edges trigger 0 t.nodes ≡ [] =
        no_roots t.edges trigger 0 t.nodes λ k u there apart.
          let from_0 : 0 + k ≡ k = omega arith in rw from_0 (fed_by k u there apart) in
      rw (label, with_trigger) (rw none' refl)
