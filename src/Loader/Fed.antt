-- ===== src/Loader/Fed.antt =====
-- Which edges `ensure_trigger_node_wired_to_roots` of talos-workflow-engine/src/engine.rs adds: one from
-- the trigger to each root, and no other.
use talos_workflow_engine.Base.{
  ℕ, ◌+◌, ◌<◌, ◌≡◌, ◌≢◌, refl, sym, ap, ◌∙◌, ◌⊎◌, inl, inr, true, false, none, some, List, [], ◌∷◌,
  length, ◌==◌, ==_iff, get_elem?, arith, Bool-cases, Option-cases, leb,
}
use talos_workflow_engine.Base.HashMap
use talos_workflow_engine.Base.HashMap.{HashMap}
use talos_workflow_engine.Graph.Edges.{Edge, sources}
use talos_workflow_engine.Loader.{Loading, add_node}
use talos_workflow_engine.Loader.Trigger.{
  find_trigger, roots_from, is_wired, wire, with_trigger, ensure_trigger_node_wired_to_roots,
  IsIndexed,
}
use talos_workflow_engine.Loader.Wired.{wire-found, ensure-Done, label, again, connecting-sources}
use talos_workflow_engine.Loader.Roots.{reaches, fed_from, wire-sources, reaches-at, is_root}

with_trigger-edges : (fresh : ℕ) (s : Loading) → (with_trigger fresh s).1.edges ≡ s.edges
unfolding with_trigger add_node
with_trigger-edges fresh s = elim (Option-cases (find_trigger s.node_labels)) [
  | inr (id, there) ↦ rw (there, with_trigger) refl
  | inl absent ↦ elim (Bool-cases (leb s.max_workflow_nodes (length s.nodes))) [
    | inl full ↦ rw (absent, full, with_trigger) refl
    | inr room ↦ rw (absent, room, with_trigger) refl
  ]
]

-- Without the trigger, nothing can be wired.
wire-unknown :
    (trigger : ℕ) (roots : List ℕ) (s t : Loading)
    → HashMap.get s.node_map trigger ≡ none
    → wire trigger roots s ≡ some t
    → (roots ≡ []) × (t ≡ s)
unfolding wire
wire-unknown trigger [] s t unknown h = (refl, cc h)
wire-unknown trigger (root ∷ roots) s t unknown h =
    let (p, c, there, here) = wire-found trigger root roots s h in absurd (cc (unknown, there))

no_length : (xs : List ℕ) → length xs ≡ 0 → xs ≡ []
no_length [] h = refl
no_length (x ∷ xs) h = absurd (omega (arith, h))

bare-root : (es : List Edge) (p i : ℕ) → sources es i ≡ [] → fed_from true p i es ≡ p ∷ []
bare-root es p i bare = elim (Bool-cases (is_wired es p i)) [
  | inl wired ↦
      let fed : 0 < length (sources es i) = connecting-sources es p i wired in
      absurd (omega (arith, fed, ap (λ xs. length xs) bare))
  | inr free ↦ rw (free, bare) refl
]

is_root-true :
    (es : List Edge) (trigger i u : ℕ)
    → is_root es trigger i u ≡ true
    → (u ≢ trigger) × (sources es i ≡ [])
unfolding is_root
is_root-true es trigger i u h = elim (Bool-cases (u == trigger)) [
  | inl same ↦ absurd (ground (arith, h, same))
  | inr other ↦ (
    (λ e. absurd (ground (arith, other, e))),
    no_length (sources es i) (ground (arith, h, other)),
  )
]

is_root-false :
    (es : List Edge) (trigger i u : ℕ)
    → is_root es trigger i u ≡ false
    → (u ≡ trigger) ⊎ (0 < length (sources es i))
unfolding is_root
is_root-false es trigger i u h = elim (Bool-cases (u == trigger)) [
  | inl same ↦ inl ((==_iff u trigger).0 same)
  | inr other ↦ inr (ground (arith, h, other))
]

-- The predecessors of the node `u` at index `i` before and after: a root other than the trigger has
-- the trigger, and only that; any other node has those that it had.
abbrev pub Fed : (es : List Edge) (t : Loading) (trigger i u : ℕ) → Type 0
Fed es t trigger i u =
    ((u ≢ trigger)
      × (sources es i ≡ [])
      × (p : ℕ) × (HashMap.get t.node_map trigger ≡ some p)
      × (sources t.edges i ≡ p ∷ []))
    ⊎ (((u ≡ trigger) ⊎ (0 < length (sources es i))) × (sources t.edges i ≡ sources es i))

module _ (fresh trigger : ℕ) (s t : Loading)
    (done : ensure_trigger_node_wired_to_roots fresh s ≡ some (trigger, t)) (indexed : IsIndexed t)
    (i u : ℕ) (there : get_elem? t.nodes i ≡ some u) where
  abbrev before : Loading
  before = (with_trigger fresh s).1

  abbrev roots : List ℕ
  roots = roots_from before.edges trigger 0 before.nodes

  is_reached : reaches before.node_map roots i ≡ is_root before.edges trigger i u
  is_reached =
      let w = (ensure-Done fresh trigger s t done indexed).wires in
      let first : (k : ℕ) → 0 + k ≡ k = λ k. omega arith in
      rw (first i) at (
        reaches-at before.node_map before.edges trigger 0 before.nodes i u
          (λ k v at_k.
            rw w.same_map at (indexed k v (rw w.same_nodes at_k)) ∙ ap some (sym (first k)))
          (rw w.same_nodes at there))

  fed : Fed before.edges t trigger i u
  unfolding reaches
  fed =
      let d = ensure-Done fresh trigger s t done indexed in
      elim (Option-cases (HashMap.get before.node_map trigger)) [
        | inl unknown ↦
            let (none', same) = wire-unknown trigger roots before t unknown d.ran in
            let no_root : is_root before.edges trigger i u ≡ false =
              sym is_reached ∙ ap (λ rs. reaches before.node_map rs i) none' in
            inr (
              is_root-false before.edges trigger i u no_root,
              ap (λ (x : Loading). sources x.edges i) same,
            )
        | inr (p, known) ↦
            let edges =
              wire-sources trigger p roots before t i known d.ran
              ∙ ap (λ b. fed_from b p i before.edges) is_reached in
            elim (Bool-cases (is_root before.edges trigger i u)) [
              | inl root ↦
                  let (apart, bare) = is_root-true before.edges trigger i u root in
                  inl (
                    apart,
                    bare,
                    p,
                    rw d.wires.same_map known,
                    edges ∙ rw root (bare-root before.edges p i bare),
                  )
              | inr other ↦
                  inr (is_root-false before.edges trigger i u other, edges ∙ rw other refl)
            ]
      ]

-- Where every node of the graph is the one that its id is mapped to, a node without predecessors has,
-- after the call, the trigger as its one predecessor, unless it is the trigger; every other node, the
-- trigger with it, has the predecessors that it had. The trigger bears its label, and another call
-- changes nothing more and gives the same trigger, whatever new UUID it would have used.
pub ensure_trigger_node_wired_to_roots-feeds :
    (fresh fresh' trigger : ℕ) (s t : Loading) (i u : ℕ)
    → ensure_trigger_node_wired_to_roots fresh s ≡ some (trigger, t)
    → IsIndexed t
    → get_elem? t.nodes i ≡ some u
    → Fed s.edges t trigger i u
      × (find_trigger t.node_labels ≡ some trigger)
      × (ensure_trigger_node_wired_to_roots fresh' t ≡ some (trigger, t))
ensure_trigger_node_wired_to_roots-feeds fresh fresh' trigger s t i u done indexed there = (
  rw (with_trigger-edges fresh s) at (fed fresh trigger s t done indexed i u there),
  label fresh trigger s t done indexed,
  again fresh trigger s t done indexed fresh',
)
