-- ===== src/Loader/Roots.antt =====
-- Which edges `ensure_trigger_node_wired_to_roots` of talos-workflow-engine/src/engine.rs adds, from one
-- node index to the indices of the roots.
use talos_workflow_engine.Base.{
  ℕ, zero, suc, ◌+◌, ◌<◌, ◌≡◌, refl, sym, ap, ◌∙◌, inl, inr, Bool, true, false, not, ◌&&◌, ◌||◌,
  none, some, List, [], ◌∷◌, length, ◌==◌, ==_iff, get_elem?, arith, Bool-cases, if◌then◌else◌,
}
use talos_workflow_engine.Base.HashMap
use talos_workflow_engine.Base.HashMap.{HashMap}
use talos_workflow_engine.Graph.Edges.{Edge, sources}
use talos_workflow_engine.Loader.{Loading}
use talos_workflow_engine.Loader.Trigger.{roots_from, default_logic, is_wired, wire}
use talos_workflow_engine.Loader.Wired.{one_more, wire-step, wire-found}

-- One of the ids stands at index `i`.
unfoldable pub reaches : HashMap ℕ → List ℕ → ℕ → Bool
reaches m [] i = false
reaches m (r ∷ rs) i =
    let rest = reaches m rs i in elim (HashMap.get m r) [ none ↦ rest | some c ↦ (c == i) || rest ]

-- The predecessors of `i` after an edge from `p` to it was added, if it is wanted and not there.
abbrev pub fed_from : Bool → ℕ → ℕ → List Edge → List ℕ
fed_from wanted p i es = if wanted && not (is_wired es p i) then p ∷ sources es i else sources es i

abbrev added : ℕ → ℕ → List Edge → List Edge
added p c es = record { source = p; target = c; logic = default_logic } ∷ es

wired-added : (p c i : ℕ) (es : List Edge) → (c == i) ≡ true → is_wired (added p c es) p i ≡ true
unfolding is_wired
wired-added p c i es here = ground (arith, here)

other-added :
    (p c i : ℕ) (es : List Edge)
    → (c == i) ≡ false
    → (is_wired (added p c es) p i ≡ is_wired es p i) × (sources (added p c es) i ≡ sources es i)
unfolding is_wired
other-added p c i es other = (ground (arith, other), ground (arith, other))

same-added :
    (p c i : ℕ) (es : List Edge) → (c == i) ≡ true → sources (added p c es) i ≡ p ∷ sources es i
same-added p c i es here = rw here refl

-- An edge that is there is not added.
fed_from-there :
    (b : Bool) (p i : ℕ) (es : List Edge)
    → is_wired es p i ≡ true
    → fed_from b p i es ≡ sources es i
fed_from-there true p i es there = rw there refl
fed_from-there false p i es there = refl

one_more-fed :
    (p c : ℕ) (s : Loading) (i : ℕ) (b : Bool)
    → fed_from b p i (one_more p c s) ≡ fed_from ((c == i) || b) p i s.edges
one_more-fed p c s i b = elim (Bool-cases (c == i)) [
  | inl here ↦
      let same : c ≡ i = (==_iff c i).0 here in
      elim (Bool-cases (is_wired s.edges p c)) [
        | inl there ↦
            let there' : is_wired s.edges p i ≡ true = rw same at there in
            rw (here, there)
              (fed_from-there b p i s.edges there' ∙ sym (fed_from-there true p i s.edges there'))
        | inr bare ↦
            let bare' : is_wired s.edges p i ≡ false = rw same at bare in
            let there' = wired-added p c i s.edges here in
            let more = same-added p c i s.edges here in
            rw (here, bare, bare') (fed_from-there b p i (added p c s.edges) there' ∙ more)
      ]
  | inr other ↦ elim (Bool-cases (is_wired s.edges p c)) [
    | inl there ↦ rw (other, there) refl
    | inr bare ↦
        let (wired, fed) = other-added p c i s.edges other in
        rw (other, bare) (rw (wired, fed) refl)
  ]
]

reaches-cons :
    (m : HashMap ℕ) (root c : ℕ) (roots : List ℕ) (i : ℕ)
    → HashMap.get m root ≡ some c
    → reaches m (root ∷ roots) i ≡ (c == i) || reaches m roots i
unfolding reaches
reaches-cons m root c roots i here = rw (here, reaches) refl

pub wire-sources :
    (trigger p : ℕ) (roots : List ℕ) (s t : Loading) (i : ℕ)
    → HashMap.get s.node_map trigger ≡ some p
    → wire trigger roots s ≡ some t
    → sources t.edges i ≡ fed_from (reaches s.node_map roots i) p i s.edges
unfolding wire reaches
wire-sources trigger p [] s t i there h =
    let same : t ≡ s = cc h in ap (λ (x : Loading). sources x.edges i) same
wire-sources trigger p (root ∷ roots) s t i there h =
    let (p', c, there', here) = wire-found trigger root roots s h in
    let step = sym (wire-step trigger root roots s p c there here) ∙ h in
    let rest = wire-sources trigger p roots (record s { edges = one_more p c s }) t i there step in
    rw (reaches-cons s.node_map root c roots i here)
      (rest ∙ one_more-fed p c s i (reaches s.node_map roots i))

and_false : (a b : Bool) → (a && false) || b ≡ b
and_false true b = refl
and_false false b = refl

unfoldable pub is_root : List Edge → ℕ → ℕ → ℕ → Bool
is_root es trigger i u = not (u == trigger) && (length (sources es i) == 0)

module _ (m : HashMap ℕ) (es : List Edge) (trigger : ℕ) where
  -- The ids stand at `start` and after it.
  abbrev Placed : ℕ → List ℕ → Type 0
  Placed start ids = (k u : ℕ) → get_elem? ids k ≡ some u → HashMap.get m u ≡ some (start + k)

  reaches-roots_from :
      (start id : ℕ) (ids : List ℕ) (j : ℕ)
      → HashMap.get m id ≡ some start
      → reaches m (roots_from es trigger start (id ∷ ids)) j
        ≡ (is_root es trigger start id && (start == j))
          || reaches m (roots_from es trigger (suc start) ids) j
  unfolding roots_from is_root
  reaches-roots_from start id ids j here = elim (Bool-cases (id == trigger)) [
    | inl same ↦ rw same refl
    | inr other ↦ elim (Bool-cases (length (sources es start) == 0)) [
      | inl root ↦
          rw (other, root) (reaches-cons m id start (roots_from es trigger (suc start) ids) j here)
      | inr fed ↦ rw (other, fed) refl
    ]
  ]

  Placed-tail : (start id : ℕ) (ids : List ℕ) → Placed start (id ∷ ids) → Placed (suc start) ids
  Placed-tail start id ids placed k u there =
      let shift : start + suc k ≡ suc start + k = omega arith in
      placed (suc k) u there ∙ ap some shift

  Placed-head :
      (start id : ℕ) (ids : List ℕ) → Placed start (id ∷ ids) → HashMap.get m id ≡ some start
  Placed-head start id ids placed =
      let same : start + 0 ≡ start = omega arith in placed 0 id refl ∙ ap some same

  -- Roots from `start` on stand at no index below it.
  reaches-below :
      (start : ℕ) (ids : List ℕ) (j : ℕ)
      → Placed start ids
      → j < start
      → reaches m (roots_from es trigger start ids) j ≡ false
  unfolding roots_from reaches
  reaches-below start [] j placed below = refl
  reaches-below start (id ∷ ids) j placed below =
      reaches-roots_from start id ids j (Placed-head start id ids placed)
      ∙ ground (
        arith,
        below,
        reaches-below (suc start) ids j (Placed-tail start id ids placed) (omega arith),
      )

  -- The node at an index is wired if and only if it is a root.
  pub reaches-at :
      (start : ℕ) (ids : List ℕ) (k u : ℕ)
      → Placed start ids
      → get_elem? ids k ≡ some u
      → reaches m (roots_from es trigger start ids) (start + k) ≡ is_root es trigger (start + k) u
  reaches-at start [] k u placed there = absurd (cc there)
  reaches-at start (id ∷ ids) zero u placed there =
      let same : u ≡ id = cc there in
      let here : start + 0 ≡ start = omega arith in
      let below =
        reaches-below (suc start) ids start (Placed-tail start id ids placed) (omega arith) in
      let head : reaches m (roots_from es trigger start (id ∷ ids)) start
          ≡ is_root es trigger start id =
        reaches-roots_from start id ids start (Placed-head start id ids placed)
        ∙ ground (arith, below) in
      rw (here, same) head
  reaches-at start (id ∷ ids) (suc k) u placed there =
      let shift : start + suc k ≡ suc start + k = omega arith in
      let apart : (start == (suc start + k)) ≡ false = ground arith in
      rw shift (
        reaches-roots_from start id ids (suc start + k) (Placed-head start id ids placed)
        ∙ rw apart (and_false (is_root es trigger start id) _)
        ∙ reaches-at (suc start) ids k u (Placed-tail start id ids placed) there)
