-- ===== src/Scheduler/Start.antt =====
-- The counters and the queue that a run starts with, fresh or resumed from seeded results.
use talos_workflow_engine.Base.{
  ℕ, ◌+◌, ◌≤◌, ◌<◌, ◌≡◌, refl, ap, inl, inr, false, not, ◌&&◌, ◌||◌, some, List, [], ◌∷◌, arith,
  ◌==◌, ==_iff, if◌then◌else◌, Bool-cases, length, count, contains, fold, contains-count,
  not-contains-count, count-retain,
}
use talos_workflow_engine.Base.HashMap
use talos_workflow_engine.Base.HashMap.{HashMap, get-insert}
use talos_workflow_engine.Base.Json.{Value}
use talos_workflow_engine.Graph.{IsDiGraph, in_degree}
use talos_workflow_engine.Engine.{Engine}
use talos_workflow_engine.Scheduler.{
  count_parents, initial_pending, seed_node, seed_pending, initial_ready, start_reactor,
}
use talos_workflow_engine.Completion.Counters.{get-fold-decrement}
use talos_workflow_engine.Scheduler.Waiting.{not_done, not_done-cons, not-contains}
use talos_workflow_engine.Scheduler.Order.{Inv, open', ResultsKept}

module _ (e : Engine) where
  get-fold-count_parents :
      (xs : List ℕ) (p : HashMap ℕ) (j : ℕ)
      → HashMap.get (fold (count_parents e) xs p) j
        ≡ (if contains xs j then some (length (e.graph.incoming j)) else HashMap.get p j)
  unfolding count_parents in_degree
  get-fold-count_parents [] p j = refl
  get-fold-count_parents (x ∷ xs) p j = elim (Bool-cases (x == j)) [
    | inl same ↦
        let k : x ≡ j = (==_iff x j).0 same in
        ground (
          arith,
          get-fold-count_parents xs (HashMap.insert p x (length (e.graph.incoming x))) j,
          get-insert p x j (length (e.graph.incoming x)),
          ap (λ i. length (e.graph.incoming i)) k,
        )
    | inr other ↦ ground (
      arith,
      get-fold-count_parents xs (HashMap.insert p x (length (e.graph.incoming x))) j,
      get-insert p x j (length (e.graph.incoming x)),
    )
  ]

  not_done-nil : (ps : List ℕ) → not_done [] ps ≡ length ps
  not_done-nil [] = refl
  not_done-nil (p ∷ ps) = omega (arith, not_done-nil ps)

  -- What a counter must be once the seeds `done` are propagated.
  abbrev seeded_count : List ℕ → ℕ → ℕ
  seeded_count done c = if contains done c then 0 else not_done done (e.graph.incoming c)

  abbrev SeedsRight : List ℕ → HashMap ℕ → Type 0
  SeedsRight done p =
      (c : ℕ) → 0 < count c e.graph.node_indices → HashMap.get p c ≡ some (seeded_count done c)

  initial_pending-right : SeedsRight [] (initial_pending e)
  unfolding initial_pending
  initial_pending-right c h = elim (Bool-cases (contains e.graph.node_indices c)) [
    | inl there ↦ ground (
      arith,
      get-fold-count_parents e.graph.node_indices [] c,
      there,
      not_done-nil (e.graph.incoming c),
    )
    | inr absent ↦ absurd (omega (arith, not-contains-count c e.graph.node_indices absent))
  ]

  module _ (laws : IsDiGraph e.graph) where
    seed_node-right :
        (done : List ℕ) (idx : ℕ) (p : HashMap ℕ)
        → contains done idx ≡ false
        → SeedsRight done p
        → SeedsRight (idx ∷ done) (seed_node e idx p)
    unfolding seed_node
    seed_node-right done idx p new right c h = ground (
      arith,
      get-fold-decrement (e.graph.outgoing idx) (HashMap.insert p idx 0) c,
      get-insert p idx c 0,
      right c h,
      laws.both_ends idx c,
      not_done-cons done idx (e.graph.incoming c) new,
    )

  -- `done` with the seeds `xs`, the last one in front.
  abbrev onto : List ℕ → List ℕ → List ℕ
  onto [] done = done
  onto (x ∷ xs) done = onto xs (x ∷ done)

  contains-onto :
      (xs done : List ℕ) (a : ℕ) → contains (onto xs done) a ≡ (contains xs a || contains done a)
  contains-onto [] done a = refl
  contains-onto (x ∷ xs) done a = ground (arith, contains-onto xs (x ∷ done) a)

  not_done-cong :
      (xs ys ps : List ℕ)
      → ((a : ℕ) → contains xs a ≡ contains ys a)
      → not_done xs ps ≡ not_done ys ps
  not_done-cong xs ys [] h = refl
  not_done-cong xs ys (p ∷ ps) h = ground (arith, h p, not_done-cong xs ys ps h)

  module _ (laws : IsDiGraph e.graph) where
    seed_all :
        (xs done : List ℕ) (p : HashMap ℕ)
        → ((a : ℕ) → count a xs + count a done ≤ 1)
        → SeedsRight done p
        → SeedsRight (onto xs done) (fold (seed_node e) xs p)
    seed_all [] done p once right = right
    seed_all (x ∷ xs) done p once right =
        let new : contains done x ≡ false = not-contains done x (ground (arith, once x)) in
        seed_all xs (x ∷ done) (seed_node e x p) (λ a. omega (arith, once a))
          (seed_node-right laws done x p new right)

    -- After seeding, in whatever order, the counter of a seeded node is zero, and that of any other is
    -- the number of its incoming edges whose source is not seeded.
    pub seed_pending-count :
        (seeded : List ℕ) (c : ℕ)
        → ((a : ℕ) → count a seeded ≤ 1)
        → 0 < count c e.graph.node_indices
        → HashMap.get (seed_pending e seeded (initial_pending e)) c
          ≡ some (if contains seeded c then 0 else not_done seeded (e.graph.incoming c))
    unfolding seed_pending
    seed_pending-count seeded c once listed =
        let right =
          seed_all seeded [] (initial_pending e) (λ a. omega (arith, once a)) initial_pending-right
            c listed in
        let same =
          not_done-cong (onto seeded []) seeded (e.graph.incoming c)
            (λ a. ground (arith, contains-onto seeded [] a)) in
        ground (arith, right, same, contains-onto seeded [] c)

    module _ (seeded : List ℕ) (listed : (a : ℕ) → count a seeded ≤ count a e.graph.node_indices)
        (closed : (c : ℕ) → 0 < count c seeded → not_done seeded (e.graph.incoming c) ≡ 0) where
      seeded_once : (a : ℕ) → count a seeded ≤ 1
      seeded_once a = omega (arith, listed a, laws.indices_once a)

      start_counters :
          (c : ℕ)
          → 0 < count c e.graph.node_indices
          → HashMap.get (seed_pending e seeded (initial_pending e)) c
            ≡ some (not_done seeded (e.graph.incoming c))
      start_counters c h = elim (Bool-cases (contains seeded c)) [
        | inl there ↦ ground (
          arith,
          seed_pending-count seeded c seeded_once h,
          there,
          closed c (contains-count c seeded there),
        )
        | inr absent ↦ ground (arith, seed_pending-count seeded c seeded_once h, absent)
      ]

      start_places :
          (c : ℕ)
          → count c (initial_ready e seeded (seed_pending e seeded (initial_pending e)))
              + count c seeded
            ≡ open' e seeded c
      unfolding initial_ready HashMap.get_or
      start_places c =
          let pending = seed_pending e seeded (initial_pending e) in
          let kept =
            count-retain (λ idx. HashMap.get_or pending idx 1 == 0 && not (contains seeded idx))
              e.graph.node_indices c in
          elim (Bool-cases (contains seeded c)) [
            | inl there ↦ ground (
              arith,
              kept,
              there,
              seeded_once c,
              listed c,
              contains-count c seeded there,
              closed c (contains-count c seeded there),
            )
            | inr absent ↦ elim (Bool-cases (count c e.graph.node_indices == 0)) [
              | inl unlisted ↦ ground (arith, kept, unlisted, not-contains-count c seeded absent)
              | inr node ↦ ground (
                arith,
                kept,
                node,
                not-contains-count c seeded absent,
                laws.indices_once c,
                start_counters c (ground (arith, node)),
              )
            ]
          ]

    -- The run starts with every node either seeded, or ready if no parent is waited for, or neither.
    pub start-Inv :
        (results : HashMap Value) (seeded cache : List ℕ)
        → ((a : ℕ) → count a seeded ≤ count a e.graph.node_indices)
        → ((c : ℕ) → 0 < count c seeded → not_done seeded (e.graph.incoming c) ≡ 0)
        → ResultsKept e seeded results
        → Inv e seeded (record { reactor = start_reactor e results seeded cache; executing = [] })
    unfolding start_reactor
    start-Inv results seeded cache listed closed kept = record {
      counters = start_counters seeded listed closed;
      places = λ c. omega (arith, start_places seeded listed closed c);
      results = kept;
    }
