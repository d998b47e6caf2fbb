-- ===== src/Scheduler/Order.antt =====
-- The order in which the reactor runs the nodes of a plain graph, without pipelines: every node once,
-- after all of its parents, and none left out.
use mathlib.Core.Path.{subst}
use talos_workflow_engine.Base.{
  ℕ, ◌+◌, ◌<◌, ◌≡◌, sym, ap, ◌∙◌, inl, inr, true, false, ◌&&◌, none, some, List, ◌∷◌, arith, ◌==◌,
  ==_iff, ltb, Bool-cases, count, bit, contains, erase, count-erase,
}
use talos_workflow_engine.Base.HashMap
use talos_workflow_engine.Base.HashMap.{HashMap}
use talos_workflow_engine.Base.Json.{Value}
use talos_workflow_engine.Graph.{IsDiGraph}
use talos_workflow_engine.Engine.{Engine, Reactor}
use talos_workflow_engine.Completion.Failure.{Completed}
use talos_workflow_engine.Scheduler.{
  Handling, spawned, IsLocal, Run, running, take_ready, handle_ready, Step, spawn, settle, finish,
  finish_task, Reach, here, next,
}
use talos_workflow_engine.Scheduler.Release.{ReleasedAll}
use talos_workflow_engine.Scheduler.Plain.{IsPlain}
use talos_workflow_engine.Scheduler.Completes.{
  Completes, handle_ready-Completes, finish_task-Completes, running-injective,
}
use talos_workflow_engine.Scheduler.Waiting.{not_done, not_done-cons, not_done-le, not-contains}

Run-eta :
    (r : Run) (executing : List ℕ)
    → r.executing ≡ executing
    → r ≡ record { reactor = r.reactor; executing = executing }
Run-eta r executing h = λ i. record { reactor = r.reactor; executing = h i }

module _ (e : Engine) where
  -- The node may run: it is listed and no parent is waited for.
  abbrev pub open' : List ℕ → ℕ → ℕ
  open' done c =
      bit (ltb 0 (count c e.graph.node_indices) && not_done done (e.graph.incoming c) == 0)

  abbrev CountersRight : List ℕ → HashMap ℕ → Type 0
  CountersRight done pending =
      (c : ℕ)
      → 0 < count c e.graph.node_indices
      → HashMap.get pending c ≡ some (not_done done (e.graph.incoming c))

  abbrev pub ResultsKept : List ℕ → HashMap Value → Type 0
  ResultsKept done results =
      (c : ℕ) → 0 < count c done → HashMap.contains_key results (e.graph.weight c) ≡ true

  pub record Inv (done : List ℕ) (r : Run) : Type 0 where
    pub counters : CountersRight done r.reactor.pending
    pub places :
        (c : ℕ) → count c r.reactor.ready + count c r.executing + count c done ≡ open' done c
    pub results : ResultsKept done r.reactor.results

  -- Between the removal of `idx` from its place and its completion.
  record Taken (done : List ℕ) (idx : ℕ) (s : Reactor) (executing : List ℕ) : Type 0 where
    counters : CountersRight done s.pending
    places :
        (c : ℕ) → count c s.ready + count c executing + count c done + bit (idx == c) ≡ open' done c
    results : ResultsKept done s.results

  module _ (laws : IsDiGraph e.graph) {done : List ℕ} {idx : ℕ} {s s' : Reactor}
      {executing : List ℕ} (taken : Taken done idx s executing)
      (completes : Completes e idx s s') where
    new : contains done idx ≡ false
    new = not-contains done idx (ground (arith, taken.places idx))

    edges_left :
        (c : ℕ)
        → not_done (idx ∷ done) (e.graph.incoming c) + count c (e.graph.outgoing idx)
          ≡ not_done done (e.graph.incoming c)
    edges_left c =
        omega (arith, laws.both_ends idx c, not_done-cons done idx (e.graph.incoming c) new)

    listed : (c : ℕ) → 0 < count c (e.graph.outgoing idx) → 0 < count c e.graph.node_indices
    listed c h = laws.target_listed idx c h

    all_released :
        ReleasedAll (e.graph.outgoing idx) (λ j. not_done done (e.graph.incoming j)) s s'
        × (HashMap.contains_key s'.results (e.graph.weight idx) ≡ true)
    all_released =
        completes.released (λ j. not_done done (e.graph.incoming j))
          (λ j h. taken.counters j (listed j h)) (λ j. omega (arith, edges_left j))
          (λ j. omega (arith, not_done-le done (e.graph.incoming j), laws.few_edges j))

    counters_after : CountersRight (idx ∷ done) s'.pending
    counters_after c h = elim (Bool-cases (count c (e.graph.outgoing idx) == 0)) [
      | inl apart ↦
          let none_there : count c (e.graph.outgoing idx) ≡ 0 = ground arith in
          let same : not_done (idx ∷ done) (e.graph.incoming c)
              ≡ not_done done (e.graph.incoming c) =
            omega (arith, edges_left c) in
          all_released.0.other c none_there ∙ taken.counters c h ∙ ap some (sym same)
      | inr child ↦
          let there : 0 < count c (e.graph.outgoing idx) = ground arith in
          all_released.0.at c there ∙ ap some (omega (arith, edges_left c))
    ]

    places_after :
        (c : ℕ) → count c s'.ready + count c executing + count c (idx ∷ done) ≡ open' (idx ∷ done) c
    places_after c = elim (Bool-cases (count c (e.graph.outgoing idx) == 0)) [
      | inl apart ↦ ground (arith, edges_left c, all_released.0.queued c, taken.places c)
      | inr child ↦ ground (arith, edges_left c, all_released.0.queued c, taken.places c, listed c)
    ]

    results_after : ResultsKept (idx ∷ done) s'.results
    results_after c h = elim (Bool-cases (idx == c)) [
      | inl same ↦ let e' : idx ≡ c = (==_iff idx c).0 same in rw (← e') all_released.1
      | inr other ↦ all_released.0.kept (e.graph.weight c) (taken.results c (ground arith))
    ]

    Taken-Inv : Inv (idx ∷ done) (record { reactor = s'; executing = executing })
    Taken-Inv = record { counters = counters_after; places = places_after; results = results_after }

  module _ (plain : IsPlain e) (laws : IsDiGraph e.graph) (execution_id : ℕ) where
    spawn-Inv :
        {done : List ℕ} {r r' : Run} (idx : ℕ)
        → Inv done r
        → 0 < count idx r.reactor.ready
        → handle_ready e execution_id none idx spawned (take_ready idx r) ≡ running r'
        → Inv done r'
    unfolding handle_ready take_ready
    spawn-Inv {done} {r} {r'} idx inv h k = subst (Inv done) (running-injective k) (record {
      counters = inv.counters;
      places = λ c. omega (arith, inv.places c, count-erase idx c r.reactor.ready h);
      results = inv.results;
    })

    settle-Inv :
        {done : List ℕ} {r r' : Run} (idx : ℕ) (h : Handling)
        → Inv done r
        → 0 < count idx r.reactor.ready
        → IsLocal h
        → handle_ready e execution_id none idx h (take_ready idx r) ≡ running r'
        → Inv (idx ∷ done) r'
    unfolding take_ready
    settle-Inv {done} {r} {r'} idx h inv there local k =
        let (completes, same) =
          handle_ready-Completes plain laws execution_id idx h (take_ready idx r) r' local k in
        rw (Run-eta r' r.executing same) (
          Taken-Inv laws
            (record {
              counters = inv.counters;
              places = λ c. omega (arith, inv.places c, count-erase idx c r.reactor.ready there);
              results = inv.results;
            })
            completes)

    finish-Inv :
        {done : List ℕ} {r r' : Run} (idx : ℕ) (result : Completed) (wall_time_ms : ℕ)
        → Inv done r
        → 0 < count idx r.executing
        → finish_task e execution_id none idx result wall_time_ms r ≡ running r'
        → Inv (idx ∷ done) r'
    finish-Inv {done} {r} {r'} idx result wall_time_ms inv there k =
        let (completes, same) =
          finish_task-Completes plain laws execution_id idx result wall_time_ms r r' k in
        rw (Run-eta r' (erase idx r.executing) same) (
          Taken-Inv laws
            (record {
              counters = inv.counters;
              places = λ c. omega (arith, inv.places c, count-erase idx c r.executing there);
              results = inv.results;
            })
            completes)

    Step-Inv :
        {done done' : List ℕ} {r r' : Run}
        → Step e execution_id none done r done' r'
        → Inv done r
        → Inv done' r'
    Step-Inv (spawn idx h k) inv = spawn-Inv idx inv h k
    Step-Inv (settle idx h there local k) inv = settle-Inv idx h inv there local k
    Step-Inv (finish idx result wall_time_ms there k) inv =
        finish-Inv idx result wall_time_ms inv there k

    pub Reach-Inv :
        {done : List ℕ} {r : Run} {done' : List ℕ} {r' : Run}
        → Inv done r
        → Reach e execution_id none done r done' r'
        → Inv done' r'
    Reach-Inv inv here = inv
    Reach-Inv inv (next steps step) = Step-Inv step (Reach-Inv inv steps)
