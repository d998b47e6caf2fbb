-- ===== src/Scheduler/Runs.antt =====
-- What every run of the scheduler loop over a plain graph does, from the start that the engine sets
-- up, with no pipelines.
use talos_workflow_engine.Base.{
  Option, ℕ, zero, suc, ◌+◌, ◌≤◌, ◌<◌, ◌≡◌, refl, ap, true, List, [], ◌∷◌, arith, Bool-cases, inl,
  inr, count, contains, not-contains-count,
}
use talos_workflow_engine.Base.HashMap
use talos_workflow_engine.Base.HashMap.{HashMap}
use talos_workflow_engine.Base.Json.{Value}
use talos_workflow_engine.Graph.{IsDiGraph}
use talos_workflow_engine.Engine.{Engine, Chains}
use talos_workflow_engine.Scheduler.{Run, start_reactor, Reach}
use talos_workflow_engine.Scheduler.Unchained.{Unchained, Reach-unchained}
use talos_workflow_engine.Scheduler.Plain.{IsPlain}
use talos_workflow_engine.Scheduler.Waiting.{not_done, done_of_not_done}
use talos_workflow_engine.Scheduler.Order.{Inv, open', ResultsKept, Reach-Inv}
use talos_workflow_engine.Scheduler.Start.{start-Inv}

-- The state before the loop's first turn.
abbrev pub start : Engine → HashMap Value → List ℕ → List ℕ → Run
start e results seeded cache = record {
  reactor = start_reactor e results seeded cache;
  executing = [];
}

-- The seeds of a run: listed nodes, each with all of its parents and with a result.
pub record IsSeed (e : Engine) (results : HashMap Value) (seeded : List ℕ) : Type 0 where
  pub listed : (a : ℕ) → count a seeded ≤ count a e.graph.node_indices
  pub closed : (c : ℕ) → 0 < count c seeded → not_done seeded (e.graph.incoming c) ≡ 0
  pub stored : ResultsKept e seeded results

not_done-zero :
    (done ps : List ℕ) → ((p : ℕ) → 0 < count p ps → 0 < count p done) → not_done done ps ≡ 0
not_done-zero done [] h = refl
not_done-zero done (q ∷ ps) h = elim (Bool-cases (contains done q)) [
  | inl there ↦ ground (arith, there, not_done-zero done ps (λ p k. h p (omega arith)))
  | inr absent ↦
      let here' : 0 < count q done = h q (ground arith) in
      absurd (omega (arith, not-contains-count q done absent))
]

module _ (e : Engine) (laws : IsDiGraph e.graph) (rank : ℕ → ℕ)
    (acyclic : (p c : ℕ) → 0 < count p (e.graph.incoming c) → rank p < rank c) (done : List ℕ)
    (idle : (c : ℕ) → count c done ≡ open' e done c) where
  below : (n c : ℕ) → rank c < n → 0 < count c e.graph.node_indices → 0 < count c done
  below zero c small listed = absurd (omega arith)
  below (suc n) c small listed =
      let free : not_done done (e.graph.incoming c) ≡ 0 =
        not_done-zero done (e.graph.incoming c) (λ p h.
          below n p (omega (arith, acyclic p c h))
            (laws.source_listed p c (omega (arith, laws.both_ends p c)))) in
      ground (arith, idle c, free)

module _ {e : Engine} (plain : IsPlain e) (laws : IsDiGraph e.graph) (execution_id : ℕ)
    (chains_ctx : Option Chains) (unchained : Unchained chains_ctx) {results : HashMap Value}
    {seeded : List ℕ} (cache : List ℕ) (seed : IsSeed e results seeded) where
  run-Inv :
      {done : List ℕ} {r : Run}
      → Reach e execution_id chains_ctx seeded (start e results seeded cache) done r
      → Inv e done r
  run-Inv steps =
      Reach-Inv e plain laws execution_id
        (start-Inv e laws results seeded cache seed.listed seed.closed seed.stored)
        (Reach-unchained e chains_ctx unchained execution_id steps)

  pub run_listed :
      {done : List ℕ} {r : Run}
      → Reach e execution_id chains_ctx seeded (start e results seeded cache) done r
      → (c : ℕ)
      → count c r.reactor.ready + count c r.executing + count c done ≤ count c e.graph.node_indices
  run_listed steps c = ground (arith, (run-Inv steps).places c)

  -- On a plain graph, in a run without pipelines from seeds whose parents are all seeded, each node is
  -- at every moment in at most one place, once: ready, under way or completed. So no node runs twice.
  pub run_once :
      {done : List ℕ} {r : Run}
      → Reach e execution_id chains_ctx seeded (start e results seeded cache) done r
      → (c : ℕ) → count c r.reactor.ready + count c r.executing + count c done ≤ 1
  run_once steps c = ground (arith, (run-Inv steps).places c)

  -- On a plain graph, in a run without pipelines from seeds whose parents are all seeded, whenever a
  -- node is ready, under way or completed, each of its parents has completed and has a result.
  pub parents_first :
      {done : List ℕ} {r : Run}
      → Reach e execution_id chains_ctx seeded (start e results seeded cache) done r
      → (c p : ℕ) → 0 < count c r.reactor.ready + count c r.executing + count c done
      → 0 < count p (e.graph.incoming c)
      → (0 < count p done) × (HashMap.contains_key r.reactor.results (e.graph.weight p) ≡ true)
  parents_first {done} {r} steps c p placed parent =
      let inv = run-Inv steps in
      let free : not_done done (e.graph.incoming c) ≡ 0 = ground (arith, inv.places c) in
      let completed = done_of_not_done done (e.graph.incoming c) p free parent in
      (completed, inv.results p completed)

  -- On a plain acyclic graph, a run without pipelines from seeds whose parents are all seeded cannot
  -- end early: when no node is ready and none is under way, every node has completed and has a result.
  pub all_completed :
      {done : List ℕ} {r : Run}
      → Reach e execution_id chains_ctx seeded (start e results seeded cache) done r
      → (rank : ℕ → ℕ) → ((p c : ℕ) → 0 < count p (e.graph.incoming c) → rank p < rank c)
      → r.reactor.ready ≡ []
      → r.executing ≡ []
      → (c : ℕ) → 0 < count c e.graph.node_indices
      → (0 < count c done) × (HashMap.contains_key r.reactor.results (e.graph.weight c) ≡ true)
  all_completed {done} {r} steps rank acyclic idle empty c listed =
      let inv = run-Inv steps in
      let completed =
        below e laws rank acyclic done
          (λ n. ground (arith, inv.places n, ap (count n) idle, ap (count n) empty)) (suc (rank c))
          c (omega arith) listed in
      (completed, inv.results c completed)
