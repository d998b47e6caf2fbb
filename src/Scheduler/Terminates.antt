-- ===== src/Scheduler/Terminates.antt =====
-- The scheduler loop ends: the number of turns that a run over a plain graph can take.
use mathlib.Core.Path.{subst}
use talos_workflow_engine.Base.{
  Option, ℕ, suc, ◌+◌, ◌*◌, ◌≤◌, ◌<◌, ap, none, List, arith, length, length-le_of_count,
  length-erase, count-append, ◌++◌, length-append,
}
use talos_workflow_engine.Base.HashMap.{HashMap}
use talos_workflow_engine.Base.Json.{Value}
use talos_workflow_engine.Graph.{IsDiGraph}
use talos_workflow_engine.Engine.{Engine, Chains}
use talos_workflow_engine.Scheduler.{
  Run, take_ready, handle_ready, Step, spawn, settle, finish, Reach, here, next,
}
use talos_workflow_engine.Scheduler.Unchained.{Unchained, Step-unchained}
use talos_workflow_engine.Scheduler.Plain.{IsPlain}
use talos_workflow_engine.Scheduler.Completes.{
  handle_ready-Completes, finish_task-Completes, running-injective,
}
use talos_workflow_engine.Scheduler.Runs.{start, IsSeed, run_listed}

weight : List ℕ → Run → ℕ
weight done r = 2 * length done + length r.executing

module _ {e : Engine} (execution_id : ℕ) (plain : IsPlain e) (laws : IsDiGraph e.graph) where
  weight-Step :
      {done done' : List ℕ} {r r' : Run}
      → Step e execution_id none done r done' r'
      → weight done r < weight done' r'
  unfolding weight handle_ready take_ready
  weight-Step {done} {done'} {r} {r'} (spawn idx h k) =
      subst (λ q. weight done r < weight done q) (running-injective k) (omega arith)
  weight-Step {done} {done'} {r} {r'} (settle idx h there local k) =
      let (completes, same) =
        handle_ready-Completes plain laws execution_id idx h (take_ready idx r) r' local k in
      omega (arith, ap length same)
  weight-Step {done} {done'} {r} {r'} (finish idx result wall_time_ms there k) =
      let (completes, same) =
        finish_task-Completes plain laws execution_id idx result wall_time_ms r r' k in
      omega (arith, ap length same, length-erase idx r.executing there)

module _ {e : Engine} (execution_id : ℕ) {chains_ctx : Option Chains} where
  -- How many turns a run has taken.
  abbrev pub turns :
      {done : List ℕ} {r : Run} {done' : List ℕ} {r' : Run}
      → Reach e execution_id chains_ctx done r done' r'
      → ℕ
  turns here = 0
  turns (next steps step) = suc (turns steps)

  module _ (plain : IsPlain e) (laws : IsDiGraph e.graph) (unchained : Unchained chains_ctx) where
    weight-Reach :
        {done : List ℕ} {r : Run} {done' : List ℕ} {r' : Run}
        → (steps : Reach e execution_id chains_ctx done r done' r')
        → weight done r + turns steps ≤ weight done' r'
    weight-Reach here = omega arith
    weight-Reach (next steps step) = omega (
      arith,
      weight-Reach steps,
      weight-Step execution_id plain laws (Step-unchained e chains_ctx unchained execution_id step),
    )

    -- On a plain graph, every run without pipelines from seeds whose parents are all seeded ends: it
    -- takes at most two turns for each node that is not seeded.
    pub turns-bound :
        {results : HashMap Value} {seeded : List ℕ} (cache : List ℕ)
        (seed : IsSeed e results seeded) {done : List ℕ} {r : Run}
        (steps : Reach e execution_id chains_ctx seeded (start e results seeded cache) done r)
        → turns steps + 2 * length seeded ≤ 2 * length e.graph.node_indices
    unfolding weight
    turns-bound {results} {seeded} cache seed {done} {r} steps =
        let fits : length (r.executing ++ done) ≤ length e.graph.node_indices =
          length-le_of_count (r.executing ++ done) e.graph.node_indices (λ c. omega (
            arith,
            count-append c r.executing done,
            run_listed plain laws execution_id chains_ctx unchained cache seed steps c,
          )) in
        omega (arith, weight-Reach steps, fits, length-append r.executing done)
