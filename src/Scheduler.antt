-- ===== src/Scheduler.antt =====
-- `run_scheduler_loop` of talos-workflow-engine/src/engine.rs: the counters and queues that it sets
-- up, and what its main loop does with a ready node and with a finished task.
pub mod Release
pub mod Plain
pub mod Quiet
pub mod Completes
pub mod Waiting
pub mod Order
pub mod Start
pub mod Unchained
pub mod Runs
pub mod Terminates
use talos_workflow_engine.Base.{
  ℕ, zero, suc, ◌+◌, ◌<◌, String, ◌≡◌, Bool, true, false, not, ◌&&◌, Option, none, some, List, [],
  ◌∷◌, ◌==◌, if◌then◌else◌, length, count, contains, erase, fold, all, retain, head_or,
}
use talos_workflow_engine.Base.HashMap
use talos_workflow_engine.Base.HashMap.{HashMap}
use talos_workflow_engine.Base.Json.{Value}
use talos_workflow_engine.Graph.{in_degree}
use talos_workflow_engine.Engine.{Engine, Reactor, Chains, NodeMeta}
use talos_workflow_engine.Completion.{
  Outcome, going, failed, panicked, decrement, put_result, unblock_successors,
}
use talos_workflow_engine.Completion.Failure.{
  Completed, ok, err, handle_completed_future, route_system_node_output,
}

module _ (e : Engine) where
  -- Only module-backed nodes belong in a pipeline.
  is_module_node : ℕ → Bool
  is_module_node idx = elim (HashMap.get e.node_meta (e.graph.weight idx)) [
    | none ↦ false
    | some m ↦ elim m.module_id [
      | none ↦ false
      | some _ ↦ elim m.kind [ none ↦ true | some _ ↦ false ]
    ]
  ]

  unfoldable pub module_chains : List (List ℕ) → List (List ℕ)
  unfolding is_module_node
  module_chains chains = retain (λ chain. all is_module_node chain) chains

  -- The two maps that the loop over the chains fills.
  chain_index : ℕ → List (List ℕ) → HashMap ℕ → HashMap ℕ
  chain_index k [] m = m
  chain_index k (chain ∷ chains) m =
      chain_index (k + 1) chains (fold (λ n m'. HashMap.insert m' n k) chain m)

  chain_heads : List (List ℕ) → List ℕ
  chain_heads [] = []
  chain_heads (chain ∷ chains) = head_or chain 0 ∷ chain_heads chains

  unfoldable pub number_chains : List (List ℕ) → Chains
  unfolding chain_index
  number_chains chains = record { chains = chains; node_to_chain = chain_index 0 chains [] }

  count_parents : ℕ → HashMap ℕ → HashMap ℕ
  unfolding in_degree
  count_parents idx pending = HashMap.insert pending idx (in_degree e.graph idx)

  -- The in-degree counters.
  unfoldable pub initial_pending : HashMap ℕ
  unfolding count_parents
  initial_pending = fold count_parents e.graph.node_indices []

  seed_node : ℕ → HashMap ℕ → HashMap ℕ
  unfolding decrement
  seed_node idx pending = fold decrement (e.graph.outgoing idx) (HashMap.insert pending idx 0)

  -- The loop over the seeded nodes, in the order in which the hash map lists them.
  unfoldable pub seed_pending : List ℕ → HashMap ℕ → HashMap ℕ
  unfolding seed_node
  seed_pending seeded pending = fold seed_node seeded pending

  -- The nodes to start with: no pending parent, and not seeded.
  unfoldable pub initial_ready : List ℕ → HashMap ℕ → List ℕ
  initial_ready seeded pending =
      retain (λ idx. HashMap.get_or pending idx 1 == 0 && not (contains seeded idx))
        e.graph.node_indices

  unfoldable pub start_reactor : HashMap Value → List ℕ → List ℕ → Reactor
  unfolding initial_pending seed_pending initial_ready
  start_reactor results seeded prefetch_cache =
      let pending = seed_pending seeded initial_pending in
      record {
        results = results;
        pending = pending;
        ready = initial_ready seeded pending;
        events = [];
        hooks = [];
        prefetch_cache = prefetch_cache;
      }

-- What the handlers decide for a node that the loop pops: they computed its output themselves; they
-- hand an output to `route_system_node_output`, or an error to `handle_completed_future`; they pause
-- the run; they end it with an error; or the node becomes a task.
pub data Handling : Type 0 where
  settled : Value → Handling
  routed : Value → Handling
  rejected : String → Handling
  paused : Value → Handling
  aborted : String → Handling
  spawned : Handling

-- The handler completed the node itself.
abbrev pub IsLocal : Handling → Type 0
IsLocal spawned = ⊥
IsLocal _ = Unit

-- The reactor and the tasks under way, each by the index of its node.
pub record Run : Type 0 where
  pub reactor : Reactor
  pub executing : List ℕ

pub data Turn : Type 0 where
  running : Run → Turn
  waiting : Reactor → Turn
  errored : Reactor → String → Turn
  crashed : Turn

unfoldable pub turn_of : List ℕ → Outcome → Turn
turn_of executing (going s) = running (record { reactor = s; executing = executing })
turn_of executing (failed s msg) = errored s msg
turn_of executing panicked = crashed

-- A ready node leaves the queue.
unfoldable pub take_ready : ℕ → Run → Run
take_ready idx r = record r { reactor = record r.reactor { ready = erase idx r.reactor.ready } }

module _ (e : Engine) (execution_id : ℕ) (chains_ctx : Option Chains) where
  -- The body of the inner loop, after `ready.pop_front()` or the drain for sub-workflows took `idx`.
  unfoldable pub handle_ready : ℕ → Handling → Run → Turn
  unfolding put_result unblock_successors turn_of route_system_node_output handle_completed_future
  handle_ready idx (settled output) r = running (record r {
    reactor = unblock_successors e idx (put_result (e.graph.weight idx) output r.reactor);
  })
  handle_ready idx (routed output) r =
      turn_of r.executing (route_system_node_output e idx output execution_id chains_ctx r.reactor)
  handle_ready idx (rejected msg) r =
      turn_of r.executing
        (handle_completed_future e idx (err msg) execution_id 0 chains_ctx r.reactor)
  handle_ready idx (paused output) r = waiting (put_result (e.graph.weight idx) output r.reactor)
  handle_ready idx (aborted msg) r = errored r.reactor msg
  handle_ready idx spawned r = running (record r { executing = idx ∷ r.executing })

  -- The outer loop's turn, with the task that `executing.next()` returns.
  unfoldable pub finish_task : ℕ → Completed → ℕ → Run → Turn
  unfolding turn_of handle_completed_future
  finish_task idx result wall_time_ms r =
      turn_of (erase idx r.executing)
        (handle_completed_future e idx result execution_id wall_time_ms chains_ctx r.reactor)

  -- The turns of the loop that go on, from the nodes that have completed and the run to the same after
  -- it. Which node the queue yields, what its handler decides and which task finishes with which
  -- result are left open, so every run of the loop is a sequence of these.
  pub data Step (done : List ℕ) (r : Run) : List ℕ → Run → Type 0 where
    spawn :
        (idx : ℕ) {r' : Run}
        → 0 < count idx r.reactor.ready
        → handle_ready idx spawned (take_ready idx r) ≡ running r'
        → Step done r done r'
    settle :
        (idx : ℕ) (h : Handling) {r' : Run}
        → 0 < count idx r.reactor.ready
        → IsLocal h
        → handle_ready idx h (take_ready idx r) ≡ running r'
        → Step done r (idx ∷ done) r'
    finish :
        (idx : ℕ) (result : Completed) (wall_time_ms : ℕ) {r' : Run}
        → 0 < count idx r.executing
        → finish_task idx result wall_time_ms r ≡ running r'
        → Step done r (idx ∷ done) r'

  pub data Reach (done : List ℕ) (r : Run) : List ℕ → Run → Type 0 where
    here : Reach done r done r
    next :
        {done' done'' : List ℕ} {r' r'' : Run}
        → Reach done r done' r'
        → Step done' r' done'' r''
        → Reach done r done'' r''
