-- ===== src/Samples/Runs.antt =====
-- A whole run of the scheduler loop over a graph of three nodes.
use talos_workflow_engine.Base.{
  ℕ, ◌+◌, ◌≤◌, ◌<◌, ◌≡◌, ◌≢◌, String, refl, true, none, [], ◌∷◌, arith, count,
}
use talos_workflow_engine.Base.HashMap
use talos_workflow_engine.Base.HashMap.{HashMap}
use talos_workflow_engine.Base.Json.{null}
use talos_workflow_engine.Graph.Edges.{connecting-All}
use talos_workflow_engine.Engine.{Engine, node_kind, apply_fan_in_early_ready}
use talos_workflow_engine.Sanitize.{sanitize_node_output}
use talos_workflow_engine.Completion.Failure.{ok}
use talos_workflow_engine.Scheduler.{
  Run, Turn, running, spawned, start_reactor, spawn, finish, Reach, here, next, handle_ready,
  finish_task, take_ready,
}
use talos_workflow_engine.Scheduler.Plain.{IsPlain}
use talos_workflow_engine.Scheduler.Runs.{start, IsSeed, run_once, parents_first, all_completed}
use talos_workflow_engine.Scheduler.Terminates.{turns, turns-bound}
use talos_workflow_engine.Samples.{engine_of, triangle_edges, triangle, triangle-IsDiGraph}

abbrev engine : Engine
engine = engine_of triangle

differs : ◌≢◌ {A = String} "default" "error"
differs h = cc

engine-IsPlain : IsPlain engine
unfolding node_kind HashMap.get
engine-IsPlain = record {
  edges = λ p c.
      connecting-All (λ l. (l.edge_type ≢ "error") × (l.condition ≡ none)) triangle_edges p c
        ((differs, refl), ((differs, refl), ((differs, refl), tt)));
  joins = λ c mode expr h. cc;
}

no-IsSeed : IsSeed engine [] []
no-IsSeed = record {
  listed = λ a. omega arith;
  closed = λ c h. absurd (omega arith);
  stored = λ c h. absurd (omega arith);
}

abbrev begin : Run
begin = start engine [] [] []

run_of : Turn → Run → Run
run_of (running r) d = r
run_of _ d = d

spawned_run : ℕ → Run → Run
unfolding handle_ready take_ready run_of
spawned_run idx r = run_of (handle_ready engine 7 none idx spawned (take_ready idx r)) r

finished_run : ℕ → Run → Run
unfolding finish_task run_of
finished_run idx r = run_of (finish_task engine 7 none idx (ok null) 5 r) r

abbrev two_turns : Run
two_turns = finished_run 0 (spawned_run 0 begin)

abbrev whole_run : Run
whole_run = finished_run 2 (spawned_run 2 (finished_run 1 (spawned_run 1 two_turns)))

two_steps : Reach engine 7 none [] begin (0 ∷ []) two_turns
unfolding start_reactor spawned_run finished_run sanitize_node_output HashMap.get HashMap.insert
    HashMap.get_or apply_fan_in_early_ready
two_steps = next (next here (spawn 0 (omega arith) refl)) (finish 0 (ok null) 5 (omega arith) refl)

all_steps : Reach engine 7 none [] begin (2 ∷ 1 ∷ 0 ∷ []) whole_run
unfolding start_reactor spawned_run finished_run sanitize_node_output HashMap.get HashMap.insert
    HashMap.get_or apply_fan_in_early_ready
all_steps =
    next
      (next
        (next (next two_steps (spawn 1 (omega arith) refl))
          (finish 1 (ok null) 5 (omega arith) refl))
        (spawn 2 (omega arith) refl))
      (finish 2 (ok null) 5 (omega arith) refl)

run_once_example :
    count 1 two_turns.reactor.ready + count 1 two_turns.executing + count 1 (0 ∷ []) ≤ 1
run_once_example = run_once engine-IsPlain triangle-IsDiGraph 7 none tt [] no-IsSeed two_steps 1

parents_first_example :
    (0 < count 0 (0 ∷ [])) × (HashMap.contains_key two_turns.reactor.results 100 ≡ true)
unfolding start_reactor spawned_run finished_run sanitize_node_output HashMap.get HashMap.insert
    HashMap.get_or apply_fan_in_early_ready
parents_first_example =
    parents_first engine-IsPlain triangle-IsDiGraph 7 none tt [] no-IsSeed two_steps 1 0
      (omega arith) (omega arith)

all_completed_example :
    (0 < count 2 (2 ∷ 1 ∷ 0 ∷ [])) × (HashMap.contains_key whole_run.reactor.results 102 ≡ true)
unfolding start_reactor spawned_run finished_run sanitize_node_output HashMap.get HashMap.insert
    HashMap.get_or apply_fan_in_early_ready
all_completed_example =
    all_completed engine-IsPlain triangle-IsDiGraph 7 none tt [] no-IsSeed all_steps (λ i. i)
      (λ p c h. ground arith) refl refl 2 (omega arith)

turns-bound_example : turns 7 all_steps + 0 ≤ 6
turns-bound_example = turns-bound 7 engine-IsPlain triangle-IsDiGraph tt [] no-IsSeed all_steps
