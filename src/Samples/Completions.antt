-- ===== src/Samples/Completions.antt =====
-- Nodes that succeed and fail, with successors on plain and on error edges, and a node with a join.
use talos_workflow_engine.Base.{◌+◌, ◌≡◌, ◌↔◌, refl, none, some, [], ◌∷◌, arith, count}
use talos_workflow_engine.Base.HashMap
use talos_workflow_engine.Base.HashMap.{HashMap}
use talos_workflow_engine.Base.Json.{null}
use talos_workflow_engine.Graph.{edge_limit}
use talos_workflow_engine.Graph.Edges.{graph_of}
use talos_workflow_engine.Engine.{
  Engine, Reactor, SystemNodeKind, fan_in, any, apply_fan_in_early_ready, node_kind,
}
use talos_workflow_engine.Sanitize.{sanitize_node_output}
use talos_workflow_engine.Completion.{
  Outcome, going, failed, panicked, skipped, guard_size, handle_node_success, success_child,
  has_error_edge, condition_failed, skip_child,
}
use talos_workflow_engine.Completion.Failure.{handle_node_failure, scrub, has_error_children}
use talos_workflow_engine.Completion.Routing.{
  handle_node_success-skips, handle_node_failure-blocked,
}
use talos_workflow_engine.Completion.Outcomes.{handle_node_failure-scrubbed}
use talos_workflow_engine.Completion.FanIn.{
  Enough, apply_fan_in_early_ready-Enough, success_child-any_again,
}
use talos_workflow_engine.Completion.Skips.{skip_child-stranded}
use talos_workflow_engine.Scheduler.{start_reactor}
use talos_workflow_engine.Scheduler.Start.{seed_pending-count}
use talos_workflow_engine.Samples.{plain_edge, error_edge, engine_of, triangle, triangle-IsDiGraph}

-- 0 leads to 1, and to 2 if it fails.
abbrev handled : Engine
handled = engine_of (graph_of (0 ∷ 1 ∷ 2 ∷ []) (error_edge 0 2 ∷ plain_edge 0 1 ∷ []))

begin : Reactor
unfolding start_reactor HashMap.get HashMap.insert HashMap.get_or
begin = start_reactor handled [] [] []

reactor_of : Outcome → Reactor → Reactor
reactor_of (going s) d = s
reactor_of (failed s m) d = s
reactor_of panicked d = d

after_success : Reactor
unfolding handle_node_success begin sanitize_node_output apply_fan_in_early_ready reactor_of
after_success = reactor_of (handle_node_success handled 0 null 7 5 none begin) begin

after_failure : Reactor
unfolding handle_node_failure begin apply_fan_in_early_ready reactor_of
after_failure = reactor_of (handle_node_failure handled 0 "boom" 7 5 none begin) begin

handle_node_success-skips_example : HashMap.get after_success.results 102 ≡ some skipped
unfolding after_success has_error_edge guard_size
handle_node_success-skips_example =
    handle_node_success-skips handled 0 7 5 none begin after_success null null 2 refl refl
      (omega arith) refl

handle_node_failure-blocked_example : count 1 after_failure.ready ≡ count 1 begin.ready
unfolding after_failure has_error_edge has_error_children
handle_node_failure-blocked_example =
    handle_node_failure-blocked handled 0 7 5 none begin after_failure "boom" 1 refl refl refl

handle_node_failure-scrubbed_example :
    handle_node_failure handled 0 "password=a" 7 5 none begin
    ≡ handle_node_failure handled 0 "password=b" 7 5 none begin
unfolding scrub
handle_node_failure-scrubbed_example =
    handle_node_failure-scrubbed handled 0 7 5 none "password=a" "password=b" begin refl

seed_pending-count_example :
    HashMap.get
      (talos_workflow_engine.Scheduler.seed_pending
        (engine_of triangle)
        (0 ∷ [])
        (talos_workflow_engine.Scheduler.initial_pending (engine_of triangle)))
      2
    ≡ some 1
seed_pending-count_example =
    seed_pending-count (engine_of triangle) triangle-IsDiGraph (0 ∷ []) 2 (λ a. ground arith)
      (omega arith)

skip_child-stranded_example :
    (HashMap.get
        (skip_child (engine_of triangle) 1 (record begin { pending = (2, 1) ∷ [] })).pending
        2
      ≡ some 0)
    × (count 2 (skip_child (engine_of triangle) 1 (record begin { pending = (2, 1) ∷ [] })).ready
        ≡ count 2 begin.ready)
unfolding HashMap.get
skip_child-stranded_example =
    skip_child-stranded (engine_of triangle) 1 2 (record begin { pending = (2, 1) ∷ [] }) 1 refl
      (omega arith)

-- In the triangle, node 2 joins its parents.
abbrev joining : SystemNodeKind → Engine
joining kind = record (engine_of triangle) {
  node_meta = (102, record { module_id = none; retry_policy = none; kind = some kind }) ∷ [];
}

apply_fan_in_early_ready-Enough_example :
    (HashMap.get (apply_fan_in_early_ready (joining (fan_in any none)) 2 ((2, 1) ∷ [])) 2 ≡ some 0)
    ↔ Enough any 2 1
unfolding node_kind HashMap.get edge_limit
apply_fan_in_early_ready-Enough_example =
    apply_fan_in_early_ready-Enough (joining (fan_in any none)) 2 any none refl ((2, 1) ∷ []) 1 refl
      (omega arith) (omega arith) (omega arith)

success_child-any_again_example :
    count 2
      (success_child
        (joining (fan_in any none))
        1
        null
        2
        (record begin { pending = (2, 0) ∷ [] })).ready
    ≡ count 2 begin.ready + 1
unfolding node_kind HashMap.get has_error_edge condition_failed
success_child-any_again_example =
    success_child-any_again (joining (fan_in any none)) 1 2 null none
      (record begin { pending = (2, 0) ∷ [] }) refl refl refl refl
