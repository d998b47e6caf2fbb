-- ===== src/Scheduler/Completes.antt =====
-- Every turn that completes a node of a plain graph releases its successors and stores a result.
use mathlib.Core.Path.{subst}
use text.Mathlib.TextEquality.{eq_iff}
use talos_workflow_engine.Base.{
  ℕ, ◌≤◌, ◌<◌, String, ◌≡◌, refl, sym, ap, ◌∙◌, ◌≢◌, inl, inr, true, false, none, some, List, [],
  ◌∷◌, arith, any, All, Bool-cases, Option-cases, count, fold, erase,
}
use talos_workflow_engine.Base.HashMap
use talos_workflow_engine.Base.HashMap.{HashMap, get-insert}
use talos_workflow_engine.Base.Json.{Value, flag}
use talos_workflow_engine.Graph.{EdgeLogic, IsDiGraph, Listed, edge_limit}
use talos_workflow_engine.Engine.{Engine, Reactor, on_node_completed}
use talos_workflow_engine.Sanitize.{sanitize_node_output}
use talos_workflow_engine.Completion.{
  Outcome, going, failed, panicked, put_result, emit, call_hook, is_error_edge, unblock_successor,
  success_child, guard_size, handle_node_success, node_event, completion_context,
  extract_non_transient_class,
}
use talos_workflow_engine.Completion.Failure.{
  Completed, ok, err, has_error_children, found_error_edge, continue_child, continue_past, give_up,
  continues_on_error, continued_payload, scrub, handle_node_failure, handle_completed_future,
  route_system_node_output, rejection_message,
}
use talos_workflow_engine.Scheduler.{
  Handling, settled, routed, rejected, paused, aborted, spawned, IsLocal, Run, running, turn_of,
  handle_ready, finish_task,
}
use talos_workflow_engine.Scheduler.Release.{ReleasedAll, Releases, fold-ReleasedAll}
use talos_workflow_engine.Scheduler.Plain.{
  IsPlain, success_child-Releases, continue_child-Releases, unblock_successor-Releases,
}
use talos_workflow_engine.Scheduler.Quiet.{
  Quiet, Quiet-trans, contains_key-insert, put_result-Quiet, emit-Quiet, call_hook-Quiet,
}

-- Whatever the counters of the node's successors are: they are released, and the node has a result.
pub record Completes (e : Engine) (idx : ℕ) (s s' : Reactor) : Type 0 where
  pub released :
      (m : ℕ → ℕ)
      → ((j : ℕ) → 0 < count j (e.graph.outgoing idx) → HashMap.get s.pending j ≡ some (m j))
      → ((j : ℕ) → count j (e.graph.outgoing idx) ≤ m j)
      → ((j : ℕ) → m j ≤ edge_limit)
      → ReleasedAll (e.graph.outgoing idx) m s s'
        × (HashMap.contains_key s'.results (e.graph.weight idx) ≡ true)

ReleasedAll-Quiet :
    {cs : List ℕ} {m : ℕ → ℕ} {s s' s'' : Reactor}
    → Quiet s s'
    → ReleasedAll cs m s' s''
    → ReleasedAll cs m s s''
ReleasedAll-Quiet q r = record {
  at = r.at;
  other = λ j h. r.other j h ∙ ap (λ p. HashMap.get p j) q.pending;
  queued = λ a. rw (← q.ready) (r.queued a);
  kept = λ k h. r.kept k (q.kept k h);
}

fold-Completes :
    (e : Engine) (f : ℕ → Reactor → Reactor) (idx : ℕ) {s s' : Reactor}
    → Releases f
    → Quiet s s'
    → HashMap.contains_key s'.results (e.graph.weight idx) ≡ true
    → Completes e idx s (fold f (e.graph.outgoing idx) s')
fold-Completes e f idx {s} {s'} releases quiet has = record {
  released = λ m counters enough small.
      let all_released =
        fold-ReleasedAll f releases (e.graph.outgoing idx) m s'
          (λ j h. ap (λ p. HashMap.get p j) quiet.pending ∙ counters j h) enough small in
      (ReleasedAll-Quiet quiet all_released, all_released.kept (e.graph.weight idx) has);
}

put_result-stored :
    (id : ℕ) (v : Value) (s : Reactor) → HashMap.contains_key (put_result id v s).results id ≡ true
unfolding put_result
put_result-stored id v s = contains_key-insert s.results id v

going-injective : {s s' : Reactor} → going s ≡ going s' → s ≡ s'
going-injective h = cc

Listed-plain :
    (ls : List EdgeLogic) (l : EdgeLogic)
    → All (λ x. (x.edge_type ≢ "error") × (x.condition ≡ none)) ls
    → Listed l ls
    → is_error_edge l ≡ false
unfolding is_error_edge
Listed-plain [] l h m = absurd m
Listed-plain (x ∷ ls) l h (inl e) = rw (← e) (ground (arith, eq_iff x.edge_type "error", h.0))
Listed-plain (x ∷ ls) l h (inr m) = Listed-plain ls l h.1 m

pub running-injective : {r r' : Run} → running r ≡ running r' → r ≡ r'
running-injective h = cc

-- An outcome that goes on completes the node.
Fine : Engine → ℕ → Reactor → Outcome → Type 0
Fine e idx s o = (s' : Reactor) → o ≡ going s' → Completes e idx s s'

settle-Completes :
    (e : Engine) (idx : ℕ) (v : Value) (s : Reactor)
    → Completes e idx s
        (fold (unblock_successor e) (e.graph.outgoing idx) (put_result (e.graph.weight idx) v s))
settle-Completes e idx v s =
    let id = e.graph.weight idx in
    fold-Completes e (unblock_successor e) idx (unblock_successor-Releases e)
      (put_result-Quiet id v s) (put_result-stored id v s)

module _ {e : Engine} (plain : IsPlain e) (laws : IsDiGraph e.graph) where
  found_error_edge-plain : (p c : ℕ) → found_error_edge e p c ≡ false
  unfolding found_error_edge
  found_error_edge-plain p c = elim (Option-cases (e.graph.find_edge p c)) [
    | inl absent ↦ rw (absent, found_error_edge)
    | inr (l, found) ↦
        rw (found, found_error_edge)
          (Listed-plain (e.graph.edges_connecting p c) l (plain.edges p c)
            (laws.found_listed p c l found))
  ]

  has_error_children-plain : (idx : ℕ) (cs : List ℕ) → any (found_error_edge e idx) cs ≡ false
  has_error_children-plain idx [] = refl
  has_error_children-plain idx (c ∷ cs) =
      ground (arith, found_error_edge-plain idx c, has_error_children-plain idx cs)

  handle_node_success-Fine :
      (idx : ℕ) (v : Value) (execution_id wall_time_ms : ℕ) (s : Reactor)
      → Fine e idx s (handle_node_success e idx v execution_id wall_time_ms none s)
  unfolding Fine handle_node_success
  handle_node_success-Fine idx v execution_id wall_time_ms s s' h =
      elim (Option-cases (sanitize_node_output (guard_size e v))) [
        | inl panics ↦ let k : panicked ≡ going s' = rw (panics, handle_node_success) at h in cc
        | inr (clean, e') ↦
            let id = e.graph.weight idx in
            let w = node_event e execution_id id "node_completed" "Completed" none none in
            let s1 = emit e w s in
            let s2 = put_result id clean s1 in
            let c = on_node_completed (completion_context e id execution_id wall_time_ms) clean in
            let s3 = call_hook e c s2 in
            let k : going (fold (success_child e idx clean) (e.graph.outgoing idx) s3) ≡ going s' =
              rw (e', handle_node_success) at h in
            let quiet : Quiet s s3 =
              Quiet-trans (emit-Quiet e w s)
                (Quiet-trans (put_result-Quiet id clean s1) (call_hook-Quiet e c s2)) in
            let stored = (call_hook-Quiet e c s2).kept id (put_result-stored id clean s1) in
            subst (Completes e idx s) (going-injective k) (
              fold-Completes e (success_child e idx clean) idx
                (success_child-Releases plain idx clean) quiet stored)
      ]

  give_up-stops :
      (id : ℕ) (msg : String) (execution_id wall_time_ms : ℕ) (s s' : Reactor)
      → give_up e id msg execution_id wall_time_ms s ≡ going s'
      → ⊥
  unfolding give_up
  give_up-stops id msg execution_id wall_time_ms s s' h = cc

  continue_past-Completes :
      (idx : ℕ) (msg : String) (s s1 : Reactor)
      → Quiet s s1
      → Completes e idx s (continue_past e idx (e.graph.weight idx) msg s1)
  unfolding continue_past
  continue_past-Completes idx msg s s1 quiet =
      let id = e.graph.weight idx in
      fold-Completes e (continue_child e) idx (continue_child-Releases e)
        (Quiet-trans quiet (put_result-Quiet id (continued_payload e msg) s1))
        (put_result-stored id (continued_payload e msg) s1)

  handle_node_failure-Fine :
      (idx : ℕ) (msg : String) (execution_id wall_time_ms : ℕ) (s : Reactor)
      → Fine e idx s (handle_node_failure e idx msg execution_id wall_time_ms none s)
  unfolding Fine handle_node_failure
  handle_node_failure-Fine idx msg execution_id wall_time_ms s s' h =
      let id = e.graph.weight idx in
      let text = scrub e msg in
      let w =
        node_event e execution_id id "node_failed" "Failed" (some text)
          (extract_non_transient_class text) in
      let s1 = emit e w s in
      let none_found : has_error_children e idx ≡ false =
        unfold has_error_children in has_error_children-plain idx (e.graph.outgoing idx) in
      elim (Bool-cases (continues_on_error e id)) [
        | inr stops ↦
            let k : give_up e id text execution_id wall_time_ms s1 ≡ going s' =
              rw (none_found, stops, handle_node_failure) at h in
            absurd (give_up-stops id text execution_id wall_time_ms s1 s' k)
        | inl goes_on ↦
            let k : going (continue_past e idx id text s1) ≡ going s' =
              rw (none_found, goes_on, handle_node_failure) at h in
            subst (Completes e idx s) (going-injective k)
              (continue_past-Completes idx text s s1 (emit-Quiet e w s))
      ]

  route-Fine :
      (idx : ℕ) (v : Value) (execution_id : ℕ) (s : Reactor)
      → Fine e idx s (route_system_node_output e idx v execution_id none s)
  unfolding Fine route_system_node_output
  route-Fine idx v execution_id s s' h = elim (Bool-cases (flag v "__error")) [
    | inl failed' ↦
        let k = rw (failed', route_system_node_output) at h in
        unfold Fine in handle_node_failure-Fine idx (rejection_message e v) execution_id 0 s s' k
    | inr fine ↦
        let id = e.graph.weight idx in
        let k : going (fold (unblock_successor e) (e.graph.outgoing idx) (put_result id v s))
            ≡ going s' =
          rw (fine, route_system_node_output) at h in
        subst (Completes e idx s) (going-injective k) (settle-Completes e idx v s)
  ]

  turn_of-running :
      (executing : List ℕ) (o : Outcome) (r : Run)
      → turn_of executing o ≡ running r
      → (o ≡ going r.reactor) × (r.executing ≡ executing)
  unfolding turn_of
  turn_of-running executing (going s) r h =
      let k : record { reactor = s; executing = executing } ≡ r = running-injective h in
      (ap (λ (x : Run). going x.reactor) k, ap (λ (x : Run). x.executing) (sym k))
  turn_of-running executing (failed s msg) r h = cc
  turn_of-running executing panicked r h = cc

  -- A ready node whose handler completes it releases its successors, and no task starts or ends.
  pub handle_ready-Completes :
      (execution_id idx : ℕ) (h : Handling) (r r' : Run)
      → IsLocal h
      → handle_ready e execution_id none idx h r ≡ running r'
      → Completes e idx r.reactor r'.reactor × (r'.executing ≡ r.executing)
  unfolding handle_ready Fine
  handle_ready-Completes execution_id idx (settled v) r r' local k =
      let same = running-injective k in
      (
        subst (λ (x : Run). Completes e idx r.reactor x.reactor) same
            (settle-Completes e idx v r.reactor),
        ap (λ (x : Run). x.executing) (sym same),
      )
  handle_ready-Completes execution_id idx (routed v) r r' local k =
      let (o, x) = turn_of-running r.executing _ r' k in
      (route-Fine idx v execution_id r.reactor r'.reactor o, x)
  handle_ready-Completes execution_id idx (rejected msg) r r' local k =
      let (o, x) = turn_of-running r.executing _ r' k in
      (handle_node_failure-Fine idx msg execution_id 0 r.reactor r'.reactor o, x)
  handle_ready-Completes execution_id idx (paused v) r r' local k = cc
  handle_ready-Completes execution_id idx (aborted msg) r r' local k = cc
  handle_ready-Completes execution_id idx spawned r r' local k = absurd local

  -- A task that ends and lets the run go on releases the successors of its node.
  pub finish_task-Completes :
      (execution_id idx : ℕ) (result : Completed) (wall_time_ms : ℕ) (r r' : Run)
      → finish_task e execution_id none idx result wall_time_ms r ≡ running r'
      → Completes e idx r.reactor r'.reactor × (r'.executing ≡ erase idx r.executing)
  unfolding finish_task Fine handle_completed_future
  finish_task-Completes execution_id idx (ok v) wall_time_ms r r' k =
      let (o, x) = turn_of-running (erase idx r.executing) _ r' k in
      (handle_node_success-Fine idx v execution_id wall_time_ms r.reactor r'.reactor o, x)
  finish_task-Completes execution_id idx (err msg) wall_time_ms r r' k =
      let (o, x) = turn_of-running (erase idx r.executing) _ r' k in
      (handle_node_failure-Fine idx msg execution_id wall_time_ms r.reactor r'.reactor o, x)
