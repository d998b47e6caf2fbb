-- ===== src/Scheduler/Quiet.antt =====
-- Steps of a handler that only add results, and leave the counters and the queue alone.
use talos_workflow_engine.Base.{ℕ, ◌≡◌, refl, ◌∙◌, inl, inr, true, arith, Bool-cases}
use talos_workflow_engine.Base.HashMap
use talos_workflow_engine.Base.HashMap.{HashMap, get-insert}
use talos_workflow_engine.Base.Json.{Value}
use talos_workflow_engine.Engine.{Engine, Reactor, NodeEventWrite, HookCall}
use talos_workflow_engine.Completion.{put_result, emit, call_hook}
use talos_workflow_engine.Scheduler.Release.{Keeps}

-- Only results are added, and counters and queue stay.
pub record Quiet (s s' : Reactor) : Type 0 where
  pub pending : s'.pending ≡ s.pending
  pub ready : s'.ready ≡ s.ready
  pub kept : Keeps s.results s'.results

pub Quiet-trans : {s s' s'' : Reactor} → Quiet s s' → Quiet s' s'' → Quiet s s''
Quiet-trans p q = record {
  pending = q.pending ∙ p.pending;
  ready = q.ready ∙ p.ready;
  kept = λ k h. q.kept k (p.kept k h);
}

pub Keeps-insert : (m : HashMap Value) (k : ℕ) (v : Value) → Keeps m (HashMap.insert m k v)
unfolding HashMap.contains_key
Keeps-insert m k v j h = ground (arith, get-insert m k j v)

pub contains_key-insert :
    (m : HashMap Value) (k : ℕ) (v : Value) → HashMap.contains_key (HashMap.insert m k v) k ≡ true
unfolding HashMap.contains_key
contains_key-insert m k v = ground (arith, get-insert m k k v)

pub put_result-Quiet : (id : ℕ) (v : Value) (s : Reactor) → Quiet s (put_result id v s)
unfolding put_result
put_result-Quiet id v s = record {
  pending = refl;
  ready = refl;
  kept = Keeps-insert s.results id v;
}

pub emit-Quiet : (e : Engine) (w : NodeEventWrite) (s : Reactor) → Quiet s (emit e w s)
unfolding emit
emit-Quiet e w s = elim (Bool-cases e.has_event_sink) [
  | inl on ↦ rw on (record { pending = refl; ready = refl; kept = λ k h. h })
  | inr off ↦ rw off (record { pending = refl; ready = refl; kept = λ k h. h })
]

pub call_hook-Quiet : (e : Engine) (c : HookCall) (s : Reactor) → Quiet s (call_hook e c s)
unfolding call_hook
call_hook-Quiet e c s = elim (Bool-cases e.has_node_hook) [
  | inl on ↦ rw on (record { pending = refl; ready = refl; kept = λ k h. h })
  | inr off ↦ rw off (record { pending = refl; ready = refl; kept = λ k h. h })
]
