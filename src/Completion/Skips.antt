-- ===== src/Completion/Skips.antt =====
-- The cascade of talos-workflow-engine/src/engine_completion.rs for a successor whose edge condition
-- is false.
use talos_workflow_engine.Base.{ℕ, ◌-◌, ◌≤◌, ◌≡◌, refl, ap, ◌∙◌, some, arith, count}
use talos_workflow_engine.Base.HashMap
use talos_workflow_engine.Base.HashMap.{HashMap}
use talos_workflow_engine.Engine.{Engine, Reactor}
use talos_workflow_engine.Completion.{skip_child}
use talos_workflow_engine.Completion.Counters.{minus, get-fold-decrement}

module _ (e : Engine) (child c : ℕ) (s : Reactor) where
  skip_child-counter :
      (n : ℕ)
      → HashMap.get s.pending c ≡ some n
      → HashMap.get (skip_child e child s).pending c ≡ some (n - count c (e.graph.outgoing child))
  unfolding skip_child
  skip_child-counter n there =
      get-fold-decrement (e.graph.outgoing child) s.pending c
      ∙ ap (λ o. minus o (count c (e.graph.outgoing child))) there

  -- A skipped node releases its own successors without enqueuing them: one that waited only for the
  -- skipped node is left with a counter of zero and as often in the queue as before.
  pub skip_child-stranded :
      (n : ℕ)
      → HashMap.get s.pending c ≡ some n
      → n ≤ count c (e.graph.outgoing child)
      → (HashMap.get (skip_child e child s).pending c ≡ some 0)
        × (count c (skip_child e child s).ready ≡ count c s.ready)
  unfolding skip_child
  skip_child-stranded n there last = (skip_child-counter n there ∙ ap some (omega arith), refl)
