-- ===== src/Completion/Loops.antt =====
-- The rounds of the loops over the successors of a completed node, in
-- talos-workflow-engine/src/engine_completion.rs: what they enqueue and what they mark as skipped.
use mathlib.Core.Path.{subst}
use talos_workflow_engine.Base.{
  ℕ, ◌<◌, ◌≡◌, refl, sym, ◌∙◌, ◌⊎◌, inl, inr, true, false, some, List, [], ◌∷◌, arith, ◌==◌, ==_iff,
  Bool-cases, count, count-append, fold,
}
use talos_workflow_engine.Base.HashMap
use talos_workflow_engine.Base.HashMap.{HashMap, get-insert}
use talos_workflow_engine.Base.Json.{Value}
use talos_workflow_engine.Engine.{Engine, Reactor}
use talos_workflow_engine.Completion.{
  skipped, has_error_edge, condition_failed, success_child, skip_child, push_if_released,
}
use talos_workflow_engine.Completion.Failure.{failure_child}

module _ (f : ℕ → Reactor → Reactor) (c : ℕ)
    (step : (child : ℕ) (s : Reactor) → count c (f child s).ready ≡ count c s.ready) where
  pub fold-count : (xs : List ℕ) (s : Reactor) → count c (fold f xs s).ready ≡ count c s.ready
  fold-count [] s = refl
  fold-count (x ∷ xs) s = fold-count xs (f x s) ∙ step x s

module _ (f : ℕ → Reactor → Reactor) (k : ℕ)
    (keep : (child : ℕ) (s : Reactor)
      → HashMap.get s.results k ≡ some skipped
      → HashMap.get (f child s).results k ≡ some skipped) where
  pub fold-keeps :
      (xs : List ℕ) (s : Reactor)
      → HashMap.get s.results k ≡ some skipped
      → HashMap.get (fold f xs s).results k ≡ some skipped
  fold-keeps [] s h = h
  fold-keeps (x ∷ xs) s h = fold-keeps xs (f x s) (keep x s h)

  pub fold-skips :
      (c : ℕ)
      → ((s : Reactor) → HashMap.get (f c s).results k ≡ some skipped)
      → (xs : List ℕ) (s : Reactor) → 0 < count c xs
      → HashMap.get (fold f xs s).results k ≡ some skipped
  fold-skips c mark [] s h = absurd (omega arith)
  fold-skips c mark (x ∷ xs) s h = elim (Bool-cases (x == c)) [
    | inl same ↦
        let e : c ≡ x = sym ((==_iff x c).0 same) in
        fold-keeps xs (f x s) (subst (λ y. HashMap.get (f y s).results k ≡ some skipped) e (mark s))
    | inr other ↦ fold-skips c mark xs (f x s) (ground arith)
  ]

module _ (e : Engine) where
  -- A node that succeeds does not run this successor.
  abbrev pub Blocked : Value → ℕ → ℕ → Type 0
  Blocked output p c = (has_error_edge e p c ≡ true) ⊎ (condition_failed e output p c ≡ true)

  pub success_child-count :
      (p : ℕ) (output : Value) (c : ℕ)
      → Blocked output p c
      → (child : ℕ) (s : Reactor)
      → count c (success_child e p output child s).ready ≡ count c s.ready
  unfolding success_child skip_child
  success_child-count p output c blocked child s = elim (Bool-cases (child == c)) [
    | inl same ↦
        let k : child ≡ c = (==_iff child c).0 same in
        elim blocked [
          | inl error_edge ↦
              let h : has_error_edge e p child ≡ true = rw k error_edge in ground (arith, h)
          | inr failed ↦
              let h : condition_failed e output p child ≡ true = rw k failed in ground (arith, h)
        ]
    | inr other ↦ ground (arith, count-append c s.ready (child ∷ []))
  ]

  pub success_child-keeps :
      (p : ℕ) (output : Value) (k child : ℕ) (s : Reactor)
      → HashMap.get s.results k ≡ some skipped
      → HashMap.get (success_child e p output child s).results k ≡ some skipped
  unfolding success_child skip_child
  success_child-keeps p output k child s h =
      ground (arith, get-insert s.results (e.graph.weight child) k skipped)

  pub success_child-skips :
      (p : ℕ) (output : Value) (c : ℕ)
      → has_error_edge e p c ≡ true
      → (s : Reactor)
      → HashMap.get (success_child e p output c s).results (e.graph.weight c) ≡ some skipped
  unfolding success_child
  success_child-skips p output c h s =
      ground (arith, h, get-insert s.results (e.graph.weight c) (e.graph.weight c) skipped)

  pub failure_child-count :
      (p c : ℕ)
      → has_error_edge e p c ≡ false
      → (child : ℕ) (s : Reactor) → count c (failure_child e p child s).ready ≡ count c s.ready
  unfolding failure_child push_if_released
  failure_child-count p c plain child s = elim (Bool-cases (child == c)) [
    | inl same ↦
        let k : child ≡ c = (==_iff child c).0 same in
        let h : has_error_edge e p child ≡ false = rw k plain in ground (arith, h)
    | inr other ↦ ground (arith, count-append c s.ready (child ∷ []))
  ]

  pub failure_child-keeps :
      (p k child : ℕ) (s : Reactor)
      → HashMap.get s.results k ≡ some skipped
      → HashMap.get (failure_child e p child s).results k ≡ some skipped
  unfolding failure_child push_if_released
  failure_child-keeps p k child s h =
      ground (arith, get-insert s.results (e.graph.weight child) k skipped)

  pub failure_child-skips :
      (p c : ℕ)
      → has_error_edge e p c ≡ false
      → (s : Reactor)
      → HashMap.get (failure_child e p c s).results (e.graph.weight c) ≡ some skipped
  unfolding failure_child
  failure_child-skips p c h s =
      ground (arith, h, get-insert s.results (e.graph.weight c) (e.graph.weight c) skipped)
