-- ===== src/Completion/FanIn.antt =====
-- The join modes of a fan-in node: `apply_fan_in_early_ready` of talos-workflow-engine/src/engine.rs
-- against a description of what each mode waits for.
use talos_workflow_engine.Base.{
  ℕ, ◌+◌, ◌-◌, ◌*◌, ◌≤◌, ◌<◌, String, ◌≡◌, refl, ◌∙◌, ◌↔◌, ◌≢◌, true, false, Option, some, arith,
  ◌==◌, ==_iff, ltb, Bool-cases, inl, inr, length, if◌then◌else◌, count, count-append, [], ◌∷◌,
}
use talos_workflow_engine.Base.HashMap
use talos_workflow_engine.Base.HashMap.{HashMap, get-insert}
use talos_workflow_engine.Base.Json.{Value}
use talos_workflow_engine.Graph.{edge_limit}
use talos_workflow_engine.Engine.{
  Engine, Reactor, JoinMode, all, any, majority, n_of, node_kind, fan_in, fan_in_of, fan_in_release,
  join_satisfied, apply_fan_in_early_ready, usize_sub,
}
use talos_workflow_engine.Completion.{has_error_edge, condition_failed, success_child, push_back}

-- Enough of the `total` parents have completed for the node to run before the others.
abbrev pub Enough : JoinMode → ℕ → ℕ → Type 0
Enough all total completed = ⊥
Enough any total completed = Unit
Enough majority total completed = total < 2 * completed
Enough (n_of n) total completed = n ≤ completed

join_satisfied-Enough :
    (e : Engine) (mode : JoinMode) (total completed : ℕ)
    → (join_satisfied e mode total completed ≡ true) ↔ Enough mode total completed
unfolding join_satisfied
join_satisfied-Enough e all total completed = (λ h. cc, λ h. absurd h)
join_satisfied-Enough e any total completed = (λ h. tt, λ h. refl)
join_satisfied-Enough e majority total completed = (λ h. ground arith, λ h. ground arith)
join_satisfied-Enough e (n_of n) total completed = (λ h. ground arith, λ h. ground arith)

usize_sub-exact : (a b : ℕ) → b ≤ a → a < edge_limit → usize_sub a b ≡ a - b
unfolding edge_limit
usize_sub-exact a b h k = omega arith

get_or-some : (m : HashMap ℕ) (k v d : ℕ) → HashMap.get m k ≡ some v → HashMap.get_or m k d ≡ v
unfolding HashMap.get_or
get_or-some m k v d h = rw (h, HashMap.get_or) refl

module _ (e : Engine) (child : ℕ) (mode : JoinMode) (expr : Option String)
    (kind : node_kind e (e.graph.weight child) ≡ some (fan_in mode expr))
    (pending : HashMap ℕ) where
  apply-release : apply_fan_in_early_ready e child pending ≡ fan_in_release e child mode pending
  unfolding apply_fan_in_early_ready fan_in_of
  apply-release = rw (kind, apply_fan_in_early_ready, fan_in_of) refl

  release-waiting :
      (cnt : ℕ)
      → HashMap.get pending child ≡ some cnt
      → 0 < cnt
      → cnt ≤ length (e.graph.incoming child)
      → length (e.graph.incoming child) < edge_limit
      → fan_in_release e child mode pending ≡ (
          if join_satisfied e mode
            (length (e.graph.incoming child))
            (length (e.graph.incoming child) - cnt)
          then HashMap.insert pending child 0
          else pending)
  unfolding fan_in_release
  release-waiting cnt there waits most few =
      let stored = get_or-some pending child cnt 0 there in
      let exact = usize_sub-exact (length (e.graph.incoming child)) cnt most few in
      let waiting : ltb 0 cnt ≡ true = ground arith in
      rw (stored, exact, waiting, fan_in_release) (ground arith)

  -- A fan-in node that still waits for `cnt` of its parents is released at once exactly when enough of
  -- them have completed for its join mode: never for `all`, always for `any`, more than half of them
  -- for a majority, and `n` for a quorum.
  pub apply_fan_in_early_ready-Enough :
      (cnt : ℕ)
      → HashMap.get pending child ≡ some cnt
      → 0 < cnt
      → cnt ≤ length (e.graph.incoming child)
      → length (e.graph.incoming child) < edge_limit
      → (HashMap.get (apply_fan_in_early_ready e child pending) child ≡ some 0)
        ↔ Enough mode (length (e.graph.incoming child)) (length (e.graph.incoming child) - cnt)
  apply_fan_in_early_ready-Enough cnt there waits most few =
      let total = length (e.graph.incoming child) in
      let spec = join_satisfied-Enough e mode total (total - cnt) in
      let form = apply-release ∙ release-waiting cnt there waits most few in
      rw form (elim (Bool-cases (join_satisfied e mode total (total - cnt))) [
        | inl enough ↦
            rw enough
              ((λ h. spec.0 enough), (λ h. ground (arith, get-insert pending child child 0)))
        | inr few' ↦ rw few' ((λ h. absurd (ground arith)), (λ h. cc (few', spec.1 h)))
      ])

  release-other :
      (j : ℕ)
      → child == j ≡ false
      → HashMap.get (fan_in_release e child mode pending) j ≡ HashMap.get pending j
  unfolding fan_in_release
  release-other j apart = ground (arith, get-insert pending child j 0)

  -- It changes no other counter.
  pub apply_fan_in_early_ready-other :
      (j : ℕ)
      → child ≢ j
      → HashMap.get (apply_fan_in_early_ready e child pending) j ≡ HashMap.get pending j
  apply_fan_in_early_ready-other j other = elim (Bool-cases (child == j)) [
    | inl same ↦ absurd (other ((==_iff child j).0 same))
    | inr apart ↦ rw apply-release (release-other j apart)
  ]

release-any :
    (e : Engine) (child : ℕ) (pending : HashMap ℕ)
    → HashMap.get pending child ≡ some (usize_sub 0 1)
    → HashMap.get (fan_in_release e child any pending) child ≡ some 0
unfolding fan_in_release HashMap.get_or
release-any e child pending h = ground (arith, h, get-insert pending child child 0)

success_child-push :
    (e : Engine) (finished child : ℕ) (output : Value) (s : Reactor) (cnt : ℕ)
    → HashMap.get s.pending child ≡ some cnt
    → HashMap.get
        (apply_fan_in_early_ready e child (HashMap.insert s.pending child (usize_sub cnt 1)))
        child
      ≡ some 0
    → has_error_edge e finished child ≡ false
    → condition_failed e output finished child ≡ false
    → count child (success_child e finished output child s).ready ≡ count child s.ready + 1
unfolding success_child push_back HashMap.get_or
success_child-push e finished child output s cnt there zero' plain open' =
    rw (plain, there, success_child)
      (ground (arith, zero', open', count-append child s.ready (child ∷ [])))

-- A node whose fan-in mode is `any` and that has been released runs again when another of its parents
-- succeeds: the counter wraps around, which counts as a parent still waited for, and the early release
-- enqueues the node a second time.
pub success_child-any_again :
    (e : Engine) (finished child : ℕ) (output : Value) (expr : Option String) (s : Reactor)
    → node_kind e (e.graph.weight child) ≡ some (fan_in any expr)
    → HashMap.get s.pending child ≡ some 0
    → has_error_edge e finished child ≡ false
    → condition_failed e output finished child ≡ false
    → count child (success_child e finished output child s).ready ≡ count child s.ready + 1
success_child-any_again e finished child output expr s kind released plain open' =
    let later = HashMap.insert s.pending child (usize_sub 0 1) in
    let again : HashMap.get (apply_fan_in_early_ready e child later) child ≡ some 0 =
      rw (apply-release e child any expr kind later) (
        release-any e child later
          (ground (arith, get-insert s.pending child child (usize_sub 0 1)))) in
    success_child-push e finished child output s 0 released again plain open'
