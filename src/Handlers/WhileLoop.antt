-- ===== src/Handlers/WhileLoop.antt =====
-- How far `try_dispatch_while_loop` of talos-workflow-engine/src/scheduler_handlers.rs runs.
use talos_workflow_engine.Base.{
  ℕ, zero, suc, ◌+◌, ◌≤◌, String, ◌≡◌, refl, ◌⊎◌, inl, inr, true, false, some, arith, Bool-cases,
}
use talos_workflow_engine.Base.HashMap.{HashMap}
use talos_workflow_engine.Base.Json.{Value}
use talos_workflow_engine.Engine.{Engine, while_loop, node_kind, eval_bool}
use talos_workflow_engine.Inputs.{gather_inputs}
use talos_workflow_engine.Handlers.{
  Rounds, loop_output, while_rounds, while_output, while_loop_of, try_dispatch_while_loop,
}

-- The input after `n` rounds.
abbrev pub wrapped : Value → ℕ → Value
wrapped input zero = input
wrapped input (suc n) = loop_output (suc n) (wrapped input n)

module _ (e : Engine) (condition : String) (input : Value) where
  -- The condition holds before each of the first `n` rounds.
  abbrev pub HeldUpTo : ℕ → Type 0
  HeldUpTo zero = Unit
  HeldUpTo (suc n) = HeldUpTo n × (eval_bool e condition (wrapped input n) ≡ true)

  -- The loop ends after these rounds, of at most `most`.
  pub record EndsAfter (n most : ℕ) (r : Rounds) : Type 0 where
    pub rounds : r ≡ record { iteration = n; current_output = wrapped input n }
    pub bounded : n ≤ most
    pub held : HeldUpTo n
    pub ended : (n ≡ most) ⊎ (eval_bool e condition (wrapped input n) ≡ false)

  while_rounds-EndsAfter :
      (left i most : ℕ)
      → i + left ≡ most
      → HeldUpTo i
      → (n : ℕ) × EndsAfter n most (while_rounds e condition left i (wrapped input i))
  unfolding while_rounds
  while_rounds-EndsAfter zero i most split held =
      (i, record { rounds = refl; bounded = omega arith; held = held; ended = inl (omega arith) })
  while_rounds-EndsAfter (suc left) i most split held =
      elim (Bool-cases (eval_bool e condition (wrapped input i))) [
        | inl true' ↦
            let rest = while_rounds-EndsAfter left (suc i) most (omega arith) (held, true') in
            rw (true', while_rounds) rest
        | inr false' ↦ (
          i,
          rw (false', while_rounds)
              (record { rounds = refl; bounded = omega arith; held = held; ended = inr false' }),
        )
      ]

module _ (e : Engine) (node_idx node_id max_iterations : ℕ) (condition : String)
    (results : HashMap Value) where
  -- A while node stops by itself: after some number of rounds, of which there are at most
  -- `max_iterations`. The condition held before each of them, and either no round is left or the
  -- condition is false. The output has the number and the input wrapped that many times.
  pub try_dispatch_while_loop-EndsAfter :
      node_kind e node_id ≡ some (while_loop condition max_iterations)
      → (n : ℕ) × (r : Rounds) × (try_dispatch_while_loop e node_idx node_id results
          ≡ some (while_output e r))
        × EndsAfter e condition (gather_inputs e results node_idx) n max_iterations r
  unfolding try_dispatch_while_loop
  try_dispatch_while_loop-EndsAfter kind =
      let input = gather_inputs e results node_idx in
      let (n, ends) =
        while_rounds-EndsAfter e condition input max_iterations 0 max_iterations (omega arith) tt in
      (
        n,
        while_rounds e condition max_iterations 0 input,
        rw (kind, try_dispatch_while_loop, while_loop_of) refl,
        ends,
      )
