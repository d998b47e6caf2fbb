-- ===== src/Retry.antt =====
-- `dispatch_with_retry` of talos-workflow-engine-nats/src/dispatcher.rs: a request that is repeated,
-- with a growing delay, while its delivery fails.
pub mod Attempts
use talos_workflow_engine.Base.{
  ℕ, zero, suc, ◌+◌, ◌-◌, ◌*◌, ◌/◌, ◌%◌, ◌^◌, max, String, Option, none, some, List, [], ◌∷◌, ◌++◌,
  ltb, if◌then◌else◌,
}
use talos_workflow_engine.Base.Text.{format}
use talos_workflow_engine.Protocol.Nonce.{saturating_mul}

-- What one request comes to, within the timeout or not.
pub data Tried : Type 0 where
  response : List ℕ → Tried
  delivery_error : String → Tried
  timeout : Tried

pub data Returned : Type 0 where
  answered : List ℕ → Returned
  gave_up : String → Returned

-- The transport with its own state, the clock's nanoseconds, the signing of a payload with a fresh
-- nonce if there is a key (or no new payload, where that fails), and the `Display` of a number.
pub record Surroundings (W : Type 0) : Type 0 where
  pub request : List ℕ → W → Tried × W
  pub subsec_nanos : W → ℕ
  pub resign : Option (List ℕ → W → Option (List ℕ))
  pub decimal : ℕ → String

-- The end of a call: what it returns, the delays that it slept, and the state it leaves.
pub record Ended (W : Type 0) : Type 0 where
  pub returned : Returned
  pub sleeps : List ℕ
  pub world : W

-- Arithmetic of a release build, where `attempts - 1` on a `u32` and the power and the sum on a `u64`
-- wrap around.
unfoldable pub backoff : ℕ → ℕ → ℕ
unfolding saturating_mul
backoff base_backoff_ms attempts =
    saturating_mul base_backoff_ms (2 ^ ((attempts + 2 ^ 32 - 1) % 2 ^ 32) % 2 ^ 64)

unfoldable pub delay : ℕ → ℕ → ℕ
delay b nanos = (b + nanos % max (b / 4) 1) % 2 ^ 64

-- `attempts += 1` on a `u32` of a release build, which wraps around.
abbrev pub next_attempt : ℕ → ℕ
next_attempt attempts = suc attempts % 2 ^ 32

module _ {W : Type 0} (env : Surroundings W) where
  unfoldable pub next_payload : List ℕ → W → List ℕ
  next_payload payload w = elim env.resign [
    | none ↦ payload
    | some f ↦ elim (f payload w) [ none ↦ payload | some p ↦ p ]
  ]

  unfoldable pub exhausted : ℕ → String → Returned
  exhausted attempts e =
      gave_up
        (format ("Job dispatch failed after " ∷ env.decimal attempts ∷ " attempts: " ∷ e ∷ []))

  -- The loop; `none` means that the fuel ran out.
  unfoldable pub retry_loop :
      (max_retries base_backoff_ms : ℕ) → ℕ → ℕ → List ℕ → List ℕ → W → Option (Ended W)
  unfolding next_payload exhausted backoff delay
  retry_loop max_retries base_backoff_ms zero attempts sleeps payload w = none
  retry_loop max_retries base_backoff_ms (suc fuel) attempts sleeps payload w =
      let n = next_attempt attempts in
      let after = (env.request payload w).1 in
      let slept = delay (backoff base_backoff_ms n) (env.subsec_nanos after) in
      let rest =
        retry_loop max_retries base_backoff_ms fuel n (sleeps ++ slept ∷ [])
          (next_payload payload after) after in
      elim (env.request payload w).0 [
        | response r ↦ some (record { returned = answered r; sleeps = sleeps; world = after })
        | timeout ↦ some (record {
          returned = gave_up "Job execution timed out";
          sleeps = sleeps;
          world = after;
        })
        | delivery_error e ↦
            if ltb max_retries n
            then some (record { returned = exhausted n e; sleeps = sleeps; world = after })
            else rest
      ]

  unfoldable pub dispatch_with_retry :
      List ℕ → (max_retries base_backoff_ms : ℕ) → W → Option (Ended W)
  unfolding retry_loop
  dispatch_with_retry payload max_retries base_backoff_ms w =
      retry_loop max_retries base_backoff_ms (suc max_retries) 0 [] payload w
