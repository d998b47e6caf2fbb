-- ===== src/Retry/Attempts.antt =====
-- How often `dispatch_with_retry` sends, and how it ends.
use talos_workflow_engine.Base.{
  ℕ, zero, suc, ◌+◌, ◌^◌, ◌≤◌, ◌<◌, String, ◌≡◌, refl, ◌⊎◌, inl, inr, some, List, [], ◌∷◌, ◌++◌,
  arith, ltb, length, length-append, Bool-cases,
}
use talos_workflow_engine.Retry.{
  Tried, response, delivery_error, timeout, Returned, answered, gave_up, Surroundings, Ended,
  next_payload, exhausted, backoff, delay, retry_loop, dispatch_with_retry, next_attempt,
}

pub Tried-cases :
    (t : Tried)
    → ((r : List ℕ) × (t ≡ response r)) ⊎ ((t ≡ timeout) ⊎ ((e : String) × (t ≡ delivery_error e)))
Tried-cases (response r) = inl (r, refl)
Tried-cases timeout = inr (inl refl)
Tried-cases (delivery_error e) = inr (inr (e, refl))

pub next_attempt-suc : (n : ℕ) → suc n < 2 ^ 32 → next_attempt n ≡ suc n
next_attempt-suc n h = omega (arith, h)

module _ {W : Type 0} (env : Surroundings W) (max_retries : ℕ) where
  -- The first `n` requests of a call fail to be delivered: the payload and the state after them, where
  -- each request but the first has the payload signed afresh.
  pub data Failing (payload : List ℕ) (w : W) : ℕ → List ℕ → W → Type 0 where
    none_yet : Failing payload w 0 payload w
    one_more :
        {n : ℕ} {p : List ℕ} {v : W} {e : String}
        → Failing payload w n p v
        → (env.request p v).0 ≡ delivery_error e
        → Failing payload w (suc n) (next_payload env p (env.request p v).1) (env.request p v).1

  -- How the last request of a call, after `n` failed ones, settles what is returned.
  abbrev pub Settles : ℕ → Tried → Returned → Type 0
  Settles n (response r) returned = returned ≡ answered r
  Settles n timeout returned = returned ≡ gave_up "Job execution timed out"
  Settles n (delivery_error e) returned = (n ≡ max_retries) × (returned ≡ exhausted env (suc n) e)

  pub record EndsAfter (payload : List ℕ) (w : W) (n : ℕ) (end : Ended W) : Type 0 where
    pub last_payload : List ℕ
    pub reached : W
    pub failing : Failing payload w n last_payload reached
    pub bounded : n ≤ max_retries
    pub settled : Settles n (env.request last_payload reached).0 end.returned
    pub slept : length end.sleeps ≡ n
    pub left : end.world ≡ (env.request last_payload reached).1

  retry_loop-EndsAfter :
      (payload : List ℕ) (w : W) (base : ℕ) (fuel attempts : ℕ) (sleeps p : List ℕ) (v : W)
      → Failing payload w attempts p v
      → max_retries + 1 < 2 ^ 32
      → attempts + fuel ≡ suc max_retries
      → attempts ≤ max_retries
      → length sleeps ≡ attempts
      → (n : ℕ) × (end : Ended W) × (retry_loop env max_retries base fuel attempts sleeps p v
          ≡ some end)
        × EndsAfter payload w n end
  unfolding retry_loop
  retry_loop-EndsAfter payload w base zero attempts sleeps p v failing small split most long =
      absurd (omega arith)
  retry_loop-EndsAfter payload w base (suc fuel) attempts sleeps p v failing small split most long =
      let step : next_attempt attempts ≡ suc attempts = next_attempt-suc attempts (omega arith) in
      elim (Tried-cases (env.request p v).0) [
        | inl (r, got) ↦ (
          attempts,
          record { returned = answered r; sleeps = sleeps; world = (env.request p v).1 },
          rw (got, retry_loop) refl,
          record {
            last_payload = p;
            reached = v;
            failing = failing;
            bounded = most;
            settled = rw got refl;
            slept = long;
            left = refl;
          },
        )
        | inr (inl late) ↦ (
          attempts,
          record {
            returned = gave_up "Job execution timed out";
            sleeps = sleeps;
            world = (env.request p v).1;
          },
          rw (late, retry_loop) refl,
          record {
            last_payload = p;
            reached = v;
            failing = failing;
            bounded = most;
            settled = rw late refl;
            slept = long;
            left = refl;
          },
        )
        | inr (inr (e, lost)) ↦ elim (Bool-cases (ltb max_retries (next_attempt attempts))) [
          | inl over ↦ (
            attempts,
            record {
              returned = exhausted env (next_attempt attempts) e;
              sleeps = sleeps;
              world = (env.request p v).1;
            },
            rw (lost, over, retry_loop) refl,
            record {
              last_payload = p;
              reached = v;
              failing = failing;
              bounded = most;
              settled = rw (lost, step) (ground (arith, over, step), refl);
              slept = long;
              left = refl;
            },
          )
          | inr more ↦
              let again =
                retry_loop-EndsAfter payload w base fuel (next_attempt attempts)
                  (sleeps
                    ++ delay (backoff base (next_attempt attempts))
                        (env.subsec_nanos (env.request p v).1)
                      ∷ [])
                  (next_payload env p (env.request p v).1) (env.request p v).1
                  (rw step (one_more failing lost)) small (omega (arith, step))
                  (ground (arith, more, step))
                  (omega (
                    arith,
                    step,
                    length-append sleeps (
                        delay (backoff base (next_attempt attempts))
                          (env.subsec_nanos (env.request p v).1)
                        ∷ []),
                  )) in
              rw (lost, more, retry_loop) again
        ]
      ]

  -- For a number of retries that a `u32` can exceed, a dispatch returns, after at most `max_retries` requests that are not delivered and one last
  -- request, with one sleep for each of the former: the response, if the last request has one; the
  -- timeout, which is not retried; or, only when all retries are used up, the delivery error.
  pub dispatch_with_retry-EndsAfter :
      (payload : List ℕ) (w : W) (base_backoff_ms : ℕ)
      → max_retries + 1 < 2 ^ 32
      → (n : ℕ) × (end : Ended W) × (dispatch_with_retry env payload max_retries base_backoff_ms w
          ≡ some end)
        × EndsAfter payload w n end
  unfolding dispatch_with_retry
  dispatch_with_retry-EndsAfter payload w base_backoff_ms small =
      retry_loop-EndsAfter payload w base_backoff_ms (suc max_retries) 0 [] payload w none_yet small
        (omega arith) (omega arith) refl
