-- ===== src/Jobs/Ends.antt =====
-- `execute_job_with_retry` returns, and what its last round was.
use talos_workflow_engine.Base.{
  ℕ, zero, suc, ◌+◌, ◌^◌, ◌≤◌, ◌<◌, ◌≡◌, refl, ap, ◌∙◌, ◌⊎◌, inl, inr, some, List, arith, length,
}
use talos_workflow_engine.Dispatch.{Dispatched, output_of, error_of}
use talos_workflow_engine.Protocol.Nonce.{NonceCache}
use talos_workflow_engine.Retry.{next_attempt}
use talos_workflow_engine.Retry.Attempts.{next_attempt-suc}
use talos_workflow_engine.Jobs.{
  Surroundings, Job, State, returns, repeats, round, job_loop, first_state, execute_job_with_retry,
}
use talos_workflow_engine.Jobs.Attempts.{Retryable, Final, Delivered, Ends, round-Outcomes}

module _ {W V U : Type 0} (env : Surroundings W V U) (job : Job) where
  -- A call after `n` rounds, each of which ended in a way that is sent again.
  pub data Retried (payload : List ℕ) (cache : NonceCache) (w : W) : ℕ → State W → Type 0 where
    none_yet : Retried payload cache w 0 (first_state env job payload cache w)
    one_more :
        {n : ℕ} {s t : State W}
        → Retried payload cache w n s
        → Retryable env job s
        → round env job s ≡ repeats t
        → Retried payload cache w (suc n) t

  -- How the round from `s`, after `n` others, accounts for what is returned.
  abbrev pub Accounts : ℕ → State W → Dispatched → Type 0
  Accounts n s (output_of v) = Delivered env job s v
  Accounts n s (error_of m) = Final env job s ⊎ ((n ≡ job.max_retries) × Retryable env job s)

  pub record EndsAfter (payload : List ℕ) (cache : NonceCache) (w : W) (n : ℕ) (d : Dispatched)
      (t : State W) : Type 0 where
    pub reached : State W
    pub retried : Retried payload cache w n reached
    pub last : round env job reached ≡ returns d t
    pub bounded : n ≤ job.max_retries
    pub slept : length t.sleeps ≡ n
    pub accounted : Accounts n reached d

  abbrev Ending : List ℕ → NonceCache → W → ℕ → State W → Type 0
  Ending payload cache w fuel s =
      (n : ℕ) × (d : Dispatched) × (t : State W) × (job_loop env job fuel s ≡ some (d, t))
      × EndsAfter payload cache w n d t

  loop-returns :
      (fuel : ℕ) (s t : State W) (d : Dispatched)
      → round env job s ≡ returns d t
      → job_loop env job (suc fuel) s ≡ some (d, t)
  unfolding job_loop
  loop-returns fuel s t d h = rw (h, job_loop) refl

  loop-repeats :
      (fuel : ℕ) (s t : State W)
      → round env job s ≡ repeats t
      → job_loop env job (suc fuel) s ≡ job_loop env job fuel t
  unfolding job_loop
  loop-repeats fuel s t h = rw (h, job_loop) refl

  ended :
      (payload : List ℕ) (cache : NonceCache) (w : W) (fuel n : ℕ) (s : State W) (d : Dispatched)
      → Retried payload cache w n s
      → n ≤ job.max_retries
      → length s.sleeps ≡ n
      → Ends env job s d
      → Accounts n s d
      → Ending payload cache w (suc fuel) s
  ended payload cache w fuel n s d retried most slept (t, last, same) accounted = (
    n,
    d,
    t,
    loop-returns fuel s t d last,
    record {
      reached = s;
      retried = retried;
      last = last;
      bounded = most;
      slept = ap (λ xs. length xs) same ∙ slept;
      accounted = accounted;
    },
  )

  job_loop-EndsAfter :
      (payload : List ℕ) (cache : NonceCache) (w : W) (fuel n : ℕ) (s : State W)
      → job.max_retries + 1 < 2 ^ 32
      → Retried payload cache w n s
      → n + fuel ≡ suc job.max_retries
      → n ≤ job.max_retries
      → s.attempts ≡ n
      → length s.sleeps ≡ n
      → Ending payload cache w fuel s
  job_loop-EndsAfter payload cache w zero n s small retried split most count slept =
      absurd (omega arith)
  job_loop-EndsAfter payload cache w (suc fuel) n s small retried split most count slept =
      let step : next_attempt s.attempts ≡ suc n =
        ap (λ k. next_attempt k) count ∙ next_attempt-suc n (omega arith) in
      elim (round-Outcomes env job s) [
        | inl (v, delivered, ends) ↦
            ended payload cache w fuel n s (output_of v) retried most slept ends delivered
        | inr (inl (final, (m, ends))) ↦
            ended payload cache w fuel n s (error_of m) retried most slept ends (inl final)
        | inr (inr (retryable, inl (over, m, ends))) ↦
            ended payload cache w fuel n s (error_of m) retried most slept ends
              (inr (ground (arith, over, step), retryable))
        | inr (inr (retryable, inr (more, (t, goes, counted, longer)))) ↦
            let rest =
              job_loop-EndsAfter payload cache w fuel (suc n) t small
                (one_more retried retryable goes) (omega arith) (ground (arith, more, step))
                (counted ∙ step) (omega arith) in
            rw (loop-repeats fuel s t goes) rest
      ]

  -- For a number of retries that a `u32` can exceed, a call returns, after at most so many rounds that
  -- are sent again, with one sleep for each. It returns an output only from an answer that is read and
  -- accepted, whose status is success and whose output does not deny it. An error is returned for a
  -- timeout, an answer that is not read or not accepted, or a permanent failure; for a delivery error
  -- or a failure that may pass, only when all retries are used up.
  pub execute_job_with_retry-EndsAfter :
      (payload : List ℕ) (cache : NonceCache) (w : W)
      → job.max_retries + 1 < 2 ^ 32
      → (n : ℕ) × (d : Dispatched) × (t : State W) × (execute_job_with_retry env job payload cache w
          ≡ some (d, t))
        × EndsAfter payload cache w n d t
  unfolding execute_job_with_retry
  execute_job_with_retry-EndsAfter payload cache w small =
      job_loop-EndsAfter payload cache w (suc job.max_retries) 0
        (first_state env job payload cache w) small none_yet (omega arith) (omega arith) refl refl
