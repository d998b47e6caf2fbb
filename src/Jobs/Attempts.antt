-- ===== src/Jobs/Attempts.antt =====
-- How often `execute_job_with_retry` sends, what it sends again for, and how it ends.
use talos_workflow_engine.Base.{
  ℕ, suc, Option, String, ◌≡◌, ◌≢◌, refl, ◌∙◌, ◌⊎◌, inl, inr, true, false, some, none, List, [],
  ◌∷◌, ◌++◌, arith, ltb, length, length-append, Bool-cases, Option-cases, if◌then◌else◌,
}
use talos_workflow_engine.Base.Json.{Value, get, as_bool, null, bool, number, string, array, object}
use talos_workflow_engine.Base.Result.{ok, err, Result-cases}
use talos_workflow_engine.Engine.{NodeEventWrite}
use talos_workflow_engine.Dispatch.{Dispatched, output_of, error_of}
use talos_workflow_engine.Retry.{response, delivery_error, timeout, next_attempt}
use talos_workflow_engine.Retry.Attempts.{Tried-cases}
use talos_workflow_engine.Protocol.Results.{JobStatus, success, failed, timed_out, JobResult}
use talos_workflow_engine.Jobs.{
  Surroundings, Job, State, returns, repeats, is_success, is_done, payload_success_false,
  is_blocked, permanent_class, retry_failure, on_failure, checked, on_result, on_delivery_error,
  sent, round, emit_event, exponential, delay_for, node_retrying, resigned, retry_skipped,
  undelivered_message, blocked_message, permanent_message, failed_message, unread_message,
  distrust_message,
}

-- The worker says that the job succeeded, and the output does not deny it.
abbrev pub IsSuccess : JobResult → Type 0
IsSuccess r = (r.status ≡ success) × (get r.output_payload "success" ≢ some (bool false))

abbrev pub IsFailure : JobResult → Type 0
IsFailure r = (r.status ≢ success) ⊎ (get r.output_payload "success" ≡ some (bool false))

is_done-success : (st : JobStatus) → is_done st ≡ true → st ≡ success
unfolding is_done
is_done-success success h = refl
is_done-success failed h = absurd (cc h)
is_done-success timed_out h = absurd (cc h)

is_done-other : (st : JobStatus) → is_done st ≡ false → st ≢ success
unfolding is_done
is_done-other st h same = absurd (cc (rw same at h))

denied : (o : Option Value) → payload_success_false o ≡ true → o ≡ some (bool false)
unfolding payload_success_false as_bool
denied none h = absurd (cc h)
denied (some null) h = absurd (cc h)
denied (some (bool true)) h = absurd (cc h)
denied (some (bool false)) h = refl
denied (some (number n)) h = absurd (cc h)
denied (some (string s)) h = absurd (cc h)
denied (some (array vs)) h = absurd (cc h)
denied (some (object m)) h = absurd (cc h)

not_denied : (o : Option Value) → payload_success_false o ≡ false → o ≢ some (bool false)
unfolding payload_success_false as_bool
not_denied o h same = absurd (cc (rw same at h))

is_success-cases :
    (r : JobResult) → ((is_success r ≡ true) × IsSuccess r) ⊎ ((is_success r ≡ false) × IsFailure r)
unfolding is_success
is_success-cases r = elim (Bool-cases (is_done r.status)) [
  | inr other ↦ inr (rw other refl, inl (is_done-other r.status other))
  | inl done ↦ elim (Bool-cases (payload_success_false (get r.output_payload "success"))) [
    | inl denies ↦
        inr (rw (done, denies) refl, inr (denied (get r.output_payload "success") denies))
    | inr fine ↦ inl (
      rw (done, fine) refl,
      (is_done-success r.status done, not_denied (get r.output_payload "success") fine),
    )
  ]
]

longer : (xs : List ℕ) (x : ℕ) → length (xs ++ x ∷ []) ≡ suc (length xs)
longer xs x = omega (arith, length-append xs (x ∷ []))

module _ {W V U : Type 0} (env : Surroundings W V U) (job : Job) where
  -- A round's request is answered with a result that is accepted.
  pub record Replied (s : State W) (r : JobResult) : Type 0 where
    pub bytes : List ℕ
    pub got : (env.request job.topic s.current_payload s.world).0 ≡ response bytes
    pub parsed : env.from_slice bytes ≡ ok r
    pub trusted : (checked env job r (sent env job s)).0 ≡ ok tt

  -- What is sent again: a request that is not delivered, and a failure that may pass.
  pub data Retryable (s : State W) : Type 0 where
    lost :
        {e : String}
        → (env.request job.topic s.current_payload s.world).0 ≡ delivery_error e
        → Retryable s
    may_pass :
        {r : JobResult}
        → Replied s r
        → IsFailure r
        → is_blocked env job r.output_payload ≡ false
        → permanent_class env job r.output_payload ≡ none
        → Retryable s

  -- What is not: a timeout, an answer that cannot be read or is not accepted, and a failure that the
  -- retry condition or the classifier takes for permanent.
  pub data Final (s : State W) : Type 0 where
    late : (env.request job.topic s.current_payload s.world).0 ≡ timeout → Final s
    unread :
        {bytes : List ℕ} {e : String}
        → (env.request job.topic s.current_payload s.world).0 ≡ response bytes
        → env.from_slice bytes ≡ err e
        → Final s
    distrusted :
        {bytes : List ℕ} {r : JobResult} {e : String}
        → (env.request job.topic s.current_payload s.world).0 ≡ response bytes
        → env.from_slice bytes ≡ ok r
        → (checked env job r (sent env job s)).0 ≡ err e
        → Final s
    blocked :
        {r : JobResult}
        → Replied s r
        → IsFailure r
        → is_blocked env job r.output_payload ≡ true
        → Final s
    permanent :
        {r : JobResult} {class : String}
        → Replied s r
        → IsFailure r
        → permanent_class env job r.output_payload ≡ some class
        → Final s

  abbrev pub Ends : State W → Dispatched → Type 0
  Ends s d = (t : State W) × (round env job s ≡ returns d t) × (t.sleeps ≡ s.sleeps)

  abbrev pub Goes : State W → Type 0
  Goes s =
      (t : State W) × (round env job s ≡ repeats t)
      × (t.attempts ≡ next_attempt s.attempts)
      × (length t.sleeps ≡ suc (length s.sleeps))

  -- The retries are used up, or there is another round.
  abbrev pub Continues : State W → Type 0
  Continues s =
      ((ltb job.max_retries (next_attempt s.attempts) ≡ true) × (m : String) × Ends s (error_of m))
      ⊎ ((ltb job.max_retries (next_attempt s.attempts) ≡ false) × Goes s)

  abbrev pub Delivered : State W → Value → Type 0
  Delivered s v = (r : JobResult) × Replied s r × IsSuccess r × (v ≡ r.output_payload)

  abbrev lost_next : State W → State W
  lost_next s = record (sent env job s) {
    attempts = next_attempt s.attempts;
    current_payload = resigned env job (sent env job s);
    sleeps =
        s.sleeps
        ++ exponential job (next_attempt s.attempts) (env.subsec_nanos (sent env job s).world) ∷ [];
  }

  lost-Continues :
      (s : State W) (e : String)
      → (env.request job.topic s.current_payload s.world).0 ≡ delivery_error e
      → Continues s
  unfolding round on_delivery_error
  lost-Continues s e h = elim (Bool-cases (ltb job.max_retries (next_attempt s.attempts))) [
    | inl over ↦ inl (
      over,
      undelivered_message env job (next_attempt s.attempts) e,
      (
        record (sent env job s) { attempts = next_attempt s.attempts },
        rw (h, over, round) refl,
        refl,
      ),
    )
    | inr more ↦ inr (more, (lost_next s, rw (h, more, round) refl, refl, longer s.sleeps _))
  ]

  emit_event-sleeps :
      (e : NodeEventWrite) (s : State W) → (emit_event env job e s).sleeps ≡ s.sleeps
  unfolding emit_event
  emit_event-sleeps e s = elim (Bool-cases job.event_sink) [
    | inl sink ↦ rw sink refl
    | inr none' ↦ rw none' refl
  ]

  emit_event-attempts :
      (e : NodeEventWrite) (s : State W) → (emit_event env job e s).attempts ≡ s.attempts
  unfolding emit_event
  emit_event-attempts e s = elim (Bool-cases job.event_sink) [
    | inl sink ↦ rw sink refl
    | inr none' ↦ rw none' refl
  ]

  -- The round of an accepted result goes on in the state `settled`.
  abbrev settled : JobResult → State W → State W
  settled r s = record (sent env job s) { cache = (checked env job r (sent env job s)).1 }

  Replied-round :
      (s : State W) (r : JobResult)
      → Replied s r
      → round env job s ≡ (
          if is_success r
          then returns (output_of r.output_payload) (settled r s)
          else on_failure env job r.output_payload (settled r s))
  unfolding round on_result
  Replied-round s r p = rw (p.got, p.parsed, p.trusted, round, on_result) refl

  abbrev counted : State W → State W
  counted s = record s { attempts = next_attempt s.attempts }

  abbrev failure_next : Value → State W → State W
  failure_next v s =
      record (emit_event env job (node_retrying env job (next_attempt s.attempts)) (counted s)) {
        current_payload = resigned env job s;
        sleeps = s.sleeps ++ delay_for env job v (next_attempt s.attempts) s ∷ [];
      }

  failure-Continues :
      (s : State W) (r : JobResult)
      → round env job s ≡ retry_failure env job r.output_payload (settled r s)
      → Continues s
  unfolding retry_failure
  failure-Continues s r goes = elim (Bool-cases (ltb job.max_retries (next_attempt s.attempts))) [
    | inl over ↦ inl (
      over,
      failed_message env job (next_attempt s.attempts) r.output_payload,
      (counted (settled r s), goes ∙ rw over refl, refl),
    )
    | inr more ↦ inr (
      more,
      (
        failure_next r.output_payload (settled r s),
        goes ∙ rw more refl,
        emit_event-attempts (node_retrying env job (next_attempt s.attempts))
            (counted (settled r s)),
        longer s.sleeps _,
      ),
    )
  ]

  -- What a round comes to.
  abbrev pub Outcomes : State W → Type 0
  Outcomes s =
      ((v : Value) × Delivered s v × Ends s (output_of v))
      ⊎ ((Final s × ((m : String) × Ends s (error_of m))) ⊎ (Retryable s × Continues s))

  failure-Outcomes :
      (s : State W) (r : JobResult)
      → Replied s r
      → IsFailure r
      → round env job s ≡ on_failure env job r.output_payload (settled r s)
      → Outcomes s
  unfolding on_failure
  failure-Outcomes s r p fails goes = elim (Bool-cases (is_blocked env job r.output_payload)) [
    | inl stop ↦ inr (
        inl (
          blocked p fails stop,
          (blocked_message env job r.output_payload, (settled r s, goes ∙ rw stop refl, refl)),
        ))
    | inr open' ↦ elim (Option-cases (permanent_class env job r.output_payload)) [
      | inr (class, known) ↦ inr (
          inl (
            permanent p fails known,
            (
              permanent_message env job class r.output_payload,
              (
                emit_event env job (retry_skipped env job class) (settled r s),
                goes ∙ rw (open', known) refl,
                emit_event-sleeps (retry_skipped env job class) (settled r s),
              ),
            ),
          ))
      | inl transient ↦ inr (
          inr (
            may_pass p fails open' transient,
            failure-Continues s r (goes ∙ rw (open', transient) refl),
          ))
    ]
  ]

  pub round-Outcomes : (s : State W) → Outcomes s
  unfolding round on_result
  round-Outcomes s = elim (Tried-cases (env.request job.topic s.current_payload s.world).0) [
    | inr (inl over) ↦ inr (
        inl (late over, ("Job execution timed out", (sent env job s, rw (over, round) refl, refl))))
    | inr (inr (e, away)) ↦ inr (inr (lost away, lost-Continues s e away))
    | inl (bytes, got) ↦ elim (Result-cases (env.from_slice bytes)) [
      | inr (e, garbled) ↦ inr (
          inl (
            unread got garbled,
            (unread_message e, (sent env job s, rw (got, garbled, round) refl, refl)),
          ))
      | inl (r, parsed) ↦ elim (Result-cases (checked env job r (sent env job s)).0) [
        | inr (e, bad) ↦ inr (
            inl (
              distrusted got parsed bad,
              (
                distrust_message e,
                (settled r s, rw (got, parsed, bad, round, on_result) refl, refl),
              ),
            ))
        | inl (done, trusted) ↦
            let p : Replied s r = record {
              bytes = bytes;
              got = got;
              parsed = parsed;
              trusted = trusted;
            } in
            elim (is_success-cases r) [
              | inl (yes', success') ↦ inl (
                r.output_payload,
                (r, p, success', refl),
                (settled r s, Replied-round s r p ∙ rw yes' refl, refl),
              )
              | inr (no', fails) ↦ failure-Outcomes s r p fails (Replied-round s r p ∙ rw no' refl)
            ]
      ]
    ]
  ]
