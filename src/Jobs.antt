-- ===== src/Jobs.antt =====
-- `execute_job_with_retry` of talos-workflow-engine-nats/src/dispatcher.rs: a job that is sent again
-- while its delivery fails or the worker reports a failure that may pass.
pub mod Attempts
pub mod Ends
use Prim.Native.String.{String}
use talos_workflow_engine.Base.{
  ℕ, zero, suc, ◌+◌, ◌%◌, ◌^◌, min, Bool, true, false, not, ◌&&◌, Option, none, some, List, [], ◌∷◌,
  ◌++◌, ltb, if◌then◌else◌,
}
use talos_workflow_engine.Base.Text.{format}
use talos_workflow_engine.Base.Options
use talos_workflow_engine.Base.Options.{unwrap_or}
use talos_workflow_engine.Base.Result.{Result, ok, err}
use talos_workflow_engine.Base.Json.{Value, get, as_bool, as_str}
use talos_workflow_engine.Engine.{NodeEventWrite}
use talos_workflow_engine.Dispatch.{Dispatched, output_of, error_of}
use talos_workflow_engine.Retry.{
  Tried, response, delivery_error, timeout, backoff, delay, next_attempt,
}
use talos_workflow_engine.Protocol.Nonce.{NonceCache}
use talos_workflow_engine.Protocol.Verify.{Libraries}
use talos_workflow_engine.Protocol.Signing
use talos_workflow_engine.Protocol.Signing.{SignedRequest, Signer, sign}
use talos_workflow_engine.Protocol.Results.{
  JobStatus, success, failed, timed_out, JobResult, Printing, verify_result,
}

pub data ℤ : Type 0 where
  pos negsuc : ℕ → ℤ

-- What the loop calls: the transport with its own state, the clock's readings, serde for results and
-- requests, the libraries of both signatures, the random bytes of a nonce, the classifier and the expression evaluator, and the
-- `Display` of a `u32`, an `i32` and a value.
pub record Surroundings (W V U : Type 0) : Type 0 where
  pub request : String → List ℕ → W → Tried × W
  pub clock : W → Option ℕ
  pub later : W → Option ℕ
  pub subsec_nanos : W → ℕ
  pub from_slice : List ℕ → Result JobResult
  pub libraries : Libraries
  pub printing : Printing
  pub request_from_slice : List ℕ → Option (SignedRequest V U)
  pub request_to_vec : SignedRequest V U → Option (List ℕ)
  pub request_printing : Signing.Printing V
  pub signer : Signer
  pub rand_bytes : W → List ℕ
  pub try_eval_bool : String → Value → Option Bool
  pub eval_i64 : String → Value → Option ℤ
  pub classify : String → String
  pub is_transient : String → Bool
  pub decimal : ℕ → String
  pub decimal_i32 : ℕ → String
  pub to_text : Value → String

-- The arguments of a call; `event_sink` says whether there is one.
pub record Job : Type 0 where
  pub topic : String
  pub max_retries : ℕ
  pub base_backoff_ms : ℕ
  pub worker_shared_key : Option (List ℕ)
  pub retry_condition : Option String
  pub retry_delay_expr : Option String
  pub event_sink : Bool
  pub event_execution_id : ℕ
  pub event_node_id : ℕ

-- The loop's variables, the process's nonce cache, and what was emitted and slept so far.
pub record State (W : Type 0) : Type 0 where
  pub world : W
  pub cache : NonceCache
  pub attempts : ℕ
  pub current_payload : List ℕ
  pub events : List NodeEventWrite
  pub sleeps : List ℕ

-- What one round of the loop comes to.
pub data Round (W : Type 0) : Type 0 where
  returns : Dispatched → State W → Round W
  repeats : State W → Round W

unfoldable error_text : Value → Option String
unfolding get as_str
error_text v = Options.◌>>=◌ (get v "error") as_str

unfoldable is_done : JobStatus → Bool
is_done success = true
is_done failed = false
is_done timed_out = false

abbrev is_false : Option Bool → Bool
is_false (some false) = true
is_false (some true) = false
is_false none = false

unfoldable payload_success_false : Option Value → Bool
unfolding as_bool
payload_success_false v = is_false (Options.◌>>=◌ v as_bool)

unfoldable pub is_success : JobResult → Bool
unfolding is_done payload_success_false get
is_success r = is_done r.status && not (payload_success_false (get r.output_payload "success"))

unfoldable exponential : Job → ℕ → ℕ → ℕ
unfolding backoff delay
exponential job attempts nanos = delay (backoff job.base_backoff_ms attempts) nanos

-- A positive number that the expression gives, at most a minute, or else the back-off.
unfoldable asked_delay : Option ℤ → ℕ → ℕ
asked_delay none usual = usual
asked_delay (some (negsuc n)) usual = usual
asked_delay (some (pos ms)) usual = if ltb 0 ms then min ms 60000 else usual

abbrev distrust_message : String → String
distrust_message e = format ("Job result signature verification failed: " ∷ e ∷ [])

abbrev unread_message : String → String
unread_message e = format ("Failed to parse job result: " ∷ e ∷ [])

module _ {W V U : Type 0} (env : Surroundings W V U) (job : Job) where
  unfoldable pub message_of : Value → String
  unfolding error_text
  message_of v = unwrap_or (error_text v) (env.to_text v)

  unfoldable emit_event : NodeEventWrite → State W → State W
  emit_event e s = if job.event_sink then record s { events = s.events ++ e ∷ [] } else s

  -- The retry condition says that the failure is permanent; one that cannot be evaluated does not.
  unfoldable pub is_blocked : Value → Bool
  is_blocked v = elim job.retry_condition [
    | none ↦ false
    | some cond ↦ not (unwrap_or (env.try_eval_bool cond v) true)
  ]

  -- Without a condition, the class of an error that will not pass.
  unfoldable pub permanent_class : Value → Option String
  unfolding error_text
  permanent_class v = elim job.retry_condition [
    | some cond ↦ none
    | none ↦
        let class = env.classify (unwrap_or (error_text v) "") in
        if ltb 0 job.max_retries && not (env.is_transient class) then some class else none
  ]

  unfoldable retry_skipped : String → NodeEventWrite
  retry_skipped class = record {
    execution_id = job.event_execution_id;
    event_type = "retry_skipped";
    node_id = some job.event_node_id;
    status = "Failed";
    log_message =
        some (format ("Retry skipped: error classified as '" ∷ class ∷ "' (non-transient)" ∷ []));
    iteration_index = none;
    error_class = some class;
  }

  -- The cast to `i32` is carried by its bits.
  unfoldable pub node_retrying : ℕ → NodeEventWrite
  node_retrying attempts = record {
    execution_id = job.event_execution_id;
    event_type = "node_retrying";
    node_id = some job.event_node_id;
    status = "Running";
    log_message = some (format ("Retry attempt " ∷ env.decimal_i32 attempts ∷ []));
    iteration_index = some attempts;
    error_class = none;
  }

  unfoldable pub resign_payload_for_retry : List ℕ → List ℕ → W → Option (List ℕ)
  unfolding sign
  resign_payload_for_retry payload key w = Options.◌>>=◌ (env.request_from_slice payload) λ req.
      elim (sign env.request_printing env.signer key (env.clock w) (env.rand_bytes w) req) [
        | err e ↦ none
        | ok signed ↦ env.request_to_vec signed
      ]

  -- The payload signed afresh if there is a key and that succeeds.
  unfoldable pub resigned : State W → List ℕ
  unfolding resign_payload_for_retry
  resigned s = elim job.worker_shared_key [
    | none ↦ s.current_payload
    | some key ↦
        unwrap_or (resign_payload_for_retry s.current_payload key s.world) s.current_payload
  ]

  abbrev undelivered_message : ℕ → String → String
  undelivered_message n e =
      format ("Job dispatch failed after " ∷ env.decimal n ∷ " attempts: " ∷ e ∷ [])

  abbrev blocked_message : Value → String
  blocked_message v = format ("Job failed (retry_condition not met): " ∷ message_of v ∷ [])

  unfoldable permanent_message : String → Value → String
  unfolding error_text
  permanent_message class v =
      format ("Job failed (non-transient: " ∷ class ∷ "): " ∷ unwrap_or (error_text v) "" ∷ [])

  unfoldable failed_message : ℕ → Value → String
  unfolding message_of get
  failed_message attempts v = format (
      "Job failed after "
      ∷ env.decimal attempts
      ∷ " attempts: "
      ∷ message_of v
      ∷ (elim (get v "diag") [ some d ↦ format (" | diag: " ∷ env.to_text d ∷ []) | none ↦ "" ])
      ∷ [])

  unfoldable pub delay_for : Value → ℕ → State W → ℕ
  unfolding exponential asked_delay
  delay_for v attempts s =
      let usual = exponential job attempts (env.subsec_nanos s.world) in
      elim job.retry_delay_expr [
        | none ↦ usual
        | some expr ↦ asked_delay (env.eval_i64 expr v) usual
      ]

  -- A failure that may pass: another round, unless the retries are used up.
  unfoldable pub retry_failure : Value → State W → Round W
  unfolding failed_message emit_event node_retrying resigned delay_for
  retry_failure v s =
      let n = next_attempt s.attempts in
      let counted = record s { attempts = n } in
      if ltb job.max_retries n
      then returns (error_of (failed_message n v)) counted
      else repeats (record (emit_event (node_retrying n) counted) {
        current_payload = resigned s;
        sleeps = s.sleeps ++ delay_for v n s ∷ [];
      })

  unfoldable pub on_failure : Value → State W → Round W
  unfolding permanent_message is_blocked permanent_class message_of emit_event retry_skipped
      retry_failure error_text
  on_failure v s =
      if is_blocked v then returns (error_of (blocked_message v)) s else elim (permanent_class v) [
        | some class ↦
            returns (error_of (permanent_message class v)) (emit_event (retry_skipped class) s)
        | none ↦ retry_failure v s
      ]

  -- The check of the signature, if there is a key, which records the nonce.
  unfoldable pub checked : JobResult → State W → Result {0} Unit × NonceCache
  unfolding verify_result
  checked r s = elim job.worker_shared_key [
    | none ↦ (ok tt, s.cache)
    | some key ↦
        verify_result env.libraries env.printing key 300 (env.clock s.world) (env.later s.world) r
          s.cache
  ]

  unfoldable pub on_result : JobResult → State W → Round W
  unfolding checked is_success on_failure
  on_result r s =
      let left = record s { cache = (checked r s).1 } in
      elim (checked r s).0 [
        | err e ↦ returns (error_of (distrust_message e)) left
        | ok done ↦
            if is_success r
            then returns (output_of r.output_payload) left
            else on_failure r.output_payload left
      ]

  unfoldable pub on_delivery_error : String → State W → Round W
  unfolding resigned exponential
  on_delivery_error e s =
      let n = next_attempt s.attempts in
      let counted = record s { attempts = n } in
      if ltb job.max_retries n
      then returns (error_of (undelivered_message n e)) counted
      else repeats (record counted {
        current_payload = resigned s;
        sleeps = s.sleeps ++ exponential job n (env.subsec_nanos s.world) ∷ [];
      })

  abbrev pub sent : State W → State W
  sent s = record s { world = (env.request job.topic s.current_payload s.world).1 }

  unfoldable pub round : State W → Round W
  unfolding on_result on_delivery_error
  round s = elim (env.request job.topic s.current_payload s.world).0 [
    | timeout ↦ returns (error_of "Job execution timed out") (sent s)
    | delivery_error e ↦ on_delivery_error e (sent s)
    | response bytes ↦ elim (env.from_slice bytes) [
      | err e ↦ returns (error_of (unread_message e)) (sent s)
      | ok r ↦ on_result r (sent s)
    ]
  ]

  -- The loop; `none` means that the fuel ran out.
  unfoldable pub job_loop : ℕ → State W → Option (Dispatched × State W)
  unfolding round
  job_loop zero s = none
  job_loop (suc fuel) s = elim (round s) [ returns d t ↦ some (d, t) | repeats t ↦ job_loop fuel t ]

  abbrev pub first_state : List ℕ → NonceCache → W → State W
  first_state payload cache w = record {
    world = w;
    cache = cache;
    attempts = 0;
    current_payload = payload;
    events = [];
    sleeps = [];
  }

  unfoldable pub execute_job_with_retry : List ℕ → NonceCache → W → Option (Dispatched × State W)
  unfolding job_loop
  execute_job_with_retry payload cache w =
      job_loop (suc job.max_retries) (first_state payload cache w)
