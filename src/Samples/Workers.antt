-- ===== src/Samples/Workers.antt =====
-- A transport that loses the first request, then a worker that fails once and then succeeds.
use text.Mathlib.Text.{◌==◌ as str_eq}
use talos_workflow_engine.Base.{
  ℕ, zero, suc, String, ◌≡◌, refl, true, none, some, List, [], ◌∷◌, arith,
}
use talos_workflow_engine.Base.Json.{Value, string, object, entry, empty, get, get_key}
use talos_workflow_engine.Base.Result.{Result, ok, err}
use talos_workflow_engine.Base.Options.{unwrap_or}
use talos_workflow_engine.Dispatch.{Dispatched, output_of, error_of}
use talos_workflow_engine.Retry.{Tried, response, delivery_error}
use talos_workflow_engine.Protocol.Nonce.{u64_max, check_and_record, now_of}
use talos_workflow_engine.Protocol.Verify.{Libraries}
use talos_workflow_engine.Protocol.Results.{
  JobResult, JobStatus, success, failed, Printing, verify_no_replay, verify_result,
}
use talos_workflow_engine.Protocol.Once.{Reading, checks, verified, timestamp, verify_result-replay}
use talos_workflow_engine.Jobs.{Surroundings, Job, State, pos, execute_job_with_retry}
use talos_workflow_engine.Jobs.Ends.{EndsAfter, execute_job_with_retry-EndsAfter}

abbrev crypto : Libraries
crypto = record {
  hex_decodes = λ s. true;
  key_error = λ k. none;
  verify_slice = λ k p s. true;
  decimal = λ n. "n";
}

abbrev result_printing : Printing
result_printing = record {
  uuid_text = λ u. "u";
  json_text = λ v. "v";
  sha256_hex = λ s. s;
  into_bytes = λ s. [];
}

abbrev answer : JobStatus → Value → String → JobResult
answer status payload nonce = record {
  job_id = 1;
  status = status;
  output_payload = payload;
  logs = [];
  execution_time_ms = 5;
  signature = [];
  result_nonce = nonce;
}

abbrev busy : JobResult
busy = answer failed (object (entry "error" (string "busy") empty)) "1000:a"

abbrev done : JobResult
done = answer success (string "done") "1000:b"

-- The state counts the requests.
requests : String → List ℕ → ℕ → Tried × ℕ
requests topic payload zero = (delivery_error "no responders", 1)
requests topic payload (suc zero) = (response (0 ∷ []), 2)
requests topic payload (suc (suc n)) = (response [], suc (suc (suc n)))

results : List ℕ → Result JobResult
results [] = ok done
results (b ∷ bs) = ok busy

abbrev worker : Surroundings ℕ Unit Unit
worker = record {
  request = requests;
  clock = λ w. some 1001;
  later = λ w. some 1001;
  subsec_nanos = λ w. 30;
  from_slice = results;
  libraries = crypto;
  printing = result_printing;
  request_from_slice = λ b. none;
  request_to_vec = λ r. none;
  request_printing = record {
    uuid_text = λ u. [];
    decimal = λ n. [];
    sha256_hex = λ b. b;
    json_text = λ v. [];
  };
  signer = record { hex_encode = λ b. b; key_error = λ k. none; hmac = λ k b. b };
  rand_bytes = λ w. [];
  try_eval_bool = λ e v. none;
  eval_i64 = λ e v. some (pos 90000);
  classify = λ e. e;
  is_transient = λ c. str_eq c "busy";
  decimal = λ n. "n";
  decimal_i32 = λ n. "n";
  to_text = λ v. "v";
}

abbrev job : Job
job = record {
  topic = "jobs";
  max_retries = 2;
  base_backoff_ms = 100;
  worker_shared_key = some [];
  retry_condition = none;
  retry_delay_expr = some "delay";
  event_sink = true;
  event_execution_id = 1;
  event_node_id = 2;
}

abbrev finished : Dispatched × State ℕ
finished = unwrap_or (execute_job_with_retry worker job (7 ∷ []) [] 0) (
  error_of "",
  record { world = 0; cache = []; attempts = 0; current_payload = []; events = []; sleeps = [] },
)

-- Both kinds of failure are retried: the first after the back-off, the second after the minute that the
-- expression's 90 s are cut to.
finishes :
    (finished.0 ≡ output_of (string "done"))
    × (finished.1.sleeps ≡ 105 ∷ 60000 ∷ [])
    × (finished.1.attempts ≡ 2)
unfolding execute_job_with_retry requests results get get_key u64_max check_and_record
finishes = (refl, refl, refl)

execute_job_with_retry-EndsAfter_example :
    (n : ℕ) × (d : Dispatched) × (t : State ℕ) × (execute_job_with_retry worker job (7 ∷ []) [] 0
      ≡ some (d, t))
    × EndsAfter worker job (7 ∷ []) [] 0 n d t
execute_job_with_retry-EndsAfter_example =
    execute_job_with_retry-EndsAfter worker job (7 ∷ []) [] 0 (omega arith)

abbrev reading : Reading
reading = record { key = []; max_age_secs = 300; clock = some 1001; later = some 1001 }

accepted_once : (verified crypto result_printing reading done []).0 ≡ ok tt
unfolding verify_result u64_max check_and_record
accepted_once = refl

stamped : timestamp crypto result_printing reading done ≡ ok 1000
unfolding verify_no_replay u64_max
stamped = refl

verify_result-replay_example :
    (e : String) × ((verified crypto result_printing reading
        (answer failed (string "no") "1000:b")
        (checks [] (verified crypto result_printing reading done []).1)).0
      ≡ err e)
unfolding u64_max now_of
verify_result-replay_example =
    verify_result-replay crypto result_printing reading done [] 1000 [] reading
      (answer failed (string "no") "1000:b") accepted_once stamped refl tt
      (omega arith, λ ts. omega arith)
