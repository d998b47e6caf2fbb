-- ===== src/Protocol/Results.antt =====
-- `JobResult` of talos-workflow-job-protocol/src/lib.rs: the answer of a worker, the bytes that are
-- signed, and its verification with and without the replay check.
use Prim.Native.String.{len, slice}
use text.Mathlib.Text.{find?}
use talos_workflow_engine.Base.{
  ℕ, ◌+◌, ◌-◌, String, Option, none, some, List, [], ◌∷◌, ltb, if◌then◌else◌,
}
use talos_workflow_engine.Base.Text.{format}
use talos_workflow_engine.Base.Json.{Value}
use talos_workflow_engine.Base.Result.{Result, ok, err, ◌>>=◌, ok_or, unless_error}
use talos_workflow_engine.Protocol.Nonce.{NonceCache, Checked, now_of}
use talos_workflow_engine.Protocol.Replay.{check}
use talos_workflow_engine.Protocol.Verify.{
  Libraries, signature_error, parse_u64, max_future_skew_secs,
}

pub data JobStatus : Type 0 where
  success failed timed_out : JobStatus

pub record JobResult : Type 0 where
  pub job_id : ℕ
  pub status : JobStatus
  pub output_payload : Value
  pub logs : List String
  pub execution_time_ms : ℕ
  pub signature : List ℕ
  pub result_nonce : String

-- The `Display` of a UUID and of a value, the hex form of a SHA-256 hash of a text, and its bytes.
pub record Printing : Type 0 where
  pub uuid_text : ℕ → String
  pub json_text : Value → String
  pub sha256_hex : String → String
  pub into_bytes : String → List ℕ

-- `join("\n")`.
unfoldable join_lines : List String → String
join_lines [] = ""
join_lines (t ∷ []) = t
join_lines (t ∷ t' ∷ ts) = format (t ∷ "\n" ∷ join_lines (t' ∷ ts) ∷ [])

unfoldable status_str : JobStatus → String
status_str success = "success"
status_str failed = "failed"
status_str timed_out = "timedout"

module _ (lib : Libraries) (printing : Printing) where
  unfoldable pub result_payload : JobResult → List ℕ
  unfolding join_lines status_str
  result_payload r = printing.into_bytes (
      format (
        printing.uuid_text r.job_id
        ∷ ":"
        ∷ status_str r.status
        ∷ ":"
        ∷ r.result_nonce
        ∷ ":"
        ∷ printing.sha256_hex (printing.json_text r.output_payload)
        ∷ ":"
        ∷ lib.decimal r.execution_time_ms
        ∷ ":"
        ∷ printing.sha256_hex (join_lines r.logs)
        ∷ []))

  unfoldable parse_result_nonce : String → Result ℕ
  unfolding parse_u64
  parse_result_nonce nonce = do
    i ← ok_or (find? nonce ":") "malformed result_nonce"
    ts ← ok_or (parse_u64 (slice nonce 0 i)) "invalid timestamp in result_nonce"
    if lib.hex_decodes (slice nonce (i + 1) (len nonce))
        then ok ts
        else err "invalid hex in result_nonce"

  unfoldable result_freshness_error : ℕ → ℕ → ℕ → Option String
  result_freshness_error now ts max_age_secs =
      if ltb max_age_secs (now - ts)
      then some (
          format (
            "result_nonce is too old ("
            ∷ lib.decimal (now - ts)
            ∷ " s, max "
            ∷ lib.decimal max_age_secs
            ∷ ")"
            ∷ []))
      else if ltb max_future_skew_secs (ts - now)
      then some (
          format (
            "result_nonce is in the future ("
            ∷ lib.decimal (ts - now)
            ∷ " s ahead, max "
            ∷ lib.decimal max_future_skew_secs
            ∷ ")"
            ∷ []))
      else none

  -- The clock is read at `clock`; the result is the timestamp of the nonce.
  unfoldable pub verify_no_replay : List ℕ → ℕ → Option ℕ → JobResult → Result ℕ
  unfolding parse_result_nonce result_freshness_error signature_error now_of
  verify_no_replay key max_age_secs clock r = do
    ts ← parse_result_nonce r.result_nonce
    fresh ← unless_error (result_freshness_error (now_of clock 0) ts max_age_secs)
    signed ← unless_error (
        signature_error lib key (record {
          job_nonce = r.result_nonce;
          signing_payload = result_payload r;
          signature = r.signature;
        }))
    ok ts

  unfoldable pub seen_before : ℕ → Checked → Result {0} Unit × NonceCache
  seen_before max_age_secs c = (
    if c.fresh
        then ok tt
        else err (
            format (
              "result_nonce already seen (replay attempt within "
              ∷ lib.decimal max_age_secs
              ∷ "-second window)"
              ∷ [])),
    c.cache,
  )

  -- The nonce cache reads the clock once more, at `later`.
  unfoldable pub verify_result :
      List ℕ → ℕ → Option ℕ → Option ℕ → JobResult → NonceCache → Result {0} Unit × NonceCache
  unfolding verify_no_replay seen_before
  verify_result key max_age_secs clock later r g =
      elim (verify_no_replay key max_age_secs clock r) [
        | err e ↦ (err e, g)
        | ok ts ↦ seen_before max_age_secs (
            check
              (record {
                clock = later;
                nonce = r.result_nonce;
                ts = ts;
                max_age_secs = max_age_secs;
              })
              g)
      ]
