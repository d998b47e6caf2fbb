-- ===== src/Protocol/Verify.antt =====
-- `JobRequest::verify` of talos-workflow-job-protocol/src/lib.rs: the freshness of the nonce, the
-- signature, and the replay check, in this order.
use Prim.Native.Char.{Char, code}
use Prim.Native.String.{len, slice}
use text.Mathlib.Text.{find?, char_at?, ◌==◌ as str_eq}
use talos_workflow_engine.Base.{
  ℕ, zero, suc, ◌+◌, ◌-◌, ◌*◌, String, Bool, ◌&&◌, Option, none, some, List, [], ◌∷◌, ltb, leb,
  ◌==◌, if◌then◌else◌,
}
use talos_workflow_engine.Base.Text.{format}
use talos_workflow_engine.Protocol.Nonce.{NonceCache, Checked, u64_max, now_of}
use talos_workflow_engine.Protocol.Replay.{Attempt, check}

-- What is called of the hex, hmac and standard libraries: whether a text decodes as hex, the error of a
-- key, if there is one, whether a signature is the one of a payload, and the `Display` of a number.
pub record Libraries : Type 0 where
  pub hex_decodes : String → Bool
  pub key_error : List ℕ → Option String
  pub verify_slice : List ℕ → List ℕ → List ℕ → Bool
  pub decimal : ℕ → String

-- A signed message: its nonce, the bytes that are signed, and the signature.
pub record Message : Type 0 where
  pub job_nonce : String
  pub signing_payload : List ℕ
  pub signature : List ℕ

pub data Verdict : Type 0 where
  accepted : NonceCache → Verdict
  refused : String → NonceCache → Verdict

abbrev pub cache_of : Verdict → NonceCache
cache_of (accepted g) = g
cache_of (refused msg g) = g

abbrev pub max_future_skew_secs : ℕ
max_future_skew_secs = 5

digit : Char → Option ℕ
digit c = if leb 48 (code c) && leb (code c) 57 then some (code c - 48) else none

-- `str::parse::<u64>` from byte `i` on: decimal digits up to the end, and no overflow.
parse_digits : ℕ → String → ℕ → ℕ → Option ℕ
unfolding digit
parse_digits zero s i acc = if i == len s then some acc else none
parse_digits (suc fuel) s i acc = elim (char_at? s i) [
  | none ↦ if i == len s then some acc else none
  | some c ↦ elim (digit c) [
    | none ↦ none
    | some d ↦
        let rest = parse_digits fuel s (i + 1) (acc * 10 + d) in
        if ltb u64_max (acc * 10 + d) then none else rest
  ]
]

-- A leading `+` is allowed, and one digit at least.
unfoldable pub parse_u64 : String → Option ℕ
unfolding parse_digits
parse_u64 s =
    let start = if str_eq (slice s 0 1) "+" then 1 else 0 in
    if leb (len s) start then none else parse_digits (len s) s start 0

pub data Parsed : Type 0 where
  parsed : ℕ → Parsed
  invalid : String → Parsed

module _ (lib : Libraries) where
  -- Step 1 up to the clock: the timestamp before the first colon.
  unfoldable pub parse_nonce : String → Parsed
  unfolding parse_u64
  parse_nonce job_nonce = elim (find? job_nonce ":") [
    | none ↦ invalid "malformed job_nonce"
    | some i ↦ elim (parse_u64 (slice job_nonce 0 i)) [
      | none ↦ invalid "invalid timestamp in job_nonce"
      | some ts ↦
          if lib.hex_decodes (slice job_nonce (i + 1) (len job_nonce))
          then parsed ts
          else invalid "invalid hex in job_nonce"
    ]
  ]

  unfoldable pub freshness_error : ℕ → ℕ → ℕ → Option String
  freshness_error now ts max_age_secs =
      if ltb max_age_secs (now - ts)
      then some (
          format (
            "job_nonce is too old ("
            ∷ lib.decimal (now - ts)
            ∷ " s, max "
            ∷ lib.decimal max_age_secs
            ∷ ")"
            ∷ []))
      else if ltb max_future_skew_secs (ts - now)
      then some (
          format (
            "job_nonce is in the future ("
            ∷ lib.decimal (ts - now)
            ∷ " s ahead, max "
            ∷ lib.decimal max_future_skew_secs
            ∷ ")"
            ∷ []))
      else none

  unfoldable pub signature_error : List ℕ → Message → Option String
  signature_error key m = elim (lib.key_error key) [
    | some err ↦ some (format ("HMAC key error: " ∷ err ∷ []))
    | none ↦
        if lib.verify_slice key m.signing_payload m.signature
        then none
        else some "HMAC signature verification failed"
  ]

  -- A call of `verify`: the clock is read for the freshness, and once more by the nonce cache.
  pub record Call : Type 0 where
    pub clock : Option ℕ
    pub later : Option ℕ
    pub key : List ℕ
    pub max_age_secs : ℕ
    pub message : Message

  abbrev pub attempt : Call → ℕ → Attempt
  attempt c ts = record {
    clock = c.later;
    nonce = c.message.job_nonce;
    ts = ts;
    max_age_secs = c.max_age_secs;
  }

  unfoldable pub replay_verdict : Call → Checked → Verdict
  replay_verdict c r =
      if r.fresh
      then accepted r.cache
      else refused
          (format (
            "job_nonce already seen (replay attempt within "
            ∷ lib.decimal c.max_age_secs
            ∷ "-second window)"
            ∷ []))
          r.cache

  unfoldable pub verify : Call → NonceCache → Verdict
  unfolding parse_nonce freshness_error signature_error replay_verdict now_of
  verify c g = elim (parse_nonce c.message.job_nonce) [
    | invalid msg ↦ refused msg g
    | parsed ts ↦ elim (freshness_error (now_of c.clock 0) ts c.max_age_secs) [
      | some msg ↦ refused msg g
      | none ↦ elim (signature_error c.key c.message) [
        | some msg ↦ refused msg g
        | none ↦ replay_verdict c (check (attempt c ts) g)
      ]
    ]
  ]
