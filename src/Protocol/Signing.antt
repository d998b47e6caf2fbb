-- ===== src/Protocol/Signing.antt =====
-- `signing_payload` of `JobRequest` in talos-workflow-job-protocol/src/lib.rs: the bytes that are
-- signed. A text is its bytes.
use Prim.Native.Nat.{compare, Ordering}
use talos_workflow_engine.Base.{
  ℕ, String, Bool, true, false, Option, none, some, List, [], ◌∷◌, ◌++◌, length, if◌then◌else◌,
}
use talos_workflow_engine.Base.Text.{format}
use talos_workflow_engine.Base.Result.{Result, ok, ◌>>=◌, ok_or, map_err, unless_error}

abbrev pub Text : Type 0
Text = List ℕ

pub data LlmTier : Type 0 where
  tier1 tier2 : LlmTier

-- The fields that are signed; `V` is the type of the input payload.
pub record JobRequest (V : Type 0) : Type 0 where
  pub job_id : ℕ
  pub workflow_execution_id : ℕ
  pub module_uri : Text
  pub job_nonce : Text
  pub input_payload : V
  pub ciphertext : List ℕ
  pub timeout_ms : ℕ
  pub allowed_hosts : List Text
  pub allowed_methods : List Text
  pub wasm_bytes : Option (List ℕ)
  pub expected_wasm_hash : Option Text
  pub integration_name : Option Text
  pub user_id : ℕ
  pub max_llm_tier : LlmTier
  pub actor_id : Option ℕ
  pub allowed_secrets : List Text
  pub allowed_sql_operations : List Text
  pub allow_tier2_exposure : Bool

-- The `Display` of a UUID and of a number, the hex form of a SHA-256 hash, and the JSON text of a
-- value.
pub record Printing (V : Type 0) : Type 0 where
  pub uuid_text : ℕ → Text
  pub decimal : ℕ → Text
  pub sha256_hex : List ℕ → Text
  pub json_text : V → Text

-- The order of `String`: by bytes, and a prefix comes first.
unfoldable pub text_le : Text → Text → Bool
text_le [] t = true
text_le (x ∷ s) [] = false
text_le (x ∷ s) (y ∷ t) = elim (compare x y) [
  | Ordering.lt ↦ true
  | Ordering.eq ↦ text_le s t
  | Ordering.gt ↦ false
]

unfoldable pub insert_text : Text → List Text → List Text
insert_text s [] = s ∷ []
insert_text s (t ∷ ts) = let rest = insert_text s ts in if text_le s t then s ∷ t ∷ ts else t ∷ rest

-- `sort_unstable`.
unfoldable pub sort : List Text → List Text
unfolding insert_text text_le
sort [] = []
sort (t ∷ ts) = insert_text t (sort ts)

-- `join(",")`.
unfoldable pub join : List Text → Text
join [] = []
join (t ∷ []) = t
join (t ∷ t' ∷ ts) = t ++ 44 ∷ join (t' ∷ ts)

unfoldable pub as_signing_str : LlmTier → Text
as_signing_str tier1 = 116 ∷ 105 ∷ 101 ∷ 114 ∷ 49 ∷ []
as_signing_str tier2 = 116 ∷ 105 ∷ 101 ∷ 114 ∷ 50 ∷ []

unfoldable pub bool_text : Bool → Text
bool_text true = 116 ∷ 114 ∷ 117 ∷ 101 ∷ []
bool_text false = 102 ∷ 97 ∷ 108 ∷ 115 ∷ 101 ∷ []

-- The fields of a `format!` with `:` between them.
unfoldable pub fields : List Text → Text
fields [] = []
fields (t ∷ []) = t
fields (t ∷ t' ∷ ts) = t ++ 58 ∷ fields (t' ∷ ts)

module _ {V : Type 0} (printing : Printing V) where
  open printing use {uuid_text, decimal, sha256_hex, json_text}

  -- A text with its length before it.
  unfoldable pub lp : Text → Text
  lp s = decimal (length s) ++ 58 ∷ s

  -- The hash of inline bytes, or else the hash that is expected, or else `none`.
  unfoldable pub wasm_hash : Option (List ℕ) → Option Text → Text
  wasm_hash (some b) expected = sha256_hex b
  wasm_hash none (some h) = h
  wasm_hash none none = 110 ∷ 111 ∷ 110 ∷ 101 ∷ []

  -- `-` stands for a name or an actor that is absent.
  unfoldable pub name_or_dash : Option Text → Text
  name_or_dash none = 45 ∷ []
  name_or_dash (some s) = s

  unfoldable pub actor_text : Option ℕ → Text
  actor_text none = 45 ∷ []
  actor_text (some u) = uuid_text u

  unfoldable pub signing_payload : JobRequest V → Text
  unfolding fields lp wasm_hash name_or_dash actor_text as_signing_str bool_text sort join
  signing_payload r = fields (
      uuid_text r.job_id
      ∷ uuid_text r.workflow_execution_id
      ∷ lp r.module_uri
      ∷ r.job_nonce
      ∷ sha256_hex (json_text r.input_payload)
      ∷ sha256_hex r.ciphertext
      ∷ decimal r.timeout_ms
      ∷ lp (join (sort r.allowed_hosts))
      ∷ lp (join (sort r.allowed_methods))
      ∷ wasm_hash r.wasm_bytes r.expected_wasm_hash
      ∷ lp (name_or_dash r.integration_name)
      ∷ uuid_text r.user_id
      ∷ as_signing_str r.max_llm_tier
      ∷ lp (actor_text r.actor_id)
      ∷ lp (join (sort r.allowed_secrets))
      ∷ lp (join (sort r.allowed_sql_operations))
      ∷ bool_text r.allow_tier2_exposure
      ∷ [])

-- A request with the fields that are not signed, and its signature.
pub record SignedRequest (V U : Type 0) : Type 0 where
  pub request : JobRequest V
  pub unsigned : U
  pub signature : List ℕ

-- The hex form of bytes, the error of a key, if there is one, and the HMAC of a payload.
pub record Signer : Type 0 where
  pub hex_encode : List ℕ → Text
  pub key_error : List ℕ → Option String
  pub hmac : List ℕ → List ℕ → List ℕ

abbrev key_error_text : String → String
key_error_text e = format ("HMAC key error: " ∷ e ∷ [])

-- `sign` at a time, if the clock is past the epoch, with the random bytes of the nonce.
unfoldable pub sign :
    {V U : Type 0}
    → Printing V
    → Signer
    → List ℕ
    → Option ℕ
    → List ℕ
    → SignedRequest V U
    → Result (SignedRequest V U)
unfolding signing_payload
sign printing signer key clock rand_bytes r = do
  ts ← ok_or clock "system time error: second time provided was later than self"
  let nonce = printing.decimal ts ++ 58 ∷ signer.hex_encode rand_bytes
  let request = record r.request { job_nonce = nonce }
  usable ← map_err key_error_text (unless_error (signer.key_error key))
  ok (record {
    request = request;
    unsigned = r.unsigned;
    signature = signer.hmac key (signing_payload printing request);
  })
