-- ===== src/Document.antt =====
-- Graph documents, as the engine reads and writes them: graph_parser.rs, graph_builder.rs and
-- graph_json.rs of talos-workflow-engine/src.
pub mod Kinds
pub mod Writer
pub mod Limits
pub mod RoundTrip
pub mod Builder
pub mod Retries
pub mod Changes
pub mod Validate
pub mod Counts
use Prim.Native.String.{◌++◌}
use talos_workflow_engine.Base.{
  ℕ, ◌%◌, ◌^◌, ◌<◌, String, ◌≡◌, Bool, true, Option, none, some, arith,
}
use talos_workflow_engine.Base.Options.{◌>>=◌, unwrap_or}
use talos_workflow_engine.Base.Json.{Value, null, get, as_str, as_u64, as_bool}
use talos_workflow_engine.Engine.{JoinMode}

-- The uuid crate's parser and printer, serde's derived forms of a join mode, serde_json's form of a
-- float (`null` if it is not finite), `f64::clamp` to the range from 0 to 1, the UUID made of the first
-- bytes of a text's SHA-256 hash, the `Display` of a number, and whether the feature
-- `llm-primitives` is on. Floats are their bit patterns.
pub record Libraries : Type 0 where
  pub parse_uuid : String → Option ℕ
  pub uuid_text : ℕ → String
  pub join_to_value : JoinMode → Value
  pub join_from_value : Value → Option JoinMode
  pub f64_to_value : ℕ → Value
  pub as_f64 : Value → Option ℕ
  pub is_finite : ℕ → Bool
  pub clamp_unit : ℕ → ℕ
  pub hash_uuid : String → ℕ
  pub decimal : ℕ → String
  pub llm_primitives : Bool

-- What those crates document: reading what was written gives it back, `null` is no number, and
-- no UUID is written with a prefix `system:`.
pub record IsFaithful (lib : Libraries) : Type 0 where
  pub parse_uuid-uuid_text : (u : ℕ) → lib.parse_uuid (lib.uuid_text u) ≡ some u
  pub join_from_value-join_to_value :
      (mode : JoinMode) → lib.join_from_value (lib.join_to_value mode) ≡ some mode
  pub as_f64-f64_to_value :
      (x : ℕ) → lib.is_finite x ≡ true → lib.as_f64 (lib.f64_to_value x) ≡ some x
  pub parse_uuid-system : (k : String) → lib.parse_uuid ("system:" ++ k) ≡ none
  pub as_f64-null : lib.as_f64 null ≡ none

-- `as u32`.
unfoldable pub as_u32 : ℕ → ℕ
as_u32 n = n % 2 ^ 32

pub as_u32-small : (n : ℕ) → n < 2 ^ 32 → as_u32 n ≡ n
unfolding as_u32
as_u32-small n h = omega arith

-- `v.get(k).and_then(|v| v.as_str())` and the like.
unfoldable pub str_at : Value → String → Option String
unfolding get as_str
str_at v k = get v k >>= as_str

unfoldable pub u64_at : Value → String → ℕ → ℕ
unfolding get as_u64
u64_at v k d = unwrap_or (get v k >>= as_u64) d

unfoldable pub bool_at : Value → String → Bool → Bool
unfolding get as_bool
bool_at v k d = unwrap_or (get v k >>= as_bool) d
