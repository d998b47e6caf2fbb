-- ===== src/Secrets.antt =====
-- talos-workflow-engine/src/vault_resolver.rs: the references `vault://<path>` of a configuration, and
-- their replacement by the secrets. The map of the resolved secrets is a function.
pub mod Replaced
use Prim.Native.String.{len, slice}
use text.Mathlib.Text.{◌==◌ as str_eq, starts_with}
use talos_workflow_engine.Base.{
  ℕ, String, Bool, true, false, not, Option, none, some, List, [], ◌∷◌, ◌++◌, any, if◌then◌else◌,
}
use talos_workflow_engine.Base.Options.{◌>>=◌}
use talos_workflow_engine.Base.Json.{
  Value, Map, string, object, empty, entry, get_key, insert_key, as_str, as_object,
}

-- A configuration key, and the path without its prefix.
pub record VaultRef : Type 0 where
  pub config_key : String
  pub vault_path : String

pub data VaultResolverError : Type 0 where
  secret_not_resolved : (config_key vault_path : String) → VaultResolverError

-- `strip_prefix("vault://")`, where a path is left.
unfoldable pub vault_path_of : String → Option String
vault_path_of s =
    if starts_with s "vault://"
    then (let path = slice s 8 (len s) in if str_eq path "" then none else some path)
    else none

unfoldable pub refs_of : Map → List VaultRef
unfolding as_str vault_path_of
refs_of empty = []
refs_of (entry k v m) =
    let rest = refs_of m in
    elim (as_str v >>= vault_path_of) [
      | none ↦ rest
      | some path ↦ record { config_key = k; vault_path = path } ∷ rest
    ]

unfoldable pub extract_vault_refs : Value → List VaultRef
unfolding refs_of
extract_vault_refs (object m) = refs_of m
extract_vault_refs _ = []

-- A text that starts with `vault://`.
unfoldable pub is_vault_text : Option Value → Bool
unfolding as_str
is_vault_text o = elim (o >>= as_str) [ none ↦ false | some s ↦ starts_with s "vault://" ]

unfoldable pub replace_at : String → Value → Map → Map
unfolding is_vault_text
replace_at config_key v m =
    if is_vault_text (get_key m config_key) then insert_key m config_key v else m

-- `get_mut(section).and_then(as_object_mut)`.
unfoldable pub replace_in : String → String → Value → Map → Map
unfolding as_object replace_at
replace_in section config_key v m = elim (get_key m section >>= as_object) [
  | none ↦ m
  | some sub ↦ insert_key m section (object (replace_at config_key v sub))
]

-- One reference in a payload: at the top, in `config`, and in `input`.
unfoldable pub replace_ref : String → Value → Value → Value
unfolding replace_at replace_in
replace_ref config_key v (object m) =
    object (
      replace_in "input" config_key v
        (replace_in "config" config_key v (replace_at config_key v m)))
replace_ref config_key v other = other

-- The payload is left as it is then, where a secret is missing.
pub record Replacement : Type 0 where
  pub payload : Value
  pub error : Option VaultResolverError

unfoldable pub replace_vault_values : Value → (String → Option String) → List VaultRef → Replacement
unfolding replace_ref
replace_vault_values payload resolved [] = record { payload = payload; error = none }
replace_vault_values payload resolved (r ∷ refs) = elim (resolved r.vault_path) [
  | none ↦ record {
    payload = payload;
    error = some (secret_not_resolved r.config_key r.vault_path);
  }
  | some plaintext ↦
      replace_vault_values (replace_ref r.config_key (string plaintext) payload) resolved refs
]

unfoldable pub merge_vault_refs_into_allowlist : List String → List VaultRef → List String
merge_vault_refs_into_allowlist allowed_secrets [] = allowed_secrets
merge_vault_refs_into_allowlist allowed_secrets (r ∷ refs) =
    merge_vault_refs_into_allowlist
      (if any (λ s. str_eq s r.vault_path) allowed_secrets
        then allowed_secrets
        else allowed_secrets ++ r.vault_path ∷ [])
      refs
