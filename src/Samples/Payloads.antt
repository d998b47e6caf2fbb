-- ===== src/Samples/Payloads.antt =====
-- A payload with references to secrets, and a job request that is signed.
use text.Mathlib.Text.{◌==◌ as str_eq}
use talos_workflow_engine.Base.{
  ℕ, zero, suc, ◌≡◌, ◌≢◌, refl, ap, ◌⊎◌, false, String, Option, none, some, List, [], ◌∷◌, ◌++◌,
  arith, Bool-cases, inl, inr, if◌then◌else◌, length,
}
use talos_workflow_engine.Base.Json.{Map, string, object, empty, entry, as_str, get_key}
use talos_workflow_engine.Secrets.{
  VaultRef, secret_not_resolved, is_vault_text, replace_vault_values,
}
use talos_workflow_engine.Secrets.Replaced.{
  Place, value_at, settled, Resolved, Missing, replace_vault_values-settles,
}
use talos_workflow_engine.Protocol.Signing.{
  Text, tier1, JobRequest, Printing, lp, signing_payload, wasm_hash,
}
use talos_workflow_engine.Protocol.Bound.{
  NoColon, IsNonce, IsPrinting, SameSigned, signing_payload-SameSigned, signing_payload-collides,
}

abbrev resolved : String → Option String
resolved path = if str_eq path "mail/key" then some "s3cret" else none

no_refs : (path s : String) → resolved path ≡ some s → is_vault_text (some (string s)) ≡ false
unfolding is_vault_text as_str
no_refs path s h = elim (Bool-cases (str_eq path "mail/key")) [
  | inl here ↦ let e : s ≡ "s3cret" = ground (arith, here, h) in rw e refl
  | inr other ↦ absurd (ground (arith, other, h))
]

abbrev payload : Map
payload = entry "config" (object (entry "KEY" (string "vault://mail/key") empty)) empty

abbrev refs : List VaultRef
refs = record { config_key = "KEY"; vault_path = "mail/key" } ∷ []

becomes_secret :
    settled refs resolved "KEY" (value_at payload Place.config "KEY") ≡ some (string "s3cret")
unfolding is_vault_text as_str get_key
becomes_secret = refl

replace_vault_values-settles_example :
    ((m' : Map) × Resolved resolved refs
      × (replace_vault_values (object payload) resolved refs
          ≡ record { payload = object m'; error = none })
      × (value_at m' Place.config "KEY"
          ≡ settled refs resolved "KEY" (value_at payload Place.config "KEY")))
    ⊎ ((w : Missing resolved refs) × ((replace_vault_values (object payload) resolved refs).error
          ≡ some (secret_not_resolved w.missed.config_key w.missed.vault_path)))
replace_vault_values-settles_example =
    replace_vault_values-settles resolved no_refs Place.config "KEY" tt payload refs

-- A number is written in unary.
ticks : ℕ → Text
ticks zero = []
ticks (suc n) = 49 ∷ ticks n

ticks_plain : (n : ℕ) → NoColon (ticks n)
unfolding ticks
ticks_plain zero = tt
ticks_plain (suc n) = (omega arith, ticks_plain n)

ticks_apart : (n m : ℕ) → ticks n ≡ ticks m → n ≡ m
unfolding ticks
ticks_apart zero zero e = refl
ticks_apart zero (suc m) e = cc
ticks_apart (suc n) zero e = cc
ticks_apart (suc n) (suc m) e = ap suc (ticks_apart n m (cc e))

abbrev printing : Printing ℕ
printing = record {
  uuid_text = ticks;
  decimal = ticks;
  sha256_hex = λ b. ticks (length b);
  json_text = ticks;
}

printing-IsPrinting : IsPrinting printing
printing-IsPrinting = record {
  uuid_plain = ticks_plain;
  uuid_apart = ticks_apart;
  decimal_plain = ticks_plain;
  decimal_apart = ticks_apart;
  hash_plain = λ b. ticks_plain (length b);
}

abbrev request : JobRequest ℕ
request = record {
  job_id = 1;
  workflow_execution_id = 2;
  module_uri = 97 ∷ [];
  job_nonce = 49 ∷ 58 ∷ 97 ∷ [];
  input_payload = 0;
  ciphertext = [];
  timeout_ms = 3;
  allowed_hosts = (98 ∷ []) ∷ (97 ∷ []) ∷ [];
  allowed_methods = [];
  wasm_bytes = none;
  expected_wasm_hash = some (102 ∷ []);
  integration_name = none;
  user_id = 4;
  max_llm_tier = tier1;
  actor_id = none;
  allowed_secrets = [];
  allowed_sql_operations = [];
  allow_tier2_exposure = false;
}

-- The order of the hosts does not matter.
abbrev reordered : JobRequest ℕ
reordered = record request { allowed_hosts = (97 ∷ []) ∷ (98 ∷ []) ∷ [] }

request-IsNonce : IsNonce request.job_nonce
request-IsNonce = record {
  stamp = 49 ∷ [];
  random = 97 ∷ [];
  form = refl;
  stamp_plain = omega arith;
  random_plain = omega arith;
}

same_payload : signing_payload printing request ≡ signing_payload printing reordered
unfolding signing_payload
same_payload = refl

signing_payload-SameSigned_example : SameSigned printing printing-IsPrinting request reordered
unfolding wasm_hash
signing_payload-SameSigned_example =
    signing_payload-SameSigned printing printing-IsPrinting request reordered request-IsNonce
      request-IsNonce (omega arith) (omega arith) same_payload

signing_payload-collides_example :
    (signing_payload printing (record request {
      wasm_bytes = none;
      expected_wasm_hash = some (
          (102 ∷ [])
          ++ 58 ∷ ticks (length ((97 ∷ []) ++ 58 ∷ lp printing (98 ∷ [])))
          ++ 58 ∷ 97 ∷ []);
      integration_name = some (98 ∷ []);
    })
      ≡ signing_payload printing (record request {
        wasm_bytes = none;
        expected_wasm_hash = some (102 ∷ []);
        integration_name = some ((97 ∷ []) ++ 58 ∷ lp printing (98 ∷ []));
      }))
    × ((97 ∷ []) ++ 58 ∷ lp printing (98 ∷ []) ≢ 98 ∷ [])
signing_payload-collides_example =
    signing_payload-collides printing request (102 ∷ []) (97 ∷ []) (98 ∷ [])
