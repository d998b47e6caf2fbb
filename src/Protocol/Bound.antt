-- ===== src/Protocol/Bound.antt =====
-- Which fields of a job request its signature binds (`signing_payload` of
-- talos-workflow-job-protocol/src/lib.rs).
use mathlib.Core.List.{append_assoc}
use talos_workflow_engine.Base.{
  ℕ, ◌≡◌, ◌≢◌, refl, sym, ap, ◌∙◌, Bool, true, false, none, some, List, [], ◌∷◌, ◌++◌, length,
  length-append, ◌<◌, All, arith,
}
use talos_workflow_engine.Protocol.Signing.{
  Text, LlmTier, tier1, tier2, JobRequest, Printing, sort, join, fields, lp, wasm_hash,
  name_or_dash, actor_text, as_signing_str, bool_text, signing_payload,
}

-- A text without `:`.
abbrev pub NoColon : Text → Type 0
NoColon s = All (λ c. c ≢ 58) s

-- Where two texts go up to their first colon, they are equal.
split_colon :
    (s s' t t' : Text) → NoColon s → NoColon s' → s ++ 58 ∷ t ≡ s' ++ 58 ∷ t' → (s ≡ s') × (t ≡ t')
split_colon [] [] t t' h h' e = (refl, cc e)
split_colon [] (x ∷ s') t t' h h' e = absurd (h'.0 (cc e))
split_colon (x ∷ s) [] t t' h h' e = absurd (h.0 (cc e))
split_colon (x ∷ s) (y ∷ s') t t' h h' e =
    let (same, rest) = split_colon s s' t t' h.1 h'.1 (cc e) in (cc (e, same), rest)

split_length : (s s' t t' : Text) → length s ≡ length s' → s ++ t ≡ s' ++ t' → (s ≡ s') × (t ≡ t')
split_length [] [] t t' l e = (refl, e)
split_length [] (x ∷ s') t t' l e = absurd (omega arith)
split_length (x ∷ s) [] t t' l e = absurd (omega arith)
split_length (x ∷ s) (y ∷ s') t t' l e =
    let (same, rest) = split_length s s' t t' (omega arith) (cc e) in (cc (e, same), rest)

-- A text with one colon, as `sign` makes a nonce and `verify` reads it.
pub record IsNonce (s : Text) : Type 0 where
  pub stamp : Text
  pub random : Text
  pub form : s ≡ stamp ++ 58 ∷ random
  pub stamp_plain : NoColon stamp
  pub random_plain : NoColon random

module _ {V : Type 0} (printing : Printing V) where
  open printing use {uuid_text, decimal, sha256_hex, json_text}

  -- UUIDs, numbers and hex digits have no colon, and numbers and UUIDs are told apart by their texts.
  pub record IsPrinting : Type 0 where
    pub uuid_plain : (u : ℕ) → NoColon (uuid_text u)
    pub uuid_apart : (u w : ℕ) → uuid_text u ≡ uuid_text w → u ≡ w
    pub decimal_plain : (n : ℕ) → NoColon (decimal n)
    pub decimal_apart : (n m : ℕ) → decimal n ≡ decimal m → n ≡ m
    pub hash_plain : (b : List ℕ) → NoColon (sha256_hex b)

  module _ (laws : IsPrinting) where
    split_lp :
        (s s' t t' : Text)
        → lp printing s ++ 58 ∷ t ≡ lp printing s' ++ 58 ∷ t'
        → (s ≡ s') × (t ≡ t')
    unfolding lp
    split_lp s s' t t' e =
        let flat =
          sym (append_assoc (decimal (length s)) (58 ∷ s) (58 ∷ t))
          ∙ e
          ∙ append_assoc (decimal (length s')) (58 ∷ s') (58 ∷ t') in
        let (long, rest) =
          split_colon (decimal (length s)) (decimal (length s')) (s ++ 58 ∷ t) (s' ++ 58 ∷ t')
            (laws.decimal_plain (length s)) (laws.decimal_plain (length s')) flat in
        let (same, after) =
          split_length s s' (58 ∷ t) (58 ∷ t') (laws.decimal_apart (length s) (length s') long)
            rest in
        (same, cc after)

    split_nonce :
        (s s' t t' : Text)
        → IsNonce s
        → IsNonce s'
        → s ++ 58 ∷ t ≡ s' ++ 58 ∷ t'
        → (s ≡ s') × (t ≡ t')
    split_nonce s s' t t' n n' e =
        let flat : n.stamp ++ 58 ∷ (n.random ++ 58 ∷ t) ≡ n'.stamp ++ 58 ∷ (n'.random ++ 58 ∷ t') =
          sym (append_assoc n.stamp (58 ∷ n.random) (58 ∷ t))
          ∙ ap (λ x. x ++ 58 ∷ t) (sym n.form)
          ∙ e
          ∙ ap (λ x. x ++ 58 ∷ t') n'.form
          ∙ append_assoc n'.stamp (58 ∷ n'.random) (58 ∷ t') in
        let (same, rest) =
          split_colon n.stamp n'.stamp (n.random ++ 58 ∷ t) (n'.random ++ 58 ∷ t') n.stamp_plain
            n'.stamp_plain flat in
        let (same', after) =
          split_colon n.random n'.random t t' n.random_plain n'.random_plain rest in
        (n.form ∙ cc (same, same') ∙ sym n'.form, after)

    -- Two requests that agree in all that is signed: in the hashes of their input and their secrets,
    -- and in the sorted and joined lists of what they grant.
    pub record SameSigned (r r' : JobRequest V) : Type 0 where
      pub job : r.job_id ≡ r'.job_id
      pub execution : r.workflow_execution_id ≡ r'.workflow_execution_id
      pub uri : r.module_uri ≡ r'.module_uri
      pub nonce : r.job_nonce ≡ r'.job_nonce
      pub input : sha256_hex (json_text r.input_payload) ≡ sha256_hex (json_text r'.input_payload)
      pub secrets : sha256_hex r.ciphertext ≡ sha256_hex r'.ciphertext
      pub timeout : r.timeout_ms ≡ r'.timeout_ms
      pub hosts : join (sort r.allowed_hosts) ≡ join (sort r'.allowed_hosts)
      pub methods : join (sort r.allowed_methods) ≡ join (sort r'.allowed_methods)
      pub wasm :
          wasm_hash printing r.wasm_bytes r.expected_wasm_hash
          ≡ wasm_hash printing r'.wasm_bytes r'.expected_wasm_hash
      pub integration :
          name_or_dash printing r.integration_name ≡ name_or_dash printing r'.integration_name
      pub user : r.user_id ≡ r'.user_id
      pub tier : r.max_llm_tier ≡ r'.max_llm_tier
      pub actor : actor_text printing r.actor_id ≡ actor_text printing r'.actor_id
      pub grants : join (sort r.allowed_secrets) ≡ join (sort r'.allowed_secrets)
      pub operations : join (sort r.allowed_sql_operations) ≡ join (sort r'.allowed_sql_operations)
      pub exposure : r.allow_tier2_exposure ≡ r'.allow_tier2_exposure

    tier_plain : (t : LlmTier) → NoColon (as_signing_str t)
    unfolding as_signing_str
    tier_plain tier1 = omega arith
    tier_plain tier2 = omega arith

    tier_apart : (t u : LlmTier) → as_signing_str t ≡ as_signing_str u → t ≡ u
    unfolding as_signing_str
    tier_apart tier1 tier1 e = refl
    tier_apart tier1 tier2 e = absurd (ground (arith, e))
    tier_apart tier2 tier1 e = absurd (ground (arith, e))
    tier_apart tier2 tier2 e = refl

    bool_apart : (b c : Bool) → bool_text b ≡ bool_text c → b ≡ c
    unfolding bool_text
    bool_apart true true e = refl
    bool_apart true false e = absurd (ground (arith, e))
    bool_apart false true e = absurd (ground (arith, e))
    bool_apart false false e = refl

    split_uuid :
        (u u' : ℕ) (t t' : Text)
        → uuid_text u ++ 58 ∷ t ≡ uuid_text u' ++ 58 ∷ t'
        → (u ≡ u') × (t ≡ t')
    split_uuid u u' t t' e =
        let (same, rest) =
          split_colon (uuid_text u) (uuid_text u') t t' (laws.uuid_plain u) (laws.uuid_plain u')
            e in
        (laws.uuid_apart u u' same, rest)

    split_decimal :
        (n m : ℕ) (t t' : Text) → decimal n ++ 58 ∷ t ≡ decimal m ++ 58 ∷ t' → (n ≡ m) × (t ≡ t')
    split_decimal n m t t' e =
        let (same, rest) =
          split_colon (decimal n) (decimal m) t t' (laws.decimal_plain n) (laws.decimal_plain m)
            e in
        (laws.decimal_apart n m same, rest)

    split_hash :
        (b c : List ℕ) (t t' : Text)
        → sha256_hex b ++ 58 ∷ t ≡ sha256_hex c ++ 58 ∷ t'
        → (sha256_hex b ≡ sha256_hex c) × (t ≡ t')
    split_hash b c t t' e =
        split_colon (sha256_hex b) (sha256_hex c) t t' (laws.hash_plain b) (laws.hash_plain c) e

    split_tier :
        (x y : LlmTier) (t t' : Text)
        → as_signing_str x ++ 58 ∷ t ≡ as_signing_str y ++ 58 ∷ t'
        → (x ≡ y) × (t ≡ t')
    split_tier x y t t' e =
        let (same, rest) =
          split_colon (as_signing_str x) (as_signing_str y) t t' (tier_plain x) (tier_plain y) e in
        (tier_apart x y same, rest)

    -- The signed bytes bind every signed field: where the payloads of two requests are the same, so is
    -- all that is signed of them. Their nonces have one colon each, as `verify` demands, and the text
    -- that stands for the module's code has none, as the hash of inline bytes has none.
    pub signing_payload-SameSigned :
        (r r' : JobRequest V)
        → IsNonce r.job_nonce
        → IsNonce r'.job_nonce
        → NoColon (wasm_hash printing r.wasm_bytes r.expected_wasm_hash)
        → NoColon (wasm_hash printing r'.wasm_bytes r'.expected_wasm_hash)
        → signing_payload printing r ≡ signing_payload printing r'
        → SameSigned r r'
    unfolding signing_payload fields
    signing_payload-SameSigned r r' n n' w w' e =
        let (job, e) = split_uuid r.job_id r'.job_id _ _ e in
        let (execution, e) = split_uuid r.workflow_execution_id r'.workflow_execution_id _ _ e in
        let (uri, e) = split_lp (r.module_uri) (r'.module_uri) _ _ e in
        let (nonce, e) = split_nonce r.job_nonce r'.job_nonce _ _ n n' e in
        let (input, e) =
          split_hash (json_text r.input_payload) (json_text r'.input_payload) _ _ e in
        let (secrets, e) = split_hash (r.ciphertext) (r'.ciphertext) _ _ e in
        let (timeout, e) = split_decimal r.timeout_ms r'.timeout_ms _ _ e in
        let (hosts, e) =
          split_lp (join (sort r.allowed_hosts)) (join (sort r'.allowed_hosts)) _ _ e in
        let (methods, e) =
          split_lp (join (sort r.allowed_methods)) (join (sort r'.allowed_methods)) _ _ e in
        let (wasm, e) =
          split_colon (wasm_hash printing r.wasm_bytes r.expected_wasm_hash)
            (wasm_hash printing r'.wasm_bytes r'.expected_wasm_hash) _ _ w w' e in
        let (integration, e) =
          split_lp (name_or_dash printing r.integration_name)
            (name_or_dash printing r'.integration_name) _ _ e in
        let (user, e) = split_uuid r.user_id r'.user_id _ _ e in
        let (tier, e) = split_tier r.max_llm_tier r'.max_llm_tier _ _ e in
        let (actor, e) =
          split_lp (actor_text printing r.actor_id) (actor_text printing r'.actor_id) _ _ e in
        let (grants, e) =
          split_lp (join (sort r.allowed_secrets)) (join (sort r'.allowed_secrets)) _ _ e in
        let (operations, e) =
          split_lp (join (sort r.allowed_sql_operations)) (join (sort r'.allowed_sql_operations)) _
            _ e in
        record {
          job = job;
          execution = execution;
          uri = uri;
          nonce = nonce;
          input = input;
          secrets = secrets;
          timeout = timeout;
          hosts = hosts;
          methods = methods;
          wasm = wasm;
          integration = integration;
          user = user;
          tier = tier;
          actor = actor;
          grants = grants;
          operations = operations;
          exposure = bool_apart r.allow_tier2_exposure r'.allow_tier2_exposure e;
        }

  longer : (p z : Text) → length z < length (p ++ 58 ∷ lp printing z)
  unfolding lp
  longer p z =
      omega
        (arith, length-append p (58 ∷ lp printing z), length-append (decimal (length z)) (58 ∷ z))

  -- The text of an expected hash is signed without its length. Where it holds a colon, it can stand
  -- for a part of the integration's name: two requests with different names have the same payload.
  pub signing_payload-collides :
      (r : JobRequest V) (h p z : Text)
      → (signing_payload printing (record r {
        wasm_bytes = none;
        expected_wasm_hash = some (h ++ 58 ∷ decimal (length (p ++ 58 ∷ lp printing z)) ++ 58 ∷ p);
        integration_name = some z;
      })
          ≡ signing_payload printing (record r {
            wasm_bytes = none;
            expected_wasm_hash = some h;
            integration_name = some (p ++ 58 ∷ lp printing z);
          }))
        × (p ++ 58 ∷ lp printing z ≢ z)
  unfolding signing_payload fields lp wasm_hash name_or_dash
  signing_payload-collides r h p z =
      (simp append_assoc, λ e. omega (arith, longer p z, ap length e))
