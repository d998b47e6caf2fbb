-- ===== src/Samples/Messages.antt =====
-- A signed message, verified and replayed.
use text.Mathlib.TextBridge.{IsPrefix}
use talos_workflow_engine.Base.{
  ◌↔◌, ℕ, ◌+◌, ◌≤◌, String, ◌≡◌, refl, Bool, true, false, none, some, List, [], ◌∷◌, arith,
}
use talos_workflow_engine.Protocol.Vault.{vault_path_permitted, vault_path_permitted-glob}
use talos_workflow_engine.Protocol.Nonce.{NonceCache, stamp, u64_max, now_of, check_and_record}
use talos_workflow_engine.Protocol.Verify.{
  Libraries, accepted, refused, parsed, parse_nonce, Call, verify,
}
use talos_workflow_engine.Protocol.Accepted.{verify-accepted, verify-replay, verifies}

-- Every text is hex, every key will do, and the signature of a payload is the payload itself.
same_bytes : List ℕ → List ℕ → Bool
same_bytes [] [] = true
same_bytes (x ∷ xs) (y ∷ ys) = same_bytes xs ys
same_bytes _ _ = false

abbrev libraries : Libraries
libraries = record {
  hex_decodes = λ s. true;
  key_error = λ k. none;
  verify_slice = λ k. same_bytes;
  decimal = λ n. "n";
}

abbrev call_at : ℕ → Call libraries
call_at now = record {
  clock = some now;
  later = some now;
  key = [];
  max_age_secs = 300;
  message = record { job_nonce = "1000:ab"; signing_payload = 1 ∷ []; signature = 1 ∷ [] };
}

abbrev recorded : NonceCache
recorded = ("1000:ab", 1000) ∷ []

accepts : verify libraries (call_at 1001) [] ≡ accepted recorded
unfolding verify check_and_record same_bytes u64_max
accepts = refl

verify-accepted_example :
    (ts : ℕ) × (parse_nonce libraries "1000:ab" ≡ parsed ts)
    × (1001 ≤ ts + 300)
    × (ts ≤ 1001 + 5)
    × (same_bytes (1 ∷ []) (1 ∷ []) ≡ true)
    × (stamp recorded "1000:ab" ≡ some ts)
unfolding now_of
verify-accepted_example = verify-accepted libraries (call_at 1001) [] recorded accepts

verify-replay_example :
    (msg : String) × (left : NonceCache) × (verify libraries
        (call_at 1200)
        (verifies libraries (call_at 1100 ∷ []) recorded)
      ≡ refused msg left)
unfolding parse_nonce now_of u64_max
verify-replay_example =
    verify-replay libraries (call_at 1001) (call_at 1100 ∷ []) (call_at 1200) [] recorded 1000
      accepts refl refl ((omega arith, λ ts. omega arith), tt) (omega arith, λ ts. omega arith)

vault_path_permitted-glob_example :
    (vault_path_permitted ("stripe/*" ∷ []) "stripe" ≡ true) ↔ IsPrefix "stripe/" "stripe"
vault_path_permitted-glob_example = vault_path_permitted-glob "stripe" "stripe"
