-- ===== src/Protocol/Providers.antt =====
-- The reserved hosts and vault paths of language-model providers, in
-- talos-workflow-job-protocol/src/lib.rs.
use Prim.Native.String.{◌++◌}
use text.Mathlib.Text.{◌==◌ as str_eq}
use text.Mathlib.TextPositions.{eq_refl}
use talos_workflow_engine.Base.{
  String, ◌≡◌, Bool, true, ◌||◌, List, [], ◌∷◌, any, arith, inl, inr, ◌⊎◌,
}
use talos_workflow_engine.Protocol.Vault.{ends_with, ends_with-append}

abbrev pub llm_provider_vault_paths : List String
llm_provider_vault_paths = "anthropic/api_key" ∷ "openai/api_key" ∷ "gemini/api_key" ∷ []

unfoldable pub is_llm_provider_vault_path : String → Bool
is_llm_provider_vault_path path = any (λ p. str_eq p path) llm_provider_vault_paths

abbrev pub external_llm_hosts : List String
external_llm_hosts =
    "api.anthropic.com" ∷ "api.openai.com" ∷ "generativelanguage.googleapis.com"
    ∷ "aiplatform.googleapis.com" ∷ []

unfoldable pub is_host_of : String → String → Bool
unfolding ends_with
is_host_of host_lower reserved =
    str_eq reserved host_lower || ends_with host_lower ("." ++ reserved)

unfoldable pub is_external_llm_host : String → Bool
unfolding is_host_of
is_external_llm_host host_lower = any (is_host_of host_lower) external_llm_hosts

abbrev pub OneOf : String → List String → Type 0
OneOf s [] = ⊥
OneOf s (x ∷ xs) = (x ≡ s) ⊎ OneOf s xs

any-OneOf :
    (p : String → Bool) (s : String) (xs : List String) → OneOf s xs → p s ≡ true → any p xs ≡ true
any-OneOf p s [] h k = absurd h
any-OneOf p s (x ∷ xs) (inl e) k = let here : p x ≡ true = rw e k in ground (arith, here)
any-OneOf p s (x ∷ xs) (inr h) k = ground (arith, any-OneOf p s xs h k)

is_host_of-same : (h : String) → is_host_of h h ≡ true
unfolding is_host_of
is_host_of-same h = ground (arith, eq_refl h)

is_host_of-below : (sub h : String) → is_host_of (sub ++ ("." ++ h)) h ≡ true
unfolding is_host_of
is_host_of-below sub h = ground (arith, ends_with-append sub ("." ++ h))

-- Every reserved host is blocked, and so is every subdomain of it, however deep.
is_external_llm_host-reserved :
    (h sub : String)
    → OneOf h external_llm_hosts
    → (is_external_llm_host h ≡ true) × (is_external_llm_host (sub ++ ("." ++ h)) ≡ true)
unfolding is_external_llm_host
is_external_llm_host-reserved h sub listed = (
  any-OneOf (is_host_of h) h external_llm_hosts listed (is_host_of-same h),
  any-OneOf (is_host_of (sub ++ ("." ++ h))) h external_llm_hosts listed (is_host_of-below sub h),
)
