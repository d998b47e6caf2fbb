-- ===== src/Protocol/Nonce.antt =====
-- `JobNonceCache` of talos-workflow-job-protocol/src/lib.rs: each nonce is admitted once.
use text.Mathlib.Text.{◌==◌ as str_eq}
use text.Mathlib.TextEquality.{eq_iff}
use talos_workflow_engine.Base.{
  ℕ, ◌-◌, ◌*◌, ◌^◌, ◌≤◌, ◌<◌, String, ◌≡◌, refl, Bool, true, false, Option, none, some, List, [],
  ◌∷◌, ltb, leb, if◌then◌else◌, length, retain, arith,
}

-- The largest `u64`, shut: proofs compare with it and do not count.
unfoldable pub u64_max : ℕ
u64_max = 2 ^ 64 - 1

unfoldable pub saturating_mul : ℕ → ℕ → ℕ
saturating_mul a b = if ltb u64_max (a * b) then u64_max else a * b

abbrev nonce_cache_hard_cap : ℕ
nonce_cache_hard_cap = 200000

-- The map from a nonce to its timestamp, behind the mutex.
abbrev pub NonceCache : Type 0
NonceCache = List (String × ℕ)

unfoldable pub stamp : NonceCache → String → Option ℕ
stamp [] n = none
stamp ((m, t) ∷ g) n = if str_eq m n then some t else stamp g n

unfoldable pub admit : NonceCache → String → ℕ → NonceCache
admit [] n t = (n, t) ∷ []
admit ((m, u) ∷ g) n t = if str_eq m n then (n, t) ∷ g else (m, u) ∷ admit g n t

-- `g.retain(|_, t| *t > cutoff)`.
unfoldable pub sweep : ℕ → NonceCache → NonceCache
sweep cutoff g = retain (λ e. ltb cutoff e.1) g

unfoldable pub sweep_if : Bool → ℕ → NonceCache → NonceCache
unfolding sweep
sweep_if b cutoff g = if b then sweep cutoff g else g

pub record Checked : Type 0 where
  pub fresh : Bool
  pub cache : NonceCache

-- The clock is `none` before 1970, where the code takes the message's own timestamp.
unfoldable pub now_of : Option ℕ → ℕ → ℕ
now_of none ts = ts
now_of (some now) ts = now

-- Entries older than twice the window go, once there are more than 1024.
unfoldable pub sweep_old : ℕ → ℕ → NonceCache → NonceCache
unfolding sweep_if saturating_mul
sweep_old now max_age_secs g =
    sweep_if (ltb 1024 (length g)) (now - saturating_mul max_age_secs 2) g

-- Under a flood, all older than the window go.
unfoldable pub sweep_flood : ℕ → ℕ → NonceCache → NonceCache
unfolding sweep_if
sweep_flood now max_age_secs g =
    sweep_if (leb nonce_cache_hard_cap (length g)) (now - max_age_secs) g

unfoldable pub check_and_record : Option ℕ → String → ℕ → ℕ → NonceCache → Checked
unfolding sweep_old sweep_flood stamp admit now_of
check_and_record clock nonce ts max_age_secs g =
    let now = now_of clock ts in
    let swept = sweep_old now max_age_secs g in
    elim (stamp swept nonce) [
      | some t ↦ record { fresh = false; cache = swept }
      | none ↦ record { fresh = true; cache = admit (sweep_flood now max_age_secs swept) nonce ts }
    ]

stamp-sweep :
    (g : NonceCache) (cutoff t : ℕ) (n : String)
    → stamp g n ≡ some t
    → cutoff < t
    → stamp (sweep cutoff g) n ≡ some t
unfolding stamp sweep
stamp-sweep [] cutoff t n h k = cc
stamp-sweep ((m, u) ∷ g) cutoff t n h k = ground (arith, stamp-sweep g cutoff t n)

stamp-sweep-none :
    (g : NonceCache) (cutoff : ℕ) (n : String) → stamp g n ≡ none → stamp (sweep cutoff g) n ≡ none
unfolding stamp sweep
stamp-sweep-none [] cutoff n h = refl
stamp-sweep-none ((m, u) ∷ g) cutoff n h = ground (arith, stamp-sweep-none g cutoff n)

pub stamp-sweep_if :
    (b : Bool) (g : NonceCache) (cutoff t : ℕ) (n : String)
    → stamp g n ≡ some t
    → cutoff < t
    → stamp (sweep_if b cutoff g) n ≡ some t
unfolding sweep_if
stamp-sweep_if true g cutoff t n h k = stamp-sweep g cutoff t n h k
stamp-sweep_if false g cutoff t n h k = h

pub stamp-sweep_if-none :
    (b : Bool) (g : NonceCache) (cutoff : ℕ) (n : String)
    → stamp g n ≡ none
    → stamp (sweep_if b cutoff g) n ≡ none
unfolding sweep_if
stamp-sweep_if-none true g cutoff n h = stamp-sweep-none g cutoff n h
stamp-sweep_if-none false g cutoff n h = h

pub stamp-admit :
    (g : NonceCache) (n k : String) (t : ℕ)
    → stamp (admit g n t) k ≡ (if str_eq n k then some t else stamp g k)
unfolding stamp admit
stamp-admit [] n k t = refl
stamp-admit ((m, u) ∷ g) n k t =
    ground (arith, eq_iff n k, eq_iff m n, eq_iff m k, stamp-admit g n k t)

pub saturating_mul-least : (m : ℕ) → m ≤ u64_max → m ≤ saturating_mul m 2
unfolding saturating_mul
saturating_mul-least m h = ground arith

module _ (now max_age_secs : ℕ) (g : NonceCache) (n : String) where
  pub stamp-sweep_old :
      (t : ℕ)
      → max_age_secs ≤ u64_max
      → now - max_age_secs < t
      → stamp g n ≡ some t
      → stamp (sweep_old now max_age_secs g) n ≡ some t
  unfolding sweep_old
  stamp-sweep_old t small recent there =
      stamp-sweep_if (ltb 1024 (length g)) g (now - saturating_mul max_age_secs 2) t n there
        (omega (arith, saturating_mul-least max_age_secs small))

  pub stamp-sweep_flood :
      (t : ℕ)
      → now - max_age_secs < t
      → stamp g n ≡ some t
      → stamp (sweep_flood now max_age_secs g) n ≡ some t
  unfolding sweep_flood
  stamp-sweep_flood t recent there =
      stamp-sweep_if (leb nonce_cache_hard_cap (length g)) g (now - max_age_secs) t n there recent

  pub stamp-sweep_old-none : stamp g n ≡ none → stamp (sweep_old now max_age_secs g) n ≡ none
  unfolding sweep_old
  stamp-sweep_old-none absent = stamp-sweep_if-none _ g _ n absent
