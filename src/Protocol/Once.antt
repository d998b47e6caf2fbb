-- ===== src/Protocol/Once.antt =====
-- A worker's result is accepted once: `JobResult::verify` and the nonce cache that all messages share.
use talos_workflow_engine.Base.{
  ℕ, ◌-◌, ◌≤◌, ◌<◌, String, ◌≡◌, refl, sym, ap, ◌∙◌, inl, inr, true, false, Option, some, List, [],
  ◌∷◌, All, Bool-cases,
}
use talos_workflow_engine.Base.Result.{Result, ok, err, Result-cases}
use talos_workflow_engine.Protocol.Nonce.{NonceCache, Checked, u64_max, now_of, stamp}
use talos_workflow_engine.Protocol.Replay.{
  Attempt, check, Recent, check-refuses, check-remembers, check-admits,
}
use talos_workflow_engine.Protocol.Verify.{Libraries}
use talos_workflow_engine.Protocol.Results.{
  JobResult, Printing, verify_no_replay, verify_result, seen_before,
}

-- The uses of the cache between two results, in their order.
abbrev pub checks : List Attempt → NonceCache → NonceCache
checks [] g = g
checks (a ∷ attempts) g = checks attempts (check a g).cache

checks-remember :
    (n : String) (t : ℕ) (attempts : List Attempt) (g : NonceCache)
    → All (Recent t) attempts
    → stamp g n ≡ some t
    → stamp (checks attempts g) n ≡ some t
checks-remember n t [] g recent there = there
checks-remember n t (a ∷ attempts) g recent there =
    checks-remember n t attempts (check a g).cache recent.1 (check-remembers n t a g recent.0 there)

-- A call: the key and the age that is allowed, and both readings of the clock.
pub record Reading : Type 0 where
  pub key : List ℕ
  pub max_age_secs : ℕ
  pub clock : Option ℕ
  pub later : Option ℕ

module _ (lib : Libraries) (printing : Printing) where
  abbrev pub verified : Reading → JobResult → NonceCache → Result {0} Unit × NonceCache
  verified c r g = verify_result lib printing c.key c.max_age_secs c.clock c.later r g

  abbrev pub timestamp : Reading → JobResult → Result ℕ
  timestamp c r = verify_no_replay lib printing c.key c.max_age_secs c.clock r

  abbrev pub noted : Reading → JobResult → ℕ → Attempt
  noted c r ts = record {
    clock = c.later;
    nonce = r.result_nonce;
    ts = ts;
    max_age_secs = c.max_age_secs;
  }

  -- The cache takes a nonce stamped `t` for recent in this call.
  abbrev pub InWindow : ℕ → Reading → Type 0
  InWindow t c = (c.max_age_secs ≤ u64_max) × ((ts : ℕ) → now_of c.later ts - c.max_age_secs < t)

  verified-ok :
      (c : Reading) (r : JobResult) (g : NonceCache) (ts : ℕ)
      → timestamp c r ≡ ok ts
      → verified c r g ≡ seen_before lib printing c.max_age_secs (check (noted c r ts) g)
  unfolding verify_result
  verified-ok c r g ts h = rw (h, verify_result) refl

  seen_before-cases :
      (max_age_secs : ℕ) (c : Checked)
      → (seen_before lib printing max_age_secs c).0 ≡ ok tt
      → c.fresh ≡ true
  unfolding seen_before
  seen_before-cases max_age_secs c h = elim (Bool-cases c.fresh) [
    | inl fresh ↦ fresh
    | inr stale ↦ absurd (cc (rw stale at h))
  ]

  seen_before-stale :
      (max_age_secs : ℕ) (c : Checked)
      → c.fresh ≡ false
      → (e : String) × ((seen_before lib printing max_age_secs c).0 ≡ err e)
  unfolding seen_before
  seen_before-stale max_age_secs c stale = rw stale (_, refl)

  -- Once a result has been accepted, with `t` in its nonce, no result with that nonce is, whatever else
  -- was looked up in the cache in between, as long as the cache takes `t` for recent in each of these
  -- calls and in the last one.
  pub verify_result-replay :
      (c : Reading) (r : JobResult) (g : NonceCache) (t : ℕ) (between : List Attempt)
      (again : Reading) (r' : JobResult)
      → (verified c r g).0 ≡ ok tt
      → timestamp c r ≡ ok t
      → r'.result_nonce ≡ r.result_nonce
      → All (Recent t) between
      → InWindow t again
      → (e : String) × ((verified again r' (checks between (verified c r g).1)).0 ≡ err e)
  unfolding verify_result seen_before
  verify_result-replay c r g t between again r' admitted stamped same recent last =
      let first = verified-ok c r g t stamped in
      let fresh =
        seen_before-cases c.max_age_secs (check (noted c r t) g)
          (ap (λ (x : Result {0} Unit × NonceCache). x.0) (sym first) ∙ admitted) in
      let recorded : stamp (verified c r g).1 r.result_nonce ≡ some t =
        rw first (check-admits (noted c r t) g fresh) in
      let there = checks-remember r.result_nonce t between (verified c r g).1 recent recorded in
      elim (Result-cases (timestamp again r')) [
        | inr (e, bad) ↦ (e, rw (bad, verify_result) refl)
        | inl (u, good) ↦
            let (e, refused) =
              seen_before-stale again.max_age_secs
                (check (noted again r' u) (checks between (verified c r g).1))
                (check-refuses r.result_nonce t (noted again r' u)
                  (checks between (verified c r g).1) (last.0, last.1 u) there same) in
            (e, rw (verified-ok again r' (checks between (verified c r g).1) u good) refused)
      ]
