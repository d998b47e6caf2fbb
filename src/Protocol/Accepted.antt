-- ===== src/Protocol/Accepted.antt =====
-- What it means that `JobRequest::verify` of talos-workflow-job-protocol/src/lib.rs accepts a message,
-- and what it leaves in the nonce cache.
use talos_workflow_engine.Base.{
  ℕ, ◌+◌, ◌-◌, ◌≤◌, ◌<◌, String, ◌≡◌, refl, sym, ap, ◌∙◌, ◌⊎◌, true, false, none, some, List, [],
  ◌∷◌, arith, All, Bool-cases, Option-cases, inl, inr,
}
use talos_workflow_engine.Protocol.Nonce.{NonceCache, Checked, u64_max, stamp, now_of}
use talos_workflow_engine.Protocol.Replay.{check, check-admits, check-remembers, check-refuses}
use talos_workflow_engine.Protocol.Verify.{
  Libraries, Message, accepted, refused, cache_of, Parsed, parsed, invalid, parse_nonce,
  freshness_error, signature_error, Call, attempt, replay_verdict, verify,
}

Parsed-cases : (p : Parsed) → ((msg : String) × (p ≡ invalid msg)) ⊎ ((ts : ℕ) × (p ≡ parsed ts))
Parsed-cases (invalid msg) = inl (msg, refl)
Parsed-cases (parsed ts) = inr (ts, refl)

refused-accepted : {msg : String} {g g' : NonceCache} → refused msg g ≡ accepted g' → ⊥
refused-accepted h = cc

accepted-injective : {g g' : NonceCache} → accepted g ≡ accepted g' → g ≡ g'
accepted-injective h = cc

parsed-injective : {t u : ℕ} → parsed t ≡ parsed u → t ≡ u
parsed-injective h = cc

false-true : false ≡ true → ⊥
false-true h = cc

module _ (lib : Libraries) where
  freshness_error-bounds :
      (now ts max_age_secs : ℕ)
      → freshness_error lib now ts max_age_secs ≡ none
      → (now ≤ ts + max_age_secs) × (ts ≤ now + 5)
  unfolding freshness_error
  freshness_error-bounds now ts max_age_secs h = (ground arith, ground arith)

  signature_error-valid :
      (key : List ℕ) (m : Message)
      → signature_error lib key m ≡ none
      → lib.verify_slice key m.signing_payload m.signature ≡ true
  unfolding signature_error
  signature_error-valid key m h = ground arith

  -- The call passes the first two steps, with this timestamp.
  record Passes (c : Call lib) (ts : ℕ) : Type 0 where
    pub stamped : parse_nonce lib c.message.job_nonce ≡ parsed ts
    pub timely : freshness_error lib (now_of c.clock 0) ts c.max_age_secs ≡ none
    pub signed : signature_error lib c.key c.message ≡ none

  Passes-verify :
      (c : Call lib) (ts : ℕ) (g : NonceCache)
      → Passes c ts
      → verify lib c g ≡ replay_verdict lib c (check (attempt lib c ts) g)
  unfolding verify
  Passes-verify c ts g p = rw (p.stamped, p.timely, p.signed, verify) refl

  -- Every call is refused without a trace, or passes on to the nonce cache.
  verify-cases :
      (c : Call lib) (g : NonceCache)
      → ((msg : String) × (verify lib c g ≡ refused msg g)) ⊎ ((ts : ℕ) × Passes c ts)
  unfolding verify
  verify-cases c g = elim (Parsed-cases (parse_nonce lib c.message.job_nonce)) [
    | inl (msg, bad) ↦ inl (msg, rw (bad, verify) refl)
    | inr (ts, good) ↦
        elim (Option-cases (freshness_error lib (now_of c.clock 0) ts c.max_age_secs)) [
          | inr (msg, stale) ↦ inl (msg, rw (good, stale, verify) refl)
          | inl timely ↦ elim (Option-cases (signature_error lib c.key c.message)) [
            | inr (msg, forged) ↦ inl (msg, rw (good, timely, forged, verify) refl)
            | inl signed ↦ inr (ts, record { stamped = good; timely = timely; signed = signed })
          ]
        ]
  ]

  replay_verdict-fresh :
      (c : Call lib) (r : Checked) → r.fresh ≡ true → replay_verdict lib c r ≡ accepted r.cache
  unfolding replay_verdict
  replay_verdict-fresh c r h = rw (h, replay_verdict) refl

  pub replay_verdict-stale :
      (c : Call lib) (r : Checked)
      → r.fresh ≡ false
      → (msg : String) × (replay_verdict lib c r ≡ refused msg r.cache)
  unfolding replay_verdict
  replay_verdict-stale c r h = rw (h, replay_verdict) (_, refl)

  accepted-fresh :
      (c : Call lib) (r : Checked) (g : NonceCache)
      → replay_verdict lib c r ≡ accepted g
      → (r.fresh ≡ true) × (r.cache ≡ g)
  accepted-fresh c r g h = elim (Bool-cases r.fresh) [
    | inl admitted ↦ (admitted, accepted-injective (sym (replay_verdict-fresh c r admitted) ∙ h))
    | inr replayed ↦ absurd (refused-accepted (sym (replay_verdict-stale c r replayed).1 ∙ h))
  ]

  -- An accepted message carries a timestamp that is neither older than the allowed age nor more than
  -- five seconds ahead of the clock, and a valid signature; its nonce is recorded with the timestamp.
  pub verify-accepted :
      (c : Call lib) (g g' : NonceCache)
      → verify lib c g ≡ accepted g'
      → (ts : ℕ) × (parse_nonce lib c.message.job_nonce ≡ parsed ts)
        × (now_of c.clock 0 ≤ ts + c.max_age_secs)
        × (ts ≤ now_of c.clock 0 + 5)
        × (lib.verify_slice c.key c.message.signing_payload c.message.signature ≡ true)
        × (stamp g' c.message.job_nonce ≡ some ts)
  verify-accepted c g g' h = elim (verify-cases c g) [
    | inl (msg, bad) ↦ absurd (refused-accepted (sym bad ∙ h))
    | inr (ts, p) ↦
        let (fresh, left) =
          accepted-fresh c (check (attempt lib c ts) g) g' (sym (Passes-verify c ts g p) ∙ h) in
        let (old, ahead) = freshness_error-bounds (now_of c.clock 0) ts c.max_age_secs p.timely in
        (
          ts,
          p.stamped,
          old,
          ahead,
          signature_error-valid c.key c.message p.signed,
          rw (← left) (check-admits (attempt lib c ts) g fresh),
        )
  ]

  -- The calls that share a cache, in their order.
  abbrev pub verifies : List (Call lib) → NonceCache → NonceCache
  verifies [] g = g
  verifies (c ∷ cs) g = verifies cs (cache_of (verify lib c g))

  -- When the cache reads the clock in this call, a nonce stamped `t` is younger than the allowed age.
  abbrev pub InWindow : ℕ → Call lib → Type 0
  InWindow t c = (c.max_age_secs ≤ u64_max) × ((ts : ℕ) → now_of c.later ts - c.max_age_secs < t)

  cache_of-replay_verdict :
      (c : Call lib) (r : Checked) → cache_of (replay_verdict lib c r) ≡ r.cache
  cache_of-replay_verdict c r = elim (Bool-cases r.fresh) [
    | inl admitted ↦ ap cache_of (replay_verdict-fresh c r admitted)
    | inr replayed ↦ ap cache_of (replay_verdict-stale c r replayed).1
  ]

  verify-remembers :
      (n : String) (t : ℕ) (c : Call lib) (g : NonceCache)
      → InWindow t c
      → stamp g n ≡ some t
      → stamp (cache_of (verify lib c g)) n ≡ some t
  verify-remembers n t c g window there = elim (verify-cases c g) [
    | inl (msg, bad) ↦ rw bad there
    | inr (ts, p) ↦
        rw (Passes-verify c ts g p, cache_of-replay_verdict c (check (attempt lib c ts) g))
          (check-remembers n t (attempt lib c ts) g (window.0, window.1 ts) there)
  ]

  verifies-remembers :
      (n : String) (t : ℕ) (cs : List (Call lib)) (g : NonceCache)
      → All (InWindow t) cs
      → stamp g n ≡ some t
      → stamp (verifies cs g) n ≡ some t
  verifies-remembers n t [] g window there = there
  verifies-remembers n t (c ∷ cs) g window there =
      verifies-remembers n t cs (cache_of (verify lib c g)) window.1
        (verify-remembers n t c g window.0 there)

  -- Once a message has been accepted, every message with its nonce is refused, as long as the timestamp
  -- in the nonce is inside the allowed age of that call and of every call in between.
  pub verify-replay :
      (first : Call lib) (between : List (Call lib)) (again : Call lib) (g g' : NonceCache) (t : ℕ)
      → verify lib first g ≡ accepted g'
      → parse_nonce lib first.message.job_nonce ≡ parsed t
      → again.message.job_nonce ≡ first.message.job_nonce
      → All (InWindow t) between
      → InWindow t again
      → (msg : String) × (left : NonceCache) × (verify lib again (verifies between g')
          ≡ refused msg left)
  verify-replay first between again g g' t admitted stamped same window last =
      let (ts, parse, _, _, _, recorded) = verify-accepted first g g' admitted in
      let e : ts ≡ t = parsed-injective (sym parse ∙ stamped) in
      let there =
        verifies-remembers first.message.job_nonce t between g' window (recorded ∙ ap some e) in
      elim (verify-cases again (verifies between g')) [
        | inl (msg, bad) ↦ (msg, verifies between g', bad)
        | inr (u, p) ↦
            let r = check (attempt lib again u) (verifies between g') in
            let refusal = replay_verdict-stale again r (
              check-refuses first.message.job_nonce t (attempt lib again u) (verifies between g')
                (last.0, last.1 u) there same) in
            (refusal.0, r.cache, Passes-verify again u (verifies between g') p ∙ refusal.1)
      ]
