-- ===== src/Protocol/Replay.antt =====
-- What one call of the nonce cache keeps, refuses and admits.
use text.Mathlib.Text.{◌==◌ as str_eq}
use text.Mathlib.TextEquality.{eq_iff}
use talos_workflow_engine.Base.{
  ℕ, ◌-◌, ◌≤◌, ◌<◌, String, ◌≡◌, refl, ap, true, false, Option, some, arith, Bool-cases,
  Option-cases, inl, inr,
}
use talos_workflow_engine.Protocol.Nonce.{
  NonceCache, Checked, u64_max, stamp, sweep_old, sweep_flood, now_of, check_and_record,
  stamp-sweep_old, stamp-sweep_flood, stamp-admit,
}

-- One call of the cache.
pub record Attempt : Type 0 where
  pub clock : Option ℕ
  pub nonce : String
  pub ts : ℕ
  pub max_age_secs : ℕ

abbrev pub check : Attempt → NonceCache → Checked
check a g = check_and_record a.clock a.nonce a.ts a.max_age_secs g

-- At the time of the call, a nonce stamped `t` is younger than the freshness window.
abbrev pub Recent : ℕ → Attempt → Type 0
Recent t a = (a.max_age_secs ≤ u64_max) × (now_of a.clock a.ts - a.max_age_secs < t)

module _ (n : String) (t : ℕ) where
  pub check-refuses :
      (a : Attempt) (g : NonceCache)
      → Recent t a
      → stamp g n ≡ some t
      → a.nonce ≡ n
      → (check a g).fresh ≡ false
  unfolding check_and_record
  check-refuses a g recent there same =
      let kept : stamp (sweep_old (now_of a.clock a.ts) a.max_age_secs g) a.nonce ≡ some t =
        rw same
          (stamp-sweep_old (now_of a.clock a.ts) a.max_age_secs g n t recent.0 recent.1 there) in
      rw (kept, check_and_record) refl

  pub check-remembers :
      (a : Attempt) (g : NonceCache)
      → Recent t a
      → stamp g n ≡ some t
      → stamp (check a g).cache n ≡ some t
  unfolding check_and_record
  check-remembers a g recent there =
      let now = now_of a.clock a.ts in
      let swept = sweep_old now a.max_age_secs g in
      let kept = stamp-sweep_old now a.max_age_secs g n t recent.0 recent.1 there in
      elim (Option-cases (stamp swept a.nonce)) [
        | inl absent ↦ elim (Bool-cases (str_eq a.nonce n)) [
          | inl same ↦
              let e : a.nonce ≡ n = (eq_iff a.nonce n).0 same in
              absurd (cc (absent, kept, ap (stamp swept) e))
          | inr other ↦
              rw (absent, check_and_record)
                (ground (
                  arith,
                  other,
                  stamp-admit (sweep_flood now a.max_age_secs swept) a.nonce n a.ts,
                  stamp-sweep_flood now a.max_age_secs swept n t recent.1 kept,
                ))
        ]
        | inr (u, there') ↦ rw (there', check_and_record) kept
      ]

pub check-admits :
    (a : Attempt) (g : NonceCache)
    → (check a g).fresh ≡ true
    → stamp (check a g).cache a.nonce ≡ some a.ts
unfolding check_and_record
check-admits a g fresh =
    let now = now_of a.clock a.ts in
    let swept = sweep_old now a.max_age_secs g in
    elim (Option-cases (stamp swept a.nonce)) [
      | inl absent ↦
          rw (absent, check_and_record)
            (ground (
              arith,
              stamp-admit (sweep_flood now a.max_age_secs swept) a.nonce a.nonce a.ts,
              (eq_iff a.nonce a.nonce).1 refl,
            ))
      | inr (u, there) ↦
          let refused : (check a g).fresh ≡ false = rw (there, check_and_record) refl in
          absurd (cc (refused, fresh))
    ]
