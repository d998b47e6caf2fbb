-- ===== src/Scheduler/Waiting.antt =====
-- How many edges into a node still wait for their source.
use talos_workflow_engine.Base.{
  ℕ, ◌+◌, ◌≤◌, ◌<◌, ◌≡◌, refl, inl, inr, false, not, List, [], ◌∷◌, arith, ◌==◌, ==_iff, Bool-cases,
  length, count, bit, contains, contains-count,
}

-- How many of the edges from `ps` still wait for their source.
abbrev pub not_done : List ℕ → List ℕ → ℕ
not_done done [] = 0
not_done done (p ∷ ps) = bit (not (contains done p)) + not_done done ps

pub not_done-cons :
    (done : List ℕ) (p : ℕ) (ps : List ℕ)
    → contains done p ≡ false
    → not_done (p ∷ done) ps + count p ps ≡ not_done done ps
not_done-cons done p [] h = refl
not_done-cons done p (q ∷ ps) h = elim (Bool-cases (p == q)) [
  | inl same ↦
      let e : p ≡ q = (==_iff p q).0 same in
      let k : contains done q ≡ false = rw (← e) h in ground (arith, not_done-cons done p ps h)
  | inr other ↦ ground (arith, not_done-cons done p ps h)
]

pub not_done-le : (done ps : List ℕ) → not_done done ps ≤ length ps
not_done-le done [] = omega arith
not_done-le done (p ∷ ps) = ground (arith, not_done-le done ps)

pub done_of_not_done :
    (done ps : List ℕ) (p : ℕ) → not_done done ps ≡ 0 → 0 < count p ps → 0 < count p done
done_of_not_done done [] p h k = absurd (omega arith)
done_of_not_done done (q ∷ ps) p h k = elim (Bool-cases (q == p)) [
  | inl same ↦
      let e : q ≡ p = (==_iff q p).0 same in rw (← e) (contains-count q done (ground arith))
  | inr other ↦ done_of_not_done done ps p (omega arith) (ground arith)
]

pub not-contains : (xs : List ℕ) (a : ℕ) → count a xs ≡ 0 → contains xs a ≡ false
not-contains xs a h = elim (Bool-cases (contains xs a)) [
  | inl there ↦ absurd (omega (arith, contains-count a xs there))
  | inr absent ↦ absent
]
