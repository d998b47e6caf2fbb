-- ===== src/Scheduler/Release.antt =====
-- On a plain graph every way to complete a node is the same for its successors: each counter falls by
-- one for each edge, and a successor is enqueued when its counter reaches zero.
use talos_workflow_engine.Base.{
  ℕ, suc, ◌+◌, ◌-◌, ◌≤◌, ◌<◌, ◌≡◌, refl, inl, inr, true, ◌&&◌, some, List, [], ◌∷◌, arith, ◌==◌,
  ==_iff, ltb, if◌then◌else◌, Bool-cases, count, bit, fold,
}
use talos_workflow_engine.Base.HashMap
use talos_workflow_engine.Base.HashMap.{HashMap}
use talos_workflow_engine.Base.Json.{Value}
use talos_workflow_engine.Graph.{edge_limit}
use talos_workflow_engine.Engine.{Reactor}

-- Every key that has a value in the first map has one in the second.
abbrev pub Keeps : HashMap Value → HashMap Value → Type 0
Keeps m m' = (k : ℕ) → HashMap.contains_key m k ≡ true → HashMap.contains_key m' k ≡ true

-- One edge into `child`, whose counter stands at `n + 1`, is done.
pub record Released (child n : ℕ) (s s' : Reactor) : Type 0 where
  pub at :
      (j : ℕ) → HashMap.get s'.pending j ≡ (if child == j then some n else HashMap.get s.pending j)
  pub queued : (a : ℕ) → count a s'.ready ≡ count a s.ready + bit (child == a && n == 0)
  pub kept : Keeps s.results s'.results

-- The edges into `cs` are done, where the counters stood at `m`.
pub record ReleasedAll (cs : List ℕ) (m : ℕ → ℕ) (s s' : Reactor) : Type 0 where
  pub at : (j : ℕ) → 0 < count j cs → HashMap.get s'.pending j ≡ some (m j - count j cs)
  pub other : (j : ℕ) → count j cs ≡ 0 → HashMap.get s'.pending j ≡ HashMap.get s.pending j
  pub queued :
      (a : ℕ) → count a s'.ready ≡ count a s.ready + bit (ltb 0 (count a cs) && m a == count a cs)
  pub kept : Keeps s.results s'.results

-- A loop body that does this for its child.
abbrev pub Releases : (ℕ → Reactor → Reactor) → Type 0
Releases f =
    (child n : ℕ) (s : Reactor)
    → HashMap.get s.pending child ≡ some (suc n)
    → n < edge_limit
    → Released child n s (f child s)

module _ (c n : ℕ) (cs : List ℕ) (m : ℕ → ℕ) {s s' s'' : Reactor} (start : m c ≡ suc n)
    (enough : (j : ℕ) → count j (c ∷ cs) ≤ m j) (one : Released c n s s')
    (rest : ReleasedAll cs (λ j. m j - bit (c == j)) s' s'') where
  at_cons :
      (j : ℕ) → 0 < count j (c ∷ cs) → HashMap.get s''.pending j ≡ some (m j - count j (c ∷ cs))
  at_cons j h = elim (Bool-cases (count j cs == 0)) [
    | inl last ↦
        let none_left : count j cs ≡ 0 = ground arith in
        let same : c ≡ j = ground (arith, ==_iff c j) in
        let m_j : m j ≡ suc n = cc (start, same) in ground (arith, rest.other j none_left, one.at j)
    | inr more ↦ ground (arith, rest.at j)
  ]

  other_cons : (j : ℕ) → count j (c ∷ cs) ≡ 0 → HashMap.get s''.pending j ≡ HashMap.get s.pending j
  other_cons j h = ground (arith, rest.other j, one.at j)

  queued_cons :
      (a : ℕ)
      → count a s''.ready
        ≡ count a s.ready + bit (ltb 0 (count a (c ∷ cs)) && m a == count a (c ∷ cs))
  queued_cons a = elim (Bool-cases (c == a)) [
    | inl same ↦
        let e : c ≡ a = (==_iff c a).0 same in
        let m_a : m a ≡ suc n = cc (start, e) in
        ground (arith, rest.queued a, one.queued a, enough a)
    | inr other ↦ ground (arith, rest.queued a, one.queued a)
  ]

  ReleasedAll-cons : ReleasedAll (c ∷ cs) m s s''
  ReleasedAll-cons = record {
    at = at_cons;
    other = other_cons;
    queued = queued_cons;
    kept = λ k h. rest.kept k (one.kept k h);
  }

counter_after :
    (c n : ℕ) (cs : List ℕ) (m : ℕ → ℕ) {s s' : Reactor}
    → m c ≡ suc n
    → Released c n s s'
    → ((j : ℕ) → 0 < count j (c ∷ cs) → HashMap.get s.pending j ≡ some (m j))
    → (j : ℕ) → 0 < count j cs
    → HashMap.get s'.pending j ≡ some (m j - bit (c == j))
counter_after c n cs m start one counters j h = elim (Bool-cases (c == j)) [
  | inl same ↦
      let e : c ≡ j = (==_iff c j).0 same in
      let m_j : m j ≡ suc n = cc (start, e) in ground (arith, one.at j)
  | inr other ↦ ground (arith, one.at j, counters j)
]

module _ (f : ℕ → Reactor → Reactor) (releases : Releases f) where
  pub fold-ReleasedAll :
      (cs : List ℕ) (m : ℕ → ℕ) (s : Reactor)
      → ((j : ℕ) → 0 < count j cs → HashMap.get s.pending j ≡ some (m j))
      → ((j : ℕ) → count j cs ≤ m j)
      → ((j : ℕ) → m j ≤ edge_limit)
      → ReleasedAll cs m s (fold f cs s)
  fold-ReleasedAll [] m s counters enough small = record {
    at = λ j h. absurd (omega arith);
    other = λ j h. refl;
    queued = λ a. omega arith;
    kept = λ k h. h;
  }
  fold-ReleasedAll (c ∷ cs) m s counters enough small =
      let n = m c - 1 in
      let start : m c ≡ suc n = ground (arith, enough c) in
      let here : HashMap.get s.pending c ≡ some (suc n) = ground (arith, counters c, start) in
      let one = releases c n s here (omega (arith, small c)) in
      ReleasedAll-cons c n cs m start enough one (
        fold-ReleasedAll cs (λ j. m j - bit (c == j)) (f c s)
          (counter_after c n cs m start one counters) (λ j. omega (arith, enough j))
          (λ j. omega (arith, small j)))
