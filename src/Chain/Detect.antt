-- ===== src/Chain/Detect.antt =====
-- The loop of `detect_linear_chains` over the chain starts: every chain comes from a walk, and no two of
-- them share a node.
use mathlib.Core.Path.{subst}
use talos_workflow_engine.Base.{
  ℕ, ◌+◌, ◌≤◌, ◌<◌, ◌≡◌, refl, inl, inr, true, some, List, [], ◌∷◌, ◌++◌, arith, ◌==◌, ==_iff,
  Bool-cases, length, contains, count, retain, All, All-append, All-map, retain-All, count-retain,
  leb,
}
use talos_workflow_engine.Graph.{DiGraph, IsDiGraph}
use talos_workflow_engine.Chain.{
  Walked, Found, is_chain_start, chain_fuel, expand_start, expand_starts, detect_linear_chains,
}
use talos_workflow_engine.Chain.Walk.{IsRun, IsExpansion, expand-IsExpansion, start-out_degree}
use talos_workflow_engine.Chain.Expansion.{expansion-count, expansion-shared}

-- How often `a` stands in the chains together.
abbrev pub total : ℕ → List (List ℕ) → ℕ
total a [] = 0
total a (c ∷ cs) = count a c + total a cs

total-append : (a : ℕ) (cs ds : List (List ℕ)) → total a (cs ++ ds) ≡ total a cs + total a ds
total-append a [] ds = omega arith
total-append a (c ∷ cs) ds = omega (arith, total-append a cs ds)

module _ (g : DiGraph) where
  -- A chain with the run that found it.
  pub record IsFound (starts : List ℕ) (c : List ℕ) : Type 0 where
    pub start : ℕ
    pub walked : Walked
    pub chain : walked.chain ≡ c
    pub expansion : IsExpansion g start walked
    pub long : 2 ≤ length c
    pub handled : 0 < count start starts

  IsFound-more : (s : ℕ) (starts : List ℕ) (c : List ℕ) → IsFound starts c → IsFound (s ∷ starts) c
  IsFound-more s starts c f = record {
    start = f.start;
    walked = f.walked;
    chain = f.chain;
    expansion = f.expansion;
    long = f.long;
    handled = omega (arith, f.handled);
  }

  -- The chains of other starts hold no node of a new expansion.
  total-apart :
      (s : ℕ) (starts : List ℕ) (w : Walked) (e : IsExpansion g s w) (y : ℕ) (cs : List (List ℕ))
      → count s starts ≡ 0
      → 0 < count y w.chain
      → All (IsFound starts) cs
      → total y cs ≡ 0
  total-apart s starts w e y [] new h f = refl
  total-apart s starts w e y (c ∷ cs) new h f =
      let rest = total-apart s starts w e y cs new h f.1 in
      elim (Bool-cases (count y c == 0)) [
        | inl none' ↦ ground arith
        | inr shared ↦
            let there : 0 < count y f.0.walked.chain = rw f.0.chain (ground arith) in
            let same = expansion-shared g f.0.expansion e y there h in
            let twice : 0 < count s starts = rw (← same) f.0.handled in absurd (omega arith)
      ]

  record Inv (starts : List ℕ) (found : Found) : Type 0 where
    found_all : All (IsFound starts) found.chains
    apart : (y : ℕ) → total y found.chains ≤ 1

  Inv-more :
      (s : ℕ) (starts : List ℕ) (found : Found) (visited : List ℕ)
      → Inv starts found
      → Inv (s ∷ starts) (record { visited = visited; chains = found.chains })
  Inv-more s starts found visited inv = record {
    found_all = All-map _ _ found.chains (IsFound-more s starts) inv.found_all;
    apart = inv.apart;
  }

  expansion-once :
      IsDiGraph g → {s : ℕ} {w : Walked} → IsExpansion g s w → (y : ℕ) → count y w.chain ≤ 1
  expansion-once laws e y =
      omega (arith, expansion-count g e y, e.run.listed y, laws.indices_once y)

  Inv-push :
      IsDiGraph g
      → (s : ℕ) (starts : List ℕ) (found : Found) (w : Walked) → IsExpansion g s w
      → count s starts ≡ 0
      → leb 2 (length w.chain) ≡ true
      → Inv starts found
      → Inv (s ∷ starts) (record { visited = w.visited; chains = found.chains ++ w.chain ∷ [] })
  Inv-push laws s starts found w e new long inv = record {
    found_all =
        All-append (IsFound (s ∷ starts)) found.chains (w.chain ∷ [])
          (All-map _ _ found.chains (IsFound-more s starts) inv.found_all)
          (
            record {
              start = s;
              walked = w;
              chain = refl;
              expansion = e;
              long = ground arith;
              handled = ground arith;
            },
            tt,
          );
    apart = λ y. elim (Bool-cases (count y w.chain == 0)) [
      | inl absent ↦ ground (arith, total-append y found.chains (w.chain ∷ []), inv.apart y)
      | inr there ↦ ground (
        arith,
        total-append y found.chains (w.chain ∷ []),
        expansion-once laws e y,
        total-apart s starts w e y found.chains new (ground arith) inv.found_all,
      )
    ];
  }

  module _ (laws : IsDiGraph g) where
    start-IsRun : (s : ℕ) → is_chain_start g s ≡ true → 0 < count s g.node_indices → IsRun g s []
    start-IsRun s h k = record {
      walk = h;
      listed = λ a. elim (Bool-cases (s == a)) [
        | inl same ↦
            let e : s ≡ a = (==_iff s a).0 same in
            subst (λ b. count b (s ∷ []) ≤ count b g.node_indices) e (ground arith)
        | inr other ↦ ground arith
      ];
    }

    expand_start-Inv :
        (s : ℕ) (starts : List ℕ) (found : Found)
        → is_chain_start g s ≡ true
        → 0 < count s g.node_indices
        → count s starts ≡ 0
        → Inv starts found
        → (found' : Found) × (expand_start g s found ≡ some found') × Inv (s ∷ starts) found'
    unfolding expand_start
    expand_start-Inv s starts found h listed new inv =
        elim (Bool-cases (contains found.visited s)) [
          | inl seen ↦ rw seen (found, refl, Inv-more s starts found found.visited inv)
          | inr unseen ↦
              let (w, e, x) =
                expand-IsExpansion g laws (chain_fuel g) s [] found.visited (s ∷ []) s []
                  (start-IsRun s h listed) (start-out_degree g s h) refl refl (omega arith) in
              rw (unseen, e)
                (elim (Bool-cases (leb 2 (length w.chain))) [
                  | inl long ↦ rw long (
                    record { visited = w.visited; chains = found.chains ++ w.chain ∷ [] },
                    refl,
                    Inv-push laws s starts found w x new long inv,
                  )
                  | inr short ↦ rw short (
                    record { visited = w.visited; chains = found.chains },
                    refl,
                    Inv-more s starts found w.visited inv,
                  )
                ])
        ]

    expand_starts-Inv :
        (starts done : List ℕ) (found : Found)
        → All (λ s. is_chain_start g s ≡ true) starts
        → ((a : ℕ) → count a starts + count a done ≤ 1)
        → ((a : ℕ) → count a starts ≤ count a g.node_indices)
        → Inv done found
        → (all : List ℕ) × (found' : Found) × (expand_starts g starts found ≡ some found')
          × Inv all found'
    unfolding expand_starts
    expand_starts-Inv [] done found h once listed inv = (done, found, refl, inv)
    expand_starts-Inv (s ∷ starts) done found h once listed inv =
        let here : count s done ≡ 0 = ground (arith, once s) in
        let there : 0 < count s g.node_indices = ground (arith, listed s) in
        let (found', e, inv') = expand_start-Inv s done found h.0 there here inv in
        rw (e, expand_starts)
          (expand_starts-Inv starts (s ∷ done) found' h.1 (λ a. omega (arith, once a))
            (λ a. omega (arith, listed a)) inv')

  -- The detector returns, and every chain comes from a run.
  pub detect-IsFound :
      IsDiGraph g
      → (starts : List ℕ) × (cs : List (List ℕ)) × (detect_linear_chains g ≡ some cs)
        × All (IsFound starts) cs
        × ((y : ℕ) → total y cs ≤ 1)
  unfolding detect_linear_chains
  detect-IsFound laws =
      let starts = retain (is_chain_start g) g.node_indices in
      let (all, found, e, inv) =
        expand_starts-Inv laws starts [] (record { visited = []; chains = [] })
          (retain-All (is_chain_start g) g.node_indices)
          (λ a.
            ground (arith, count-retain (is_chain_start g) g.node_indices a, laws.indices_once a))
          (λ a. ground (arith, count-retain (is_chain_start g) g.node_indices a))
          (record { found_all = tt; apart = λ y. omega arith }) in
      rw (e, detect_linear_chains) (all, found.chains, refl, inv.found_all, inv.apart)
