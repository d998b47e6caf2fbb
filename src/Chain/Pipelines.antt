-- ===== src/Chain/Pipelines.antt =====
-- What `detect_linear_chains` returns: whole linear chains, no node in two of them.
use mathlib.Core.Path.{subst}
use talos_workflow_engine.Base.{
  ℕ, ◌≤◌, ◌<◌, ◌≡◌, refl, ap, ◌∙◌, inl, inr, true, some, List, [], ◌∷◌, arith, ◌==◌, Bool-cases,
  length, count, All, All-map, head_or, last_or,
}
use talos_workflow_engine.Graph.{DiGraph, IsDiGraph}
use talos_workflow_engine.Chain.{Walked, first, is_chain_start, detect_linear_chains}
use talos_workflow_engine.Chain.Walk.{IsWalk, IsLinear, IsExpansion, start-not-inner}
use talos_workflow_engine.Chain.Expansion.{
  head_or-reverse_aux, last_or-reverse_aux, walk-IsLinear, IsWalk-suffix, walk-start,
  expansion-start, expansion-count,
}
use talos_workflow_engine.Chain.Detect.{total, IsFound, detect-IsFound}

module _ (g : DiGraph) where
  -- A chain that the scheduler may run as one pipeline: at least two nodes, joined by edges that are
  -- alone at both of their ends, and not to be continued by such an edge at either end.
  pub record IsPipeline (c : List ℕ) : Type 0 where
    pub long : 2 ≤ length c
    pub linear : IsLinear g c
    pub no_node_before :
        (p : ℕ) → g.outgoing p ≡ head_or c 0 ∷ [] → g.incoming (head_or c 0) ≡ p ∷ [] → ⊥
    pub no_node_after :
        (n : ℕ) → g.outgoing (last_or c 0) ≡ n ∷ [] → g.incoming n ≡ last_or c 0 ∷ [] → ⊥

  expansion-IsPipeline :
      {start : ℕ} {w : Walked} → IsExpansion g start w → 2 ≤ length w.chain → IsPipeline w.chain
  expansion-IsPipeline {start} {w} e long =
      let bottom = expansion-start g e in
      let first : head_or w.chain 0 ≡ last_or e.back e.last =
        ap (λ c. head_or c 0) e.chain_reverse ∙ head_or-reverse_aux e.back e.last [] 0 in
      let final : last_or w.chain 0 ≡ e.last =
        ap (λ c. last_or c 0) e.chain_reverse ∙ last_or-reverse_aux g e.back e.last [] 0 in
      let started : is_chain_start g (head_or w.chain 0) ≡ true =
        rw first (walk-start g e.last e.back e.run.walk) in
      record {
        long = long;
        linear = rw e.chain_reverse (walk-IsLinear g e.last e.back [] e.run.walk tt);
        no_node_before = λ p out inc. cc (started, start-not-inner g (head_or w.chain 0) p inc out);
        no_node_after = λ n. rw final (e.maximal n);
      }

  found-IsPipeline : (starts : List ℕ) (c : List ℕ) → IsFound g starts c → IsPipeline c
  found-IsPipeline starts c f =
      subst IsPipeline f.chain (expansion-IsPipeline f.expansion (rw f.chain f.long))

  -- On every graph the detector ends within its fuel, and returns only chains of at least two nodes
  -- that are joined by edges alone at both of their ends and that no such edge continues at either
  -- end; no node stands in two chains or twice in one.
  pub detect_linear_chains-pipelines :
      IsDiGraph g
      → (cs : List (List ℕ)) × (detect_linear_chains g ≡ some cs)
        × All IsPipeline cs
        × ((y : ℕ) → total y cs ≤ 1)
  detect_linear_chains-pipelines laws =
      let (all, cs, e, found, apart) = detect-IsFound g laws in
      (cs, e, All-map _ _ cs (found-IsPipeline all) found, apart)

  unchained :
      (x p : ℕ)
      → 2 ≤ length (g.incoming x)
      → first (g.incoming x) ≡ some p
      → length (g.outgoing p) ≡ 1
      → (s : List ℕ) → IsWalk g x s
      → ⊥
  unfolding is_chain_start
  unchained x p many head one [] w = ground arith
  unchained x p many head one (z ∷ s) w = let k : length (g.incoming x) ≡ 1 = rw w.1 in omega arith

  found-avoids :
      (x p : ℕ) (starts : List ℕ) (cs : List (List ℕ))
      → 2 ≤ length (g.incoming x)
      → first (g.incoming x) ≡ some p
      → length (g.outgoing p) ≡ 1
      → All (IsFound g starts) cs
      → total x cs ≡ 0
  found-avoids x p starts [] many head one found = refl
  found-avoids x p starts (c ∷ cs) many head one found =
      let rest = found-avoids x p starts cs many head one found.1 in
      let e = found.0.expansion in
      elim (Bool-cases (count x c == 0)) [
        | inl absent ↦ ground arith
        | inr there ↦
            let inside : 0 < count x found.0.walked.chain = rw found.0.chain (ground arith) in
            let (s, walk, _) =
              IsWalk-suffix g e.last e.back x e.run.walk (omega (arith, expansion-count g e x)) in
            absurd (unchained x p many head one s walk)
      ]

  -- A node with several predecessors, the newest of which has it as its only successor, stands in no
  -- chain: not even as the head of a chain that starts at it.
  pub detect_linear_chains-fan_in :
      IsDiGraph g
      → (x p : ℕ) (cs : List (List ℕ)) → 2 ≤ length (g.incoming x)
      → first (g.incoming x) ≡ some p
      → length (g.outgoing p) ≡ 1
      → detect_linear_chains g ≡ some cs
      → total x cs ≡ 0
  detect_linear_chains-fan_in laws x p cs many head one e =
      let (all, ds, d, found, apart) = detect-IsFound g laws in
      let same : ds ≡ cs = cc (d, e) in
      subst (λ l. total x l ≡ 0) same (found-avoids x p all ds many head one found)
