-- ===== src/Chain/Walk.antt =====
-- The walk that `detect_linear_chains` makes from a chain start, read backwards.
use mathlib.Core.List.{reverse, reverse-cons}
use talos_workflow_engine.Base.{
  ℕ, zero, suc, ◌+◌, ◌≤◌, ◌<◌, ◌≡◌, refl, inl, inr, true, false, not, Option, some, List, [], ◌∷◌,
  ◌++◌, arith, ◌==◌, ==_iff, if◌then◌else◌, Bool-cases, length, length-le_of_count, count,
  count-append,
}
use talos_workflow_engine.Graph.{DiGraph, IsDiGraph}
use talos_workflow_engine.Chain.{Walked, first, is_chain_start, expand}

pub singleton_of : (xs : List ℕ) (a : ℕ) → length xs ≡ 1 → 0 < count a xs → xs ≡ a ∷ []
singleton_of [] a h k = absurd (omega arith)
singleton_of (x ∷ []) a h k = ground arith
singleton_of (x ∷ y ∷ xs) a h k = absurd (omega arith)

singleton : (xs : List ℕ) → length xs ≡ 1 → (a : ℕ) × (xs ≡ a ∷ [])
singleton [] h = absurd (omega arith)
singleton (x ∷ []) h = (x, refl)
singleton (x ∷ y ∷ xs) h = absurd (omega arith)

first-count : (xs : List ℕ) {a : ℕ} → first xs ≡ some a → 0 < count a xs
first-count [] h = cc
first-count (x ∷ xs) h = ground arith

pub count-reverse : (a : ℕ) (xs : List ℕ) → count a (reverse xs) ≡ count a xs
count-reverse a [] = refl
count-reverse a (x ∷ xs) =
    rw reverse-cons (omega (arith, count-append a (reverse xs) (x ∷ []), count-reverse a xs))

module _ (g : DiGraph) where
  -- `IsWalk x r`: from a chain start, along edges that are the only one out of their source and the
  -- only one into their target, to `x`; `r` is the way back.
  abbrev pub IsWalk : ℕ → List ℕ → Type 0
  IsWalk x [] = is_chain_start g x ≡ true
  IsWalk x (y ∷ r) = (g.outgoing y ≡ x ∷ []) × (g.incoming x ≡ y ∷ []) × IsWalk y r

  -- A chain as the scheduler reads it: each node but the last has one successor, which is the next
  -- node, and each node but the first has one predecessor, which is the node before it.
  abbrev pub IsLinear : List ℕ → Type 0
  IsLinear [] = Unit
  IsLinear (x ∷ []) = Unit
  IsLinear (x ∷ y ∷ c) = (g.outgoing x ≡ y ∷ []) × (g.incoming y ≡ x ∷ []) × IsLinear (y ∷ c)

  pub start-out_degree : (x : ℕ) → is_chain_start g x ≡ true → length (g.outgoing x) ≡ 1
  unfolding is_chain_start
  start-out_degree x h = ground arith

  pub start-not-inner :
      (x y : ℕ) → g.incoming x ≡ y ∷ [] → g.outgoing y ≡ x ∷ [] → is_chain_start g x ≡ false
  unfolding is_chain_start
  start-not-inner x y h k = ground arith

  -- Two walks to one node are one walk.
  pub IsWalk-unique : (x : ℕ) (r s : List ℕ) → IsWalk x r → IsWalk x s → r ≡ s
  IsWalk-unique x [] [] p q = refl
  IsWalk-unique x [] (z ∷ s) p q = cc (p, start-not-inner x z q.1 q.0)
  IsWalk-unique x (y ∷ r) [] p q = cc (q, start-not-inner x y p.1 p.0)
  IsWalk-unique x (y ∷ r) (z ∷ s) p q =
      let e : y ≡ z = cc (p.1, q.1) in ground (arith, IsWalk-unique y r s p.2 (rw e q.2))

  walk-fresh :
      (x next e : ℕ) (w : List ℕ)
      → IsWalk e w
      → g.outgoing x ≡ next ∷ []
      → g.incoming next ≡ x ∷ []
      → count x w ≡ 0
      → count next (e ∷ w) ≡ 0
  walk-fresh x next e [] h out inc absent = elim (Bool-cases (e == next)) [
    | inl same ↦
        let f : e ≡ next = (==_iff e next).0 same in
        let inner : is_chain_start g e ≡ false = rw f (start-not-inner next x inc out) in
        cc (h, inner)
    | inr other ↦ ground arith
  ]
  walk-fresh x next e (d ∷ w) h out inc absent =
      let below = walk-fresh x next d w h.2 out inc (omega arith) in
      elim (Bool-cases (e == next)) [
        | inl same ↦
            let f : e ≡ next = (==_iff e next).0 same in
            let back : d ≡ x = cc (h.1, inc, f) in absurd (ground arith)
        | inr other ↦ ground arith
      ]

  -- A walk through listed nodes, none of them twice.
  pub record IsRun (x : ℕ) (r : List ℕ) : Type 0 where
    pub walk : IsWalk x r
    pub listed : (a : ℕ) → count a (x ∷ r) ≤ count a g.node_indices

  -- What the expansion of `start` returns: the longest run from it.
  pub record IsExpansion (start : ℕ) (w : Walked) : Type 0 where
    pub last : ℕ
    pub back : List ℕ
    pub run : IsRun last back
    pub chain_reverse : w.chain ≡ reverse (last ∷ back)
    pub rest : List ℕ
    pub from_start : w.chain ≡ start ∷ rest
    pub maximal : (n : ℕ) → g.outgoing last ≡ n ∷ [] → g.incoming n ≡ last ∷ [] → ⊥

  module _ (laws : IsDiGraph g) where
    edge-both : (x n : ℕ) → first (g.outgoing x) ≡ some n → 0 < count x (g.incoming n)
    edge-both x n h = omega (arith, laws.both_ends x n, first-count (g.outgoing x) h)

    IsRun-next :
        (x n : ℕ) (r : List ℕ)
        → IsRun x r
        → g.outgoing x ≡ n ∷ []
        → g.incoming n ≡ x ∷ []
        → IsRun n (x ∷ r)
    IsRun-next x n r run out inc = record {
      walk = (out, inc, run.walk);
      listed = λ a. elim (Bool-cases (n == a)) [
        | inl same ↦
            let e : n ≡ a = (==_iff n a).0 same in
            let here : 0 < count n (g.outgoing x) = rw out (ground arith) in
            let there = laws.target_listed x n here in
            let once : count x r ≡ 0 = ground (arith, run.listed x, laws.indices_once x) in
            let fresh = walk-fresh x n x r run.walk out inc once in
            rw (← e) (ground (arith, fresh, there))
        | inr other ↦ ground (arith, run.listed a)
      ];
    }

    -- One round of the loop, at a node with one successor.
    expand_step :
        (fuel x n : ℕ) (visited chain : List ℕ)
        → g.outgoing x ≡ n ∷ []
        → expand g (suc fuel) x visited chain ≡ (
            if not (length (g.incoming n) == 1)
            then some (record { visited = x ∷ visited; chain = chain })
            else if not (length (g.outgoing n) == 1)
            then some (record { visited = x ∷ visited; chain = chain ++ n ∷ [] })
            else expand g fuel n (x ∷ visited) (chain ++ n ∷ []))
    unfolding expand
    expand_step fuel x n visited chain out = rw (out, expand)

    abbrev Total : ℕ → Option Walked → Type 0
    Total start o = (w : Walked) × (o ≡ some w) × IsExpansion start w

    stopped-maximal :
        (x n : ℕ)
        → g.outgoing x ≡ n ∷ []
        → length (g.incoming n) == 1 ≡ false
        → (m : ℕ) → g.outgoing x ≡ m ∷ []
        → g.incoming m ≡ x ∷ []
        → ⊥
    stopped-maximal x n out many m out' inc =
        let e : m ≡ n = cc (out, out') in
        let inc' : g.incoming n ≡ x ∷ [] = rw (← e) inc in
        let k : length (g.incoming n) ≡ 1 = rw inc' in ground (arith, k, many)

    sink-maximal :
        (x : ℕ)
        → length (g.outgoing x) == 1 ≡ false
        → (m : ℕ) → g.outgoing x ≡ m ∷ []
        → g.incoming m ≡ x ∷ []
        → ⊥
    sink-maximal x stop m out inc =
        let k : length (g.outgoing x) ≡ 1 = rw out in ground (arith, k, stop)

    expand_round :
        (fuel x n : ℕ) (r visited chain : List ℕ) (start : ℕ) (rest : List ℕ)
        → IsRun x r
        → g.outgoing x ≡ n ∷ []
        → chain ≡ reverse (x ∷ r)
        → chain ≡ start ∷ rest
        → (IsRun n (x ∷ r)
            → length (g.outgoing n) ≡ 1
            → chain ++ n ∷ [] ≡ reverse (n ∷ x ∷ r)
            → chain ++ n ∷ [] ≡ start ∷ (rest ++ n ∷ [])
            → Total start (expand g fuel n (x ∷ visited) (chain ++ n ∷ [])))
        → Total start (expand g (suc fuel) x visited chain)
    expand_round fuel x n r visited chain start rest run out e f go =
        rw (expand_step fuel x n visited chain out)
          (elim (Bool-cases (length (g.incoming n) == 1)) [
            | inr many ↦ rw many (
              record { visited = x ∷ visited; chain = chain },
              refl,
              record {
                last = x;
                back = r;
                run = run;
                chain_reverse = e;
                rest = rest;
                from_start = f;
                maximal = stopped-maximal x n out many;
              },
            )
            | inl single ↦
                let into : 0 < count x (g.incoming n) = edge-both x n (rw out refl) in
                let inc = singleton_of (g.incoming n) x ((==_iff _ 1).0 single) into in
                let run' = IsRun-next x n r run out inc in
                let e' : chain ++ n ∷ [] ≡ reverse (n ∷ x ∷ r) = rw reverse-cons (rw e) in
                let f' : chain ++ n ∷ [] ≡ start ∷ (rest ++ n ∷ []) = rw f in
                elim (Bool-cases (length (g.outgoing n) == 1)) [
                  | inl more ↦ rw (single, more) (go run' ((==_iff _ 1).0 more) e' f')
                  | inr stop ↦
                      rw (single, stop)
                        (
                          record { visited = x ∷ visited; chain = chain ++ n ∷ [] },
                          refl,
                          record {
                            last = n;
                            back = x ∷ r;
                            run = run';
                            chain_reverse = e';
                            rest = rest ++ n ∷ [];
                            from_start = f';
                            maximal = sink-maximal n stop;
                          },
                        )
                ]
          ])

    -- With fuel for every listed node the loop ends, in the longest run from the start.
    pub expand-IsExpansion :
        (fuel x : ℕ) (r visited chain : List ℕ) (start : ℕ) (rest : List ℕ)
        → IsRun x r
        → length (g.outgoing x) ≡ 1
        → chain ≡ reverse (x ∷ r)
        → chain ≡ start ∷ rest
        → length g.node_indices < fuel + length (x ∷ r)
        → (w : Walked) × (expand g fuel x visited chain ≡ some w) × IsExpansion start w
    expand-IsExpansion zero x r visited chain start rest run one e f h =
        absurd (omega (arith, length-le_of_count (x ∷ r) g.node_indices run.listed))
    expand-IsExpansion (suc fuel) x r visited chain start rest run one e f h =
        let (n, out) = singleton (g.outgoing x) one in
        expand_round fuel x n r visited chain start rest run out e f λ run' one' e' f'.
          expand-IsExpansion fuel n (x ∷ r) (x ∷ visited) (chain ++ n ∷ []) start (rest ++ n ∷ [])
            run' one' e' f' (omega arith)
