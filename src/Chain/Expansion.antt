-- ===== src/Chain/Expansion.antt =====
-- The ends of the walks that `detect_linear_chains` makes, and what two walks share.
use mathlib.Core.List.{reverse_aux}
use mathlib.Core.Path.{subst}
use talos_workflow_engine.Base.{
  ℕ, ◌<◌, ◌≡◌, refl, sym, ap, ◌∙◌, inl, inr, true, List, [], ◌∷◌, arith, ◌==◌, ==_iff, Bool-cases,
  count, head_or, last_or,
}
use talos_workflow_engine.Graph.{DiGraph}
use talos_workflow_engine.Chain.{Walked, is_chain_start}
use talos_workflow_engine.Chain.Walk.{IsWalk, IsLinear, IsExpansion, IsWalk-unique, count-reverse}

pub head_or-reverse_aux :
    (r : List ℕ) (x : ℕ) (t : List ℕ) (d : ℕ) → head_or (reverse_aux r (x ∷ t)) d ≡ last_or r x
head_or-reverse_aux [] x t d = refl
head_or-reverse_aux (y ∷ r) x t d = head_or-reverse_aux r y (x ∷ t) d

module _ (g : DiGraph) where
  pub walk-IsLinear :
      (x : ℕ) (r t : List ℕ)
      → IsWalk g x r
      → IsLinear g (x ∷ t)
      → IsLinear g (reverse_aux r (x ∷ t))
  walk-IsLinear x [] t w h = h
  walk-IsLinear x (y ∷ r) t w h = walk-IsLinear y r (x ∷ t) w.2 (w.0, w.1, h)

  pub IsWalk-suffix :
      (x : ℕ) (r : List ℕ) (y : ℕ)
      → IsWalk g x r
      → 0 < count y (x ∷ r)
      → (s : List ℕ) × IsWalk g y s × (last_or s y ≡ last_or r x)
  IsWalk-suffix x [] y w h =
      let e : x ≡ y = ground arith in
      subst (λ z. (s : List ℕ) × IsWalk g z s × (last_or s z ≡ x)) e ([], w, refl)
  IsWalk-suffix x (z ∷ r) y w h = elim (Bool-cases (x == y)) [
    | inl same ↦
        let e : x ≡ y = (==_iff x y).0 same in
        subst (λ v. (s : List ℕ) × IsWalk g v s × (last_or s v ≡ last_or r z)) e (z ∷ r, w, refl)
    | inr other ↦ IsWalk-suffix z r y w.2 (ground arith)
  ]

  pub expansion-start :
      {start : ℕ} {w : Walked} → (e : IsExpansion g start w) → last_or e.back e.last ≡ start
  expansion-start {start} {w} e =
      sym (head_or-reverse_aux e.back e.last [] 0)
      ∙ ap (λ c. head_or c 0) (sym e.chain_reverse ∙ e.from_start)

  pub expansion-count :
      {start : ℕ} {w : Walked} (e : IsExpansion g start w) (y : ℕ)
      → count y w.chain ≡ count y (e.last ∷ e.back)
  expansion-count e y = ap (count y) e.chain_reverse ∙ count-reverse y (e.last ∷ e.back)

  -- Two expansions that share a node have one start.
  pub expansion-shared :
      {s t : ℕ} {v w : Walked} (d : IsExpansion g s v) (e : IsExpansion g t w) (y : ℕ)
      → 0 < count y v.chain
      → 0 < count y w.chain
      → s ≡ t
  expansion-shared d e y h k =
      let (r, walk_r, end_r) =
        IsWalk-suffix d.last d.back y d.run.walk (omega (arith, expansion-count d y)) in
      let (r', walk_r', end_r') =
        IsWalk-suffix e.last e.back y e.run.walk (omega (arith, expansion-count e y)) in
      let same = IsWalk-unique g y r r' walk_r walk_r' in
      sym (expansion-start d) ∙ sym end_r ∙ ap (λ l. last_or l y) same ∙ end_r' ∙ expansion-start e

  pub last_or-reverse_aux :
      (r : List ℕ) (x : ℕ) (t : List ℕ) (d : ℕ) → last_or (reverse_aux r (x ∷ t)) d ≡ last_or t x
  last_or-reverse_aux [] x t d = refl
  last_or-reverse_aux (y ∷ r) x t d = last_or-reverse_aux r y (x ∷ t) d

  pub walk-start : (x : ℕ) (r : List ℕ) → IsWalk g x r → is_chain_start g (last_or r x) ≡ true
  walk-start x [] w = w
  walk-start x (y ∷ r) w = walk-start y r w.2
