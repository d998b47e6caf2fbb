-- ===== src/Chain.antt =====
-- `detect_linear_chains` of talos-workflow-engine/src/chain_detect.rs: the chains of nodes that the
-- scheduler sends to a worker as one pipeline.
pub mod Walk
pub mod Expansion
pub mod Detect
pub mod Pipelines
use talos_workflow_engine.Base.{
  ℕ, zero, suc, ◌<◌, Bool, true, false, not, Option, none, some, List, [], ◌∷◌, ◌++◌, ◌==◌,
  if◌then◌else◌, length, contains, retain, leb,
}
use talos_workflow_engine.Graph.{DiGraph, out_degree, in_degree}

-- `.next()` on an iterator of neighbours.
abbrev pub first : List ℕ → Option ℕ
first [] = none
first (x ∷ xs) = some x

pub record Walked : Type 0 where
  pub visited : List ℕ
  pub chain : List ℕ

pub record Found : Type 0 where
  pub visited : List ℕ
  pub chains : List (List ℕ)

module _ (g : DiGraph) where
  parent_out_degree : ℕ → ℕ
  unfolding out_degree
  parent_out_degree idx = elim (first (g.incoming idx)) [ none ↦ 0 | some p ↦ out_degree g p ]

  unfoldable pub is_chain_start : ℕ → Bool
  unfolding parent_out_degree out_degree in_degree
  is_chain_start idx =
      if not (out_degree g idx == 1)
      then false
      else if in_degree g idx == 0
      then true
      else not (parent_out_degree idx == 1)

  -- The `loop` that expands a start. `none` means that the fuel ran out, which it does not.
  unfoldable pub expand : ℕ → ℕ → List ℕ → List ℕ → Option Walked
  unfolding in_degree out_degree
  expand zero current visited chain = none
  expand (suc fuel) current visited chain =
      let seen = current ∷ visited in
      elim (first (g.outgoing current)) [
        | none ↦ some (record { visited = seen; chain = chain })
        | some next ↦
            let rest = expand fuel next seen (chain ++ next ∷ []) in
            if not (in_degree g next == 1)
            then some (record { visited = seen; chain = chain })
            else if not (out_degree g next == 1)
            then some (record { visited = seen; chain = chain ++ next ∷ [] })
            else rest
      ]

  abbrev pub chain_fuel : ℕ
  chain_fuel = suc (length g.node_indices)

  -- One round of the `for start in chain_starts` loop.
  unfoldable pub expand_start : ℕ → Found → Option Found
  unfolding expand
  expand_start start found =
      if contains found.visited start
      then some found
      else elim (expand chain_fuel start found.visited (start ∷ [])) [
        | none ↦ none
        | some w ↦ some (record {
          visited = w.visited;
          chains = if leb 2 (length w.chain) then found.chains ++ w.chain ∷ [] else found.chains;
        })
      ]

  unfoldable pub expand_starts : List ℕ → Found → Option Found
  unfolding expand_start
  expand_starts [] found = some found
  expand_starts (s ∷ starts) found = elim (expand_start s found) [
    | none ↦ none
    | some found' ↦ expand_starts starts found'
  ]

  unfoldable pub detect_linear_chains : Option (List (List ℕ))
  unfolding expand_starts is_chain_start
  detect_linear_chains =
      elim (expand_starts (retain is_chain_start g.node_indices)
        (record { visited = []; chains = [] })) [ none ↦ none | some found ↦ some found.chains ]
