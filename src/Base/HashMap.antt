-- ===== src/Base/HashMap.antt =====
-- The standard library's `HashMap`, with numeric keys (node indices and UUIDs), as an association
-- list in which `insert` replaces. Where the program iterates over a map, it does so in some order.
use Prim.Native.Nat.{ℕ}
use mathlib.Core.Path.{◌≡◌, refl}
use mathlib.Core.Bool.{Bool, true, false}
use mathlib.Core.Option.{Option, none, some}
use mathlib.Core.List.{List, [], ◌∷◌}
use native.Mathlib.Omega.{arith}
use talos_workflow_engine.Base.Tests.{◌==◌, if◌then◌else◌}

abbrev pub HashMap {ℓ} : Type ℓ → Type ℓ
HashMap V = List (ℕ × V)

module _ {ℓ} {V : Type ℓ} where
  unfoldable pub get : HashMap V → ℕ → Option V
  get [] k = none
  get ((j, v) ∷ m) k = if j == k then some v else get m k

  unfoldable pub insert : HashMap V → ℕ → V → HashMap V
  insert [] k v = (k, v) ∷ []
  insert ((j, w) ∷ m) k v = if j == k then (k, v) ∷ m else (j, w) ∷ insert m k v

  pub get-insert :
      (m : HashMap V) (k j : ℕ) (v : V)
      → get (insert m k v) j ≡ (if k == j then some v else get m j)
  unfolding get insert
  get-insert [] k j v = refl
  get-insert ((i, w) ∷ m) k j v = ground (arith, get-insert m k j v)

  -- `map.get(&k).copied().unwrap_or(d)`.
  unfoldable pub get_or : HashMap V → ℕ → V → V
  get_or m k d = elim (get m k) [ none ↦ d | some v ↦ v ]

  unfoldable pub contains_key : HashMap V → ℕ → Bool
  contains_key m k = elim (get m k) [ none ↦ false | some v ↦ true ]
