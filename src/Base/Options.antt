-- ===== src/Base/Options.antt =====
-- `Option::and_then`, which `?` and `do` blocks use, and its companions.
use Prim.Native.String.{String}
use text.Mathlib.Text.{◌==◌}
use text.Mathlib.TextEquality.{eq_iff}
use mathlib.Core.Logic.{inl, inr}
use mathlib.Core.Path.{◌≡◌}
use mathlib.Core.Option.{Option, none, some}
use mathlib.Core.Bool.{Bool, true, false}
use talos_workflow_engine.Base.Tests.{if◌then◌else◌, Bool-cases}

infixl 5 ◌>>=◌
abbrev pub ◌>>=◌ {ℓ κ} : {A : Type ℓ} {B : Type κ} → Option A → (A → Option B) → Option B
none >>= f = none
some x >>= f = f x

module _ {ℓ} {A : Type ℓ} where
  abbrev pub unwrap_or : Option A → A → A
  unwrap_or none d = d
  unwrap_or (some x) d = x

  abbrev pub or_else : Option A → Option A → Option A
  or_else none o = o
  or_else (some x) o = some x

  abbrev pub is_some : Option A → Bool
  is_some none = false
  is_some (some x) = true

  abbrev pub filter : (A → Bool) → Option A → Option A
  filter p none = none
  filter p (some x) = if p x then some x else none

-- A predicate on the value, if there is one.
abbrev pub OnSome {ℓ κ} : {A : Type ℓ} → (A → Type κ) → Option A → Type κ
OnSome P none = Unit
OnSome P (some x) = P x

module _ {A : Type 0} (P : A → Type 0) where
  -- A branch on whether a text is a certain one.
  pub OnSome-if :
      (s t : String) (x y : Option A)
      → (s ≡ t → OnSome P x)
      → OnSome P y
      → OnSome P (if s == t then x else y)
  OnSome-if s t x y h k = elim (Bool-cases (s == t)) [
    | inl same ↦ rw same (h ((eq_iff s t).0 same))
    | inr other ↦ rw other k
  ]

  pub OnSome-bind :
      {B : Type 0} (o : Option B) (f : B → Option A)
      → ((b : B) → OnSome P (f b))
      → OnSome P (o >>= f)
  OnSome-bind none f h = tt
  OnSome-bind (some b) f h = h b

  pub OnSome-some : (o : Option A) {x : A} → OnSome P o → o ≡ some x → P x
  OnSome-some o h e = rw e at h
