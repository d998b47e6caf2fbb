-- ===== src/Base/Result.antt =====
-- `Result<A, String>`, with what `?` and `map_err` do.
use Prim.Native.String.{String}
use mathlib.Core.Logic.{◌⊎◌, inl, inr}
use mathlib.Core.Path.{◌≡◌, refl}
use mathlib.Core.Option.{Option, none, some}

pub data Result {ℓ} (A : Type ℓ) : Type ℓ where
  ok : A → Result A
  err : String → Result A

infixl 5 ◌>>=◌
abbrev pub ◌>>=◌ {ℓ κ} : {A : Type ℓ} {B : Type κ} → Result A → (A → Result B) → Result B
ok x >>= f = f x
err e >>= f = err e

module _ {ℓ} {A : Type ℓ} where
  abbrev pub ok_or : Option A → String → Result A
  ok_or none e = err e
  ok_or (some x) e = ok x

  abbrev pub map_err : (String → String) → Result A → Result A
  map_err f (ok x) = ok x
  map_err f (err e) = err (f e)

  pub Result-cases : (r : Result A) → ((x : A) × (r ≡ ok x)) ⊎ ((e : String) × (r ≡ err e))
  Result-cases (ok x) = inl (x, refl)
  Result-cases (err e) = inr (e, refl)

-- An error that ends the function, if there is one.
abbrev pub unless_error : Option String → Result {0} Unit
unless_error none = ok tt
unless_error (some e) = err e
