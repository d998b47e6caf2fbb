-- ===== src/Base/Lists.antt =====
-- Lists measured by native numbers. Membership is `0 < count x xs`, which `omega` reads.
use Prim.Native.Nat.{ℕ, zero, suc, ◌+◌, ◌≤◌, ◌<◌}
use mathlib.Core.Path.{◌≡◌, refl, ap}
use mathlib.Core.Bool.{Bool, true, false, ◌&&◌, ◌||◌}
use mathlib.Core.Logic.{◌⊎◌, inl, inr}
use mathlib.Core.Option.{Option, none, some}
use mathlib.Core.List.{List, [], ◌∷◌, ◌++◌}
use native.Mathlib.Omega.{arith}
use talos_workflow_engine.Base.Tests.{◌==◌, ==_iff, Bool-cases, if◌then◌else◌, bit}

module _ {ℓ} {A : Type ℓ} where
  abbrev pub length : List A → ℕ
  length [] = 0
  length (x ∷ xs) = suc (length xs)

  abbrev pub get_elem? : List A → ℕ → Option A
  get_elem? [] i = none
  get_elem? (x ∷ xs) zero = some x
  get_elem? (x ∷ xs) (suc i) = get_elem? xs i

  abbrev pub head_or : List A → A → A
  head_or [] d = d
  head_or (x ∷ xs) d = x

  abbrev pub last_or : List A → A → A
  last_or [] d = d
  last_or (x ∷ xs) d = last_or xs x

  pub length-append : (xs ys : List A) → length (xs ++ ys) ≡ length xs + length ys
  length-append [] ys = omega arith
  length-append (x ∷ xs) ys = omega (arith, length-append xs ys)

module _ {ℓ} {A : Type ℓ} where
  -- `Iterator::any` and `Iterator::all`.
  abbrev pub any : (A → Bool) → List A → Bool
  any p [] = false
  any p (x ∷ xs) = p x || any p xs

  abbrev pub all : (A → Bool) → List A → Bool
  all p [] = true
  all p (x ∷ xs) = p x && all p xs

  -- `Vec::retain` and `Iterator::filter`.
  abbrev pub retain : (A → Bool) → List A → List A
  retain p [] = []
  retain p (x ∷ xs) = let rest = retain p xs in if p x then x ∷ rest else rest

  -- `Iterator::filter_map`.
  abbrev pub filter_map {κ} : {B : Type κ} → (A → Option B) → List A → List B
  filter_map f [] = []
  filter_map f (x ∷ xs) =
      let rest = filter_map f xs in elim (f x) [ none ↦ rest | some y ↦ y ∷ rest ]

  -- A `for` loop over the items of a list.
  abbrev pub fold {κ} : {S : Type κ} → (A → S → S) → List A → S → S
  fold f [] s = s
  fold f (x ∷ xs) s = fold f xs (f x s)

pub filter_map-none :
    {A : Type 0} {B : Type 0} (f : A → Option B) (x : A) (xs : List A)
    → f x ≡ none
    → filter_map f (x ∷ xs) ≡ filter_map f xs
filter_map-none f x xs h = rw (h, filter_map) refl

pub filter_map-some :
    {A : Type 0} {B : Type 0} (f : A → Option B) (x : A) (xs : List A) (y : B)
    → f x ≡ some y
    → filter_map f (x ∷ xs) ≡ y ∷ filter_map f xs
filter_map-some f x xs y h = rw (h, filter_map) refl

-- A predicate on every item.
abbrev pub All {ℓ κ} : {A : Type ℓ} → (A → Type κ) → List A → Type κ
All P [] = Unit
All P (x ∷ xs) = P x × All P xs

abbrev pub count : ℕ → List ℕ → ℕ
count a [] = 0
count a (x ∷ xs) = bit (x == a) + count a xs

abbrev pub contains : List ℕ → ℕ → Bool
contains [] a = false
contains (x ∷ xs) a = x == a || contains xs a

pub count-append :
    (k : ℕ) (front back : List ℕ) → count k (front ++ back) ≡ count k front + count k back
count-append k [] back = ground arith
count-append k (f ∷ front) back = ground (arith, count-append k front back)

pub contains-count : (a : ℕ) (xs : List ℕ) → contains xs a ≡ true → 0 < count a xs
contains-count a [] h = ground arith
contains-count a (x ∷ xs) h = ground (arith, contains-count a xs)

pub not-contains-count : (a : ℕ) (xs : List ℕ) → contains xs a ≡ false → count a xs ≡ 0
not-contains-count a [] h = refl
not-contains-count a (x ∷ xs) h = ground (arith, not-contains-count a xs)

-- Removes the first occurrence.
abbrev pub erase : ℕ → List ℕ → List ℕ
erase a [] = []
erase a (x ∷ xs) = let rest = erase a xs in if x == a then xs else x ∷ rest

pub count-erase :
    (a b : ℕ) (xs : List ℕ) → 0 < count a xs → count b (erase a xs) + bit (a == b) ≡ count b xs
count-erase a b [] h = absurd (omega arith)
count-erase a b (x ∷ xs) h = ground (arith, count-erase a b xs)

pub length-erase : (a : ℕ) (xs : List ℕ) → 0 < count a xs → suc (length (erase a xs)) ≡ length xs
length-erase a [] h = absurd (omega arith)
length-erase a (x ∷ xs) h = ground (arith, length-erase a xs)

-- A list that holds nothing oftener than another is no longer.
pub length-le_of_count :
    (xs ys : List ℕ) → ((a : ℕ) → count a xs ≤ count a ys) → length xs ≤ length ys
length-le_of_count [] ys h = omega arith
length-le_of_count (x ∷ xs) ys h =
    let there : 0 < count x ys = ground (arith, h x) in
    omega (
      arith,
      length-erase x ys there,
      length-le_of_count xs (erase x ys) (λ a. omega (arith, h a, count-erase x a ys there)),
    )

pub All-append :
    {A : Type 0} (P : A → Type 0) (xs ys : List A) → All P xs → All P ys → All P (xs ++ ys)
All-append P [] ys h k = k
All-append P (x ∷ xs) ys h k = (h.0, All-append P xs ys h.1 k)

pub All-map :
    {A : Type 0} (P Q : A → Type 0) (xs : List A) → ((x : A) → P x → Q x) → All P xs → All Q xs
All-map P Q [] f h = tt
All-map P Q (x ∷ xs) f h = (f x h.0, All-map P Q xs f h.1)

pub count-retain :
    (p : ℕ → Bool) (xs : List ℕ) (c : ℕ) → count c (retain p xs) ≡ (if p c then count c xs else 0)
count-retain p [] c = ground arith
count-retain p (x ∷ xs) c = elim (Bool-cases (x == c)) [
  | inl same ↦
      let k : x ≡ c = (==_iff x c).0 same in
      let l : p x ≡ p c = ap p k in ground (arith, count-retain p xs c, l)
  | inr other ↦ ground (arith, count-retain p xs c)
]

pub retain-All : (p : ℕ → Bool) (xs : List ℕ) → All (λ x. p x ≡ true) (retain p xs)
retain-All p [] = tt
retain-All p (x ∷ xs) = elim (Bool-cases (p x)) [
  | inl h ↦ rw h (h, retain-All p xs)
  | inr h ↦ rw h (retain-All p xs)
]

pub List-cases :
    {A : Type 0} (xs : List A) → (xs ≡ []) ⊎ ((x : A) × (rest : List A) × (xs ≡ x ∷ rest))
List-cases [] = inl refl
List-cases (x ∷ xs) = inr (x, xs, refl)
