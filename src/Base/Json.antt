-- ===== src/Base/Json.antt =====
-- `serde_json::Value`, the data that nodes exchange, with the accessors that the engine calls.
-- An object is its list of entries with distinct keys; `insert` replaces.
use Prim.Native.Nat.{ℕ, ◌+◌}
use Prim.Native.String.{String}
use mathlib.Core.Path.{◌≡◌, refl, ap}
use mathlib.Core.Bool.{Bool, true, false}
use mathlib.Core.Option.{Option, none, some}
use mathlib.Core.List.{List, [], ◌∷◌}
use native.Mathlib.Omega.{arith}
use text.Mathlib.Text.{◌==◌}
use text.Mathlib.TextEquality.{eq_iff}
use talos_workflow_engine.Base.Tests.{if◌then◌else◌}

-- A float is carried by its bit pattern.
pub data Number : Type 0 where
  pos_int : ℕ → Number
  neg_int : ℕ → Number
  float : ℕ → Number

mutual
  pub data Value : Type 0 where
    null : Value
    bool : Bool → Value
    number : Number → Value
    string : String → Value
    array : Items → Value
    object : Map → Value

  pub data Items : Type 0 where
    nil : Items
    cons : Value → Items → Items

  pub data Map : Type 0 where
    empty : Map
    entry : String → Value → Map → Map

abbrev pub items : List Value → Items
items [] = nil
items (v ∷ vs) = cons v (items vs)

abbrev pub values : Items → List Value
values nil = []
values (cons v vs) = v ∷ values vs

pub values-items : (vs : List Value) → values (items vs) ≡ vs
values-items [] = refl
values-items (v ∷ vs) = ap (λ (l : List Value). v ∷ l) (values-items vs)

unfoldable pub get_key : Map → String → Option Value
get_key empty k = none
get_key (entry j v m) k = if j == k then some v else get_key m k

unfoldable pub insert_key : Map → String → Value → Map
insert_key empty k v = entry k v empty
insert_key (entry j w m) k v = if j == k then entry k v m else entry j w (insert_key m k v)

pub get_key-insert_key :
    (m : Map) (k j : String) (v : Value)
    → get_key (insert_key m k v) j ≡ (if k == j then some v else get_key m j)
unfolding get_key insert_key
get_key-insert_key empty k j v = refl
get_key-insert_key (entry i w m) k j v =
    ground (arith, eq_iff k j, eq_iff i k, eq_iff i j, get_key-insert_key m k j v)

-- `map.retain(|k, _| keep(k))`.
unfoldable pub retain_keys : (String → Bool) → Map → Map
retain_keys keep empty = empty
retain_keys keep (entry k v m) =
    let rest = retain_keys keep m in if keep k then entry k v rest else rest

pub get_key-retain_keys :
    (keep : String → Bool) (m : Map) (k : String)
    → get_key (retain_keys keep m) k ≡ (if keep k then get_key m k else none)
unfolding get_key retain_keys
get_key-retain_keys keep empty k = ground arith
get_key-retain_keys keep (entry j v m) k = ground (arith, eq_iff j k, get_key-retain_keys keep m k)

-- `map.len()`, `map.is_empty()`.
unfoldable pub size : Map → ℕ
size empty = 0
size (entry k v m) = 1 + size m

unfoldable pub is_empty : Map → Bool
is_empty empty = true
is_empty (entry k v m) = false

unfoldable pub keys : Map → List String
keys empty = []
keys (entry k v m) = k ∷ keys m

-- `value.get(k)` with a string: `None` unless the value is an object.
unfoldable pub get : Value → String → Option Value
unfolding get_key
get (object m) k = get_key m k
get _ k = none

unfoldable pub as_bool : Value → Option Bool
as_bool (bool b) = some b
as_bool _ = none

unfoldable pub as_str : Value → Option String
as_str (string s) = some s
as_str _ = none

unfoldable pub as_object : Value → Option Map
as_object (object m) = some m
as_object _ = none

unfoldable pub as_u64 : Value → Option ℕ
as_u64 (number (pos_int n)) = some n
as_u64 _ = none

unfoldable pub as_array : Value → Option (List Value)
as_array (array vs) = some (values vs)
as_array _ = none

unfoldable pub is_null : Value → Bool
is_null null = true
is_null _ = false

-- `v.get(k).and_then(|v| v.as_bool()).unwrap_or(false)`.
unfoldable pub flag : Value → String → Bool
unfolding get as_bool
flag v k = elim (get v k) [ none ↦ false | some w ↦ elim (as_bool w) [ none ↦ false | some b ↦ b ] ]

-- What becomes of a value whose entries are marked or dropped: an object stays one, and anything else
-- stays as it is.
abbrev pub IsHandedOn : Value → Value → Type 0
IsHandedOn (object m) w = (n : Map) × (w ≡ object n)
IsHandedOn v w = w ≡ v
