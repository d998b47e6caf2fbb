-- ===== src/Base/Text.antt =====
-- `format!` with pieces, and the slice `&s[..n]` of a text, which panics inside a character.
use Prim.Native.Nat.{ℕ}
use Prim.Native.String.{String, ◌++◌, len, slice}
use mathlib.Core.Path.{◌≡◌}
use mathlib.Core.Option.{Option, none, some}
use mathlib.Core.List.{List, [], ◌∷◌}
use native.Mathlib.Omega.{arith}
use mathlib.Core.Bool.{true, false}
use text.Mathlib.Text.{get?, is_char_boundary}
use text.Mathlib.TextPositions.{boundary-zero}

abbrev pub format : List String → String
format [] = ""
format (s ∷ ss) = s ++ format ss

-- `&s[..n]`; `none` is the panic.
abbrev pub byte_prefix : String → ℕ → Option String
byte_prefix s n = get? s 0 n

pub byte_prefix-total :
    (s : String) (n : ℕ)
    → is_char_boundary s n ≡ true
    → (t : String) × (byte_prefix s n ≡ some t) × (len t ≡ n)
byte_prefix-total s n h = (slice s 0 n, ground (arith, boundary-zero s, h), ground (arith, h))

pub byte_prefix-panics :
    (s : String) (n : ℕ) → is_char_boundary s n ≡ false → byte_prefix s n ≡ none
byte_prefix-panics s n h = ground (arith, h)
