-- ===== src/Sanitize.antt =====
-- `sanitize_node_output` of talos-workflow-engine/src/validation.rs: the cap on the length of the text
-- fields of a node's output.
use Prim.Native.String.{len}
use text.Mathlib.Text.{is_char_boundary}
use text.Mathlib.TextPositions.{len-append}
use talos_workflow_engine.Base.{
  ℕ, ◌+◌, ◌≤◌, ◌<◌, String, ◌≡◌, refl, true, false, Option, none, some, [], ◌∷◌, arith, ltb, ◌⊎◌,
  if◌then◌else◌, Bool-cases, inl, inr,
}
use talos_workflow_engine.Base.Json.{
  Value, Map, null, bool, number, string, array, object, empty, entry,
}
use talos_workflow_engine.Base.Text.{format, byte_prefix, byte_prefix-total, byte_prefix-panics}

abbrev pub max_string_field_bytes : ℕ
max_string_field_bytes = 10240

abbrev truncation_mark : String
truncation_mark = "...[truncated at 10240B]"

-- One text field; `none` is the panic of the slice.
sanitize_text : String → Option String
sanitize_text s =
    if ltb max_string_field_bytes (len s)
    then elim (byte_prefix s max_string_field_bytes) [
      | none ↦ none
      | some t ↦ some (format (t ∷ truncation_mark ∷ []))
    ]
    else some s

sanitize_value : Value → Option Value
unfolding sanitize_text
sanitize_value (string s) = elim (sanitize_text s) [ none ↦ none | some t ↦ some (string t) ]
sanitize_value v = some v

-- `for val in obj.values_mut()`.
sanitize_fields : Map → Option Map
unfolding sanitize_value
sanitize_fields empty = some empty
sanitize_fields (entry k v m) =
    let rest = sanitize_fields m in
    elim (sanitize_value v) [
      | none ↦ none
      | some w ↦ elim rest [ none ↦ none | some m' ↦ some (entry k w m') ]
    ]

unfoldable pub sanitize_node_output : Value → Option Value
unfolding sanitize_fields
sanitize_node_output (object m) = elim (sanitize_fields m) [
  | none ↦ none
  | some m' ↦ some (object m')
]
sanitize_node_output v = some v

-- The text fields of an object, at the top level.
abbrev pub FieldsWithin : ℕ → Map → Type 0
FieldsWithin n empty = Unit
FieldsWithin n (entry k (string s) m) = (len s ≤ n) × FieldsWithin n m
FieldsWithin n (entry k v m) = FieldsWithin n m

abbrev pub Within : ℕ → Value → Type 0
Within n (object m) = FieldsWithin n m
Within n v = Unit

-- Every long text field can be cut at the cap without cutting a character.
abbrev pub FieldsCuttable : Map → Type 0
FieldsCuttable empty = Unit
FieldsCuttable (entry k (string s) m) =
    (max_string_field_bytes < len s → is_char_boundary s max_string_field_bytes ≡ true)
    × FieldsCuttable m
FieldsCuttable (entry k v m) = FieldsCuttable m

abbrev pub Cuttable : Value → Type 0
Cuttable (object m) = FieldsCuttable m
Cuttable v = Unit

marked-len : (t : String) → len (format (t ∷ truncation_mark ∷ [])) ≡ len t + 24
marked-len t = rw (len-append t (format (truncation_mark ∷ [])))

sanitize_text-total :
    (s : String)
    → (max_string_field_bytes < len s → is_char_boundary s max_string_field_bytes ≡ true)
    → (t : String) × (sanitize_text s ≡ some t) × (len t ≤ 10264)
unfolding sanitize_text
sanitize_text-total s h = elim (Bool-cases (ltb max_string_field_bytes (len s))) [
  | inl long ↦
      let (u, cut, size) = byte_prefix-total s max_string_field_bytes (h (ground (arith, long))) in
      (
        format (u ∷ truncation_mark ∷ []),
        rw (long, cut, sanitize_text),
        omega (arith, marked-len u),
      )
  | inr short ↦ (s, rw (short, sanitize_text), ground (arith, short))
]

sanitize_fields-total :
    (m : Map)
    → FieldsCuttable m
    → (m' : Map) × (sanitize_fields m ≡ some m') × FieldsWithin 10264 m'
unfolding sanitize_fields
sanitize_fields-total empty h = (empty, refl, tt)
sanitize_fields-total (entry k (string s) m) h =
    let (t, e, short) = sanitize_text-total s h.0 in
    let (m', e', within) = sanitize_fields-total m h.1 in
    (entry k (string t) m', rw (e, e', sanitize_fields), (short, within))
sanitize_fields-total (entry k null m) h =
    let (m', e', within) = sanitize_fields-total m h in
    (entry k null m', rw (e', sanitize_fields), within)
sanitize_fields-total (entry k v m) h =
    let (m', e', within) = sanitize_fields-total m h in
    (entry k v m', rw (e', sanitize_fields), within)

-- If every text field longer than 10240 bytes has a character boundary there, the call returns, and
-- no text field of the result is longer than 10264 bytes.
pub sanitize_node_output-Within :
    (v : Value) → Cuttable v → (w : Value) × (sanitize_node_output v ≡ some w) × Within 10264 w
unfolding sanitize_node_output
sanitize_node_output-Within (object m) h =
    let (m', e, within) = sanitize_fields-total m h in
    (object m', rw (e, sanitize_node_output), within)
sanitize_node_output-Within null h = (null, refl, tt)
sanitize_node_output-Within (bool b) h = (bool b, refl, tt)
sanitize_node_output-Within (number n) h = (number n, refl, tt)
sanitize_node_output-Within (string s) h = (string s, refl, tt)
sanitize_node_output-Within (array xs) h = (array xs, refl, tt)

-- Some long text field has no character boundary at the cap.
abbrev pub HasUncuttable : Map → Type 0
HasUncuttable empty = ⊥
HasUncuttable (entry k (string s) m) =
    ((max_string_field_bytes < len s) × (is_char_boundary s max_string_field_bytes ≡ false))
    ⊎ HasUncuttable m
HasUncuttable (entry k v m) = HasUncuttable m

sanitize_text-panics :
    (s : String)
    → max_string_field_bytes < len s
    → is_char_boundary s max_string_field_bytes ≡ false
    → sanitize_text s ≡ none
unfolding sanitize_text
sanitize_text-panics s long cut =
    ground (arith, long, byte_prefix-panics s max_string_field_bytes cut)

sanitize_fields-panics : (m : Map) → HasUncuttable m → sanitize_fields m ≡ none
unfolding sanitize_fields
sanitize_fields-panics empty h = absurd h
sanitize_fields-panics (entry k (string s) m) (inl (long, cut)) =
    rw (sanitize_text-panics s long cut, sanitize_fields)
sanitize_fields-panics (entry k (string s) m) (inr h) = ground (arith, sanitize_fields-panics m h)
sanitize_fields-panics (entry k null m) h = rw (sanitize_fields-panics m h, sanitize_fields)
sanitize_fields-panics (entry k v m) h = rw (sanitize_fields-panics m h, sanitize_fields)

-- The call panics on every object with a text field that is longer than 10240 bytes and has no
-- character boundary there.
pub sanitize_node_output-panics :
    (m : Map) → HasUncuttable m → sanitize_node_output (object m) ≡ none
unfolding sanitize_node_output
sanitize_node_output-panics m h = rw (sanitize_fields-panics m h, sanitize_node_output)
