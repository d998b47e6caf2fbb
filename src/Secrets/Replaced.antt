-- ===== src/Secrets/Replaced.antt =====
-- What `replace_vault_values` of talos-workflow-engine/src/vault_resolver.rs leaves at each key.
use text.Mathlib.Text.{◌==◌ as str_eq}
use text.Mathlib.TextEquality.{eq_iff}
use talos_workflow_engine.Base.{
  String, ◌≡◌, refl, sym, ◌∙◌, ◌⊎◌, inl, inr, true, false, Option, none, some, List, [], ◌∷◌, ◌++◌,
  ap, All, arith, Bool-cases, Option-cases, if◌then◌else◌,
}
use talos_workflow_engine.Base.Options.{◌>>=◌}
use talos_workflow_engine.Base.Json.{
  Value, Map, null, bool, number, string, array, object, empty, get_key, as_str, as_object,
  get_key-insert_key,
}
use talos_workflow_engine.Secrets.{
  VaultRef, secret_not_resolved, is_vault_text, replace_at, replace_in, replace_vault_values,
}

get_key-replace_at :
    (k : String) (v : Value) (m : Map) (j : String)
    → get_key (replace_at k v m) j ≡ (
        if str_eq k j
        then (if is_vault_text (get_key m j) then some v else get_key m j)
        else get_key m j)
unfolding replace_at
get_key-replace_at k v m j = elim (Bool-cases (str_eq k j)) [
  | inl same ↦
      let e : k ≡ j = (eq_iff k j).0 same in
      rw (← e) (ground (arith, get_key-insert_key m k k v, (eq_iff k k).1 refl))
  | inr other ↦ ground (arith, other, get_key-insert_key m k j v)
]

-- The object in a section, which is empty where there is none.
abbrev sub_of : Option Value → Map
sub_of (some (object m)) = m
sub_of _ = empty

-- Where a payload is looked at: at the top or in one of the two sections.
pub data Place : Type 0 where
  top config input : Place

abbrev pub value_at : Map → Place → String → Option Value
value_at m top j = get_key m j
value_at m config j = get_key (sub_of (get_key m "config")) j
value_at m input j = get_key (sub_of (get_key m "input")) j

-- The value that one reference leaves, where `o` was.
abbrev one_ref : String → Value → String → Option Value → Option Value
one_ref k v j o = if str_eq k j then (if is_vault_text o then some v else o) else o

-- At the top, the two sections themselves are looked at by their places.
abbrev pub IsPlain : Place → String → Type 0
IsPlain top j = (str_eq "config" j ≡ false) × (str_eq "input" j ≡ false)
IsPlain config j = Unit
IsPlain input j = Unit

vault_text-sub_of : (o : Option Value) → is_vault_text o ≡ true → sub_of o ≡ empty
unfolding is_vault_text as_str
vault_text-sub_of none h = cc
vault_text-sub_of (some null) h = cc
vault_text-sub_of (some (bool b)) h = cc
vault_text-sub_of (some (number n)) h = cc
vault_text-sub_of (some (string s)) h = refl
vault_text-sub_of (some (array vs)) h = cc
vault_text-sub_of (some (object m)) h = cc

section-cases :
    (o : Option Value)
    → (((o >>= as_object) ≡ none) × (sub_of o ≡ empty)) ⊎ ((sub : Map) × (o ≡ some (object sub)))
unfolding as_object
section-cases none = inl (refl, refl)
section-cases (some null) = inl (refl, refl)
section-cases (some (bool b)) = inl (refl, refl)
section-cases (some (number n)) = inl (refl, refl)
section-cases (some (string s)) = inl (refl, refl)
section-cases (some (array vs)) = inl (refl, refl)
section-cases (some (object m)) = inr (m, refl)

one_ref-empty :
    (k : String) (v : Value) (j : String) → get_key empty j ≡ one_ref k v j (get_key empty j)
unfolding get_key is_vault_text
one_ref-empty k v j = ground arith

module _ (k s : String) where
  abbrev v : Value
  v = string s

  -- A text that is replaced is no section.
  sub_of-replace_at :
      (m : Map) (section : String)
      → sub_of (get_key (replace_at k v m) section) ≡ sub_of (get_key m section)
  sub_of-replace_at m section = elim (Bool-cases (str_eq k section)) [
    | inr other ↦ rw (get_key-replace_at k v m section, other) refl
    | inl same ↦ elim (Bool-cases (is_vault_text (get_key m section))) [
      | inr plain ↦ rw (get_key-replace_at k v m section, same, plain) refl
      | inl vault ↦
          rw (get_key-replace_at k v m section, same, vault)
            (sym (vault_text-sub_of (get_key m section) vault))
    ]
  ]

  sub_of-replace_in :
      (section : String) (m : Map) (j : String)
      → get_key (sub_of (get_key (replace_in section k v m) section)) j
        ≡ one_ref k v j (get_key (sub_of (get_key m section)) j)
  unfolding replace_in as_object
  sub_of-replace_in section m j = elim (section-cases (get_key m section)) [
    | inl (none', is_empty) ↦ rw (none', replace_in) (rw is_empty (one_ref-empty k v j))
    | inr (sub, some') ↦
        rw (some', replace_in)
          (rw
            (
              get_key-insert_key m section section (object (replace_at k v sub)),
              (eq_iff section section).1 refl,
            )
            (get_key-replace_at k v sub j))
  ]

  get_key-replace_in :
      (section : String) (m : Map) (j : String)
      → str_eq section j ≡ false
      → get_key (replace_in section k v m) j ≡ get_key m j
  unfolding replace_in
  get_key-replace_in section m j other = elim (Option-cases (get_key m section >>= as_object)) [
    | inl none' ↦ rw (none', replace_in) refl
    | inr (sub, some') ↦
        rw (some', replace_in)
          (ground (arith, other, get_key-insert_key m section j (object (replace_at k v sub))))
  ]

  -- One reference does the same at each place.
  value_at-step :
      (m : Map) (place : Place) (j : String)
      → IsPlain place j
      → value_at (replace_in "input" k v (replace_in "config" k v (replace_at k v m))) place j
        ≡ one_ref k v j (value_at m place j)
  value_at-step m top j plain =
      get_key-replace_in "input" (replace_in "config" k v (replace_at k v m)) j plain.1
      ∙ get_key-replace_in "config" (replace_at k v m) j plain.0
      ∙ get_key-replace_at k v m j
  value_at-step m config j plain =
      rw (get_key-replace_in "input" (replace_in "config" k v (replace_at k v m)) "config" refl)
        (rw (sub_of-replace_in "config" (replace_at k v m) j, sub_of-replace_at m "config") refl)
  value_at-step m input j plain =
      rw
        (
          sub_of-replace_in "input" (replace_in "config" k v (replace_at k v m)) j,
          get_key-replace_in "config" (replace_at k v m) "input" refl,
          sub_of-replace_at m "input",
        )
        refl

-- The path of the first reference with this key.
abbrev pub first_path : List VaultRef → String → Option String
first_path [] j = none
first_path (r ∷ refs) j =
    let rest = first_path refs j in if str_eq r.config_key j then some r.vault_path else rest

-- What a value at the key `j` should become: a text `vault://…` is the secret of the first reference
-- with this key, if there is one, and any other value stays.
abbrev pub settled : List VaultRef → (String → Option String) → String → Option Value → Option Value
settled refs resolved j o =
    if is_vault_text o
    then (elim (first_path refs j >>= resolved) [ none ↦ o | some s ↦ some (string s) ])
    else o

-- Every reference has a secret.
abbrev pub Resolved : (String → Option String) → List VaultRef → Type 0
Resolved resolved refs = All (λ r. (s : String) × (resolved r.vault_path ≡ some s)) refs

-- The first reference that has none.
pub record Missing (resolved : String → Option String) (refs : List VaultRef) : Type 0 where
  pub front : List VaultRef
  pub missed : VaultRef
  pub back : List VaultRef
  pub split : refs ≡ front ++ missed ∷ back
  pub earlier : Resolved resolved front
  pub absent : resolved missed.vault_path ≡ none

module _ (resolved : String → Option String)
    (no_refs : (path s : String) → resolved path ≡ some s → is_vault_text (some (string s)) ≡ false)
    (place : Place) (j : String) (plain : IsPlain place j) where
  settled-step :
      (r : VaultRef) (refs : List VaultRef) (s : String) (o : Option Value)
      → resolved r.vault_path ≡ some s
      → settled refs resolved j (one_ref r.config_key (string s) j o)
        ≡ settled (r ∷ refs) resolved j o
  settled-step r refs s o secret = elim (Bool-cases (is_vault_text o)) [
    | inr other ↦ ground (arith, other)
    | inl vault ↦ elim (Bool-cases (str_eq r.config_key j)) [
      | inr other ↦
          let kept : one_ref r.config_key (string s) j o ≡ o = rw other refl in
          ap (settled refs resolved j) kept ∙ rw other refl
      | inl same ↦ rw (same, vault) (rw (secret, no_refs r.vault_path s secret) refl)
    ]
  ]

  -- The replacement ends in one of two ways. Either every reference has a secret, and a payload that is
  -- an object has at the key `j`, at the top, in its `config` or in its `input`, what the value there
  -- should become; or the error names the first reference without a secret. No secret may look like a
  -- reference itself, and `config` and `input` are not keys at the top.
  pub replace_vault_values-settles :
      (m : Map) (refs : List VaultRef)
      → ((m' : Map) × Resolved resolved refs
          × (replace_vault_values (object m) resolved refs
              ≡ record { payload = object m'; error = none })
          × (value_at m' place j ≡ settled refs resolved j (value_at m place j)))
        ⊎ ((w : Missing resolved refs) × ((replace_vault_values (object m) resolved refs).error
              ≡ some (secret_not_resolved w.missed.config_key w.missed.vault_path)))
  unfolding replace_vault_values
  replace_vault_values-settles m [] = inl (m, tt, refl, ground arith)
  replace_vault_values-settles m (r ∷ refs) = elim (Option-cases (resolved r.vault_path)) [
    | inl absent ↦ inr (
      record { front = []; missed = r; back = refs; split = refl; earlier = tt; absent = absent },
      rw (absent, replace_vault_values) refl,
    )
    | inr (s, secret) ↦
        let after =
          replace_in "input" r.config_key (string s)
            (replace_in "config" r.config_key (string s) (replace_at r.config_key (string s) m)) in
        elim (replace_vault_values-settles after refs) [
          | inl (m', all, result, value) ↦ inl (
            m',
            ((s, secret), all),
            rw (secret, replace_vault_values) result,
            value
                ∙ ap (settled refs resolved j) (value_at-step r.config_key s m place j plain)
                ∙ settled-step r refs s (value_at m place j) secret,
          )
          | inr (w, result) ↦ inr (
            record {
              front = r ∷ w.front;
              missed = w.missed;
              back = w.back;
              split = ap (λ l. r ∷ l) w.split;
              earlier = ((s, secret), w.earlier);
              absent = w.absent;
            },
            rw (secret, replace_vault_values) result,
          )
        ]
  ]
