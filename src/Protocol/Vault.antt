-- ===== src/Protocol/Vault.antt =====
-- `vault_path_permitted` of talos-workflow-job-protocol/src/lib.rs: which vault paths a module may read.
use Prim.Native.String.{len, slice, ◌++◌}
use text.Mathlib.Text.{◌==◌ as str_eq, starts_with}
use text.Mathlib.TextBridge.{IsPrefix}
use text.Mathlib.TextEquality.{eq_iff, starts_with_iff}
use text.Mathlib.TextLemmas.{append_assoc}
use text.Mathlib.TextPositions.{len-append, slice-append_left, slice-append_right}
use talos_workflow_engine.Base.{
  ◌-◌, String, ◌≡◌, ◌≢◌, refl, sym, ap, ◌∙◌, ◌⊎◌, ◌↔◌, Bool, true, false, ◌&&◌, ◌||◌, List, [], ◌∷◌,
  any, leb, Bool-cases, arith, inl, inr,
}

-- `str::ends_with`.
unfoldable pub ends_with : String → String → Bool
ends_with s t = leb (len t) (len s) && str_eq (slice s (len s - len t) (len s)) t

unfoldable pub permits : String → String → Bool
unfolding ends_with
permits key_path s =
    str_eq s "*"
    || str_eq s key_path
    || starts_with key_path (s ++ "/")
    || (ends_with s "/*" && starts_with key_path (slice s 0 (len s - 1)))

unfoldable pub vault_path_permitted : List String → String → Bool
unfolding permits
vault_path_permitted [] key_path = false
vault_path_permitted (s ∷ allowed) key_path = any (permits key_path) (s ∷ allowed)

pub ends_with-append : (s t : String) → ends_with (s ++ t) t ≡ true
unfolding ends_with
ends_with-append s t =
    let there : len (s ++ t) - len t ≡ len s = omega (arith, len-append s t) in
    let cut : slice (s ++ t) (len (s ++ t) - len t) (len (s ++ t)) ≡ t =
      rw (there, len-append s t) (slice-append_right s t) in
    ground
      (arith, len-append s t, eq_iff (slice (s ++ t) (len (s ++ t) - len t) (len (s ++ t))) t, cut)

split_glob : (p : String) → p ++ "/*" ≡ (p ++ "/") ++ "*"
split_glob p = sym (append_assoc p "/" "*")

-- The `/*` that ends a glob is cut to `/`.
glob_prefix : (p : String) → slice (p ++ "/*") 0 (len (p ++ "/*") - 1) ≡ p ++ "/"
glob_prefix p =
    let long : len ((p ++ "/") ++ "*") - 1 ≡ len (p ++ "/") =
      omega (arith, len-append (p ++ "/") "*") in
    rw (split_glob p, long) (slice-append_left (p ++ "/") "*")

IsPrefix-trans : (r s t : String) → IsPrefix r s → IsPrefix s t → IsPrefix r t
IsPrefix-trans r s t (u, e) (v, f) = (u ++ v, sym (append_assoc r u v) ∙ ap (λ x. x ++ v) e ∙ f)

-- What makes a grant permit a path.
permits-cases :
    (key_path s : String)
    → permits key_path s ≡ true
    → (s ≡ "*")
      ⊎ ((s ≡ key_path)
          ⊎ (IsPrefix (s ++ "/") key_path
              ⊎ ((ends_with s "/*" ≡ true) × IsPrefix (slice s 0 (len s - 1)) key_path)))
unfolding permits
permits-cases key_path s h = elim (Bool-cases (str_eq s "*")) [
  | inl star ↦ inl ((eq_iff s "*").0 star)
  | inr proper ↦ elim (Bool-cases (str_eq s key_path)) [
    | inl same ↦ inr (inl ((eq_iff s key_path).0 same))
    | inr other ↦ elim (Bool-cases (starts_with key_path (s ++ "/"))) [
      | inl below ↦ inr (inr (inl ((starts_with_iff key_path (s ++ "/")).0 below)))
      | inr apart ↦ inr (
          inr (
            inr (
              ground (arith, proper, other, apart),
              (starts_with_iff key_path (slice s 0 (len s - 1))).0
                  (ground (arith, proper, other, apart)),
            )))
    ]
  ]
]

-- A grant `prefix` that is neither `*` nor a glob permits the path `prefix` itself and the paths below
-- `prefix/`, and no other.
vault_path_permitted-prefix :
    (s key_path : String)
    → s ≢ "*"
    → ends_with s "/*" ≡ false
    → (vault_path_permitted (s ∷ []) key_path ≡ true)
      ↔ ((s ≡ key_path) ⊎ IsPrefix (s ++ "/") key_path)
unfolding vault_path_permitted
vault_path_permitted-prefix s key_path proper plain = (
  (λ h. elim (permits-cases key_path s (ground arith)) [
    | inl star ↦ absurd (proper star)
    | inr (inl same) ↦ inl same
    | inr (inr (inl below)) ↦ inr below
    | inr (inr (inr (glob, _))) ↦ absurd (cc (plain, glob))
  ]),
  (λ h. elim h [
    | inl same ↦ ground (arith, (eq_iff s key_path).1 same)
    | inr below ↦ ground (arith, (starts_with_iff key_path (s ++ "/")).1 below)
  ]),
)

-- A grant `p/*` permits exactly the paths below `p/`, and so not the path `p`.
pub vault_path_permitted-glob :
    (p key_path : String)
    → (vault_path_permitted ((p ++ "/*") ∷ []) key_path ≡ true) ↔ IsPrefix (p ++ "/") key_path
unfolding vault_path_permitted
vault_path_permitted-glob p key_path =
    let inside : IsPrefix (p ++ "/") (p ++ "/*") = ("*", sym (split_glob p)) in
    (
      (λ h. elim (permits-cases key_path (p ++ "/*") (ground arith)) [
        | inl star ↦ absurd (omega (arith, len-append p "/*", ap len star))
        | inr (inl same) ↦ rw (← same) inside
        | inr (inr (inl below)) ↦
            IsPrefix-trans _ _ _ inside
              (IsPrefix-trans (p ++ "/*") ((p ++ "/*") ++ "/") key_path ("/", refl) below)
        | inr (inr (inr (_, glob))) ↦ rw (← glob_prefix p) glob
      ]),
      (λ h. ground (
        arith,
        ends_with-append p "/*",
        (starts_with_iff key_path (slice (p ++ "/*") 0 (len (p ++ "/*") - 1))).1
            (rw (glob_prefix p) h),
      )),
    )

-- More grants permit no less.
pub vault_path_permitted-more :
    (s : String) (allowed : List String) (key_path : String)
    → vault_path_permitted allowed key_path ≡ true
    → vault_path_permitted (s ∷ allowed) key_path ≡ true
unfolding vault_path_permitted
vault_path_permitted-more s [] key_path h = cc
vault_path_permitted-more s (t ∷ allowed) key_path h = ground arith
