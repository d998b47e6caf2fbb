-- ===== src/Handlers/Marks.antt =====
-- What the handlers of talos-workflow-engine/src/scheduler_handlers.rs mark in a value can be read from
-- it, and the rest of the value is as it was.
use text.Mathlib.Text.{◌==◌ as str_eq, starts_with}
use text.Mathlib.TextEquality.{eq_iff}
use talos_workflow_engine.Base.{
  All, String, ◌≡◌, refl, ap, ◌∙◌, inl, inr, true, false, Option, none, some, List, [], ◌∷◌,
  Bool-cases,
}
use talos_workflow_engine.Base.Json.{
  Value, null, bool, number, string, array, object, get, get_key, IsHandedOn, flag, empty,
  insert_key, get_key-insert_key,
}
use talos_workflow_engine.Handlers.Checks.{marked}
use talos_workflow_engine.Handlers.Gate.{object_or_empty}

-- The marks have other keys than `k`.
abbrev pub Apart : String → List (String × Value) → Type 0
Apart k marks = All (λ mark. str_eq mark.0 k ≡ false) marks

pub get-marked :
    (v : Value) (marks : List (String × Value)) (k : String)
    → Apart k marks
    → get (marked v marks) k ≡ get v k
unfolding get marked
get-marked (object m) [] k apart = refl
get-marked (object m) ((j, w) ∷ marks) k apart =
    get-marked (object (insert_key m j w)) marks k apart.1
    ∙ rw (get_key-insert_key m j k w, apart.0) refl
get-marked null marks k apart = refl
get-marked (bool b) marks k apart = refl
get-marked (number n) marks k apart = refl
get-marked (string s) marks k apart = refl
get-marked (array vs) marks k apart = refl

pub marked-IsHandedOn : (v : Value) (marks : List (String × Value)) → IsHandedOn v (marked v marks)
unfolding marked
marked-IsHandedOn (object m) [] = (m, refl)
marked-IsHandedOn (object m) ((k, w) ∷ marks) = marked-IsHandedOn (object (insert_key m k w)) marks
marked-IsHandedOn null marks = refl
marked-IsHandedOn (bool b) marks = refl
marked-IsHandedOn (number n) marks = refl
marked-IsHandedOn (string s) marks = refl
marked-IsHandedOn (array vs) marks = refl

-- How a mark is read: an input that is no object has none.
abbrev pub mark_of : Value → Value → Option Value
mark_of (object m) w = some w
mark_of _ w = none

abbrev pub AllApart : List (String × Value) → Type 0
AllApart [] = Unit
AllApart (mark ∷ marks) = Apart mark.0 marks × AllApart marks

pub get-marks :
    (v : Value) (marks : List (String × Value))
    → AllApart marks
    → All (λ mark. get (marked v marks) mark.0 ≡ mark_of v mark.1) marks
unfolding get marked
get-marks v [] apart = tt
get-marks (object m) ((j, w) ∷ marks) apart = (
  get-marked (object (insert_key m j w)) marks j apart.0
      ∙ rw (get_key-insert_key m j j w, (eq_iff j j).1 refl) refl,
  get-marks (object (insert_key m j w)) marks apart.1,
)
get-marks null (mark ∷ marks) apart = (refl, get-marks null marks apart.1)
get-marks (bool b) (mark ∷ marks) apart = (refl, get-marks (bool b) marks apart.1)
get-marks (number n) (mark ∷ marks) apart = (refl, get-marks (number n) marks apart.1)
get-marks (string s) (mark ∷ marks) apart = (refl, get-marks (string s) marks apart.1)
get-marks (array vs) (mark ∷ marks) apart = (refl, get-marks (array vs) marks apart.1)

pub other_key :
    (k j : String) → starts_with k "__" ≡ false → starts_with j "__" ≡ true → str_eq j k ≡ false
other_key k j plain reserved = elim (Bool-cases (str_eq j k)) [
  | inr other ↦ other
  | inl same ↦
      let e : j ≡ k = (eq_iff j k).0 same in
      absurd (cc (plain, reserved, ap (λ (s : String). starts_with s "__") e))
]

pub get-object_or_empty : (v : Value) (k : String) → get (object_or_empty v) k ≡ get v k
unfolding get get_key object_or_empty
get-object_or_empty (object m) k = refl
get-object_or_empty null k = refl
get-object_or_empty (bool b) k = refl
get-object_or_empty (number n) k = refl
get-object_or_empty (string s) k = refl
get-object_or_empty (array vs) k = refl

pub flag-marked :
    (v : Value) (marks : List (String × Value)) (k : String)
    → Apart k marks
    → flag (marked (object_or_empty v) marks) k ≡ flag v k
unfolding flag
flag-marked v marks k apart =
    rw (get-marked (object_or_empty v) marks k apart, get-object_or_empty v k, flag) refl

pub get-handed :
    (v : Value) (marks : List (String × Value)) (k : String)
    → Apart k marks
    → get (marked (object_or_empty v) marks) k ≡ get v k
get-handed v marks k apart = get-marked (object_or_empty v) marks k apart ∙ get-object_or_empty v k

-- The marks of an output can be read from it.
pub get-borne :
    (v : Value) (marks : List (String × Value))
    → AllApart marks
    → All (λ mark. get (marked (object_or_empty v) marks) mark.0 ≡ some mark.1) marks
unfolding object_or_empty
get-borne (object m) = get-marks (object m)
get-borne null = get-marks (object empty)
get-borne (bool b) = get-marks (object empty)
get-borne (number n) = get-marks (object empty)
get-borne (string s) = get-marks (object empty)
get-borne (array vs) = get-marks (object empty)
