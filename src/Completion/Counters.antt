-- ===== src/Completion/Counters.antt =====
-- What the guarded decrement of the pending counters does to each counter.
use talos_workflow_engine.Base.{
  ℕ, ◌-◌, ◌≡◌, inl, inr, Option, none, some, List, [], ◌∷◌, arith, ◌==◌, ==_iff, Bool-cases, count,
  bit, fold, Option-cases,
}
use talos_workflow_engine.Base.HashMap
use talos_workflow_engine.Base.HashMap.{HashMap, get-insert}
use talos_workflow_engine.Completion.{decrement}

abbrev pub minus : Option ℕ → ℕ → Option ℕ
minus none k = none
minus (some n) k = some (n - k)

minus-zero : (o : Option ℕ) → minus o 0 ≡ o
minus-zero o = ground arith

pub get-decrement :
    (idx j : ℕ) (p : HashMap ℕ)
    → HashMap.get (decrement idx p) j ≡ minus (HashMap.get p j) (bit (idx == j))
unfolding decrement
get-decrement idx j p = elim (Option-cases (HashMap.get p idx)) [
  | inl absent ↦ elim (Bool-cases (idx == j)) [
    | inl same ↦
        let k : idx ≡ j = (==_iff idx j).0 same in
        let absent' : HashMap.get p j ≡ none = rw (← k) absent in
        rw (absent, decrement) (ground (arith, absent'))
    | inr other ↦ rw (absent, decrement) (ground (arith, minus-zero (HashMap.get p j)))
  ]
  | inr (n, there) ↦ elim (Bool-cases (idx == j)) [
    | inl same ↦
        let k : idx ≡ j = (==_iff idx j).0 same in
        let there' : HashMap.get p j ≡ some n = rw (← k) there in
        rw (there, decrement) (ground (arith, there', get-insert p idx j (n - 1)))
    | inr other ↦
        rw (there, decrement)
          (ground (arith, get-insert p idx j (n - 1), minus-zero (HashMap.get p j)))
  ]
]

pub get-fold-decrement :
    (cs : List ℕ) (p : HashMap ℕ) (j : ℕ)
    → HashMap.get (fold decrement cs p) j ≡ minus (HashMap.get p j) (count j cs)
get-fold-decrement [] p j = ground arith
get-fold-decrement (c ∷ cs) p j =
    ground (arith, get-fold-decrement cs (decrement c p) j, get-decrement c j p)
