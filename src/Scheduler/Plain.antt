-- ===== src/Scheduler/Plain.antt =====
-- Plain graphs: no edge is an error edge or has a condition, and every fan-in node waits for all of
-- its parents. There the three loops over the successors of a node release them alike.
use text.Mathlib.TextEquality.{eq_iff}
use talos_workflow_engine.Base.{
  ℕ, suc, ◌-◌, ◌<◌, String, ◌≡◌, refl, ◌≢◌, inl, inr, Bool, true, false, not, Option, none, some,
  List, [], ◌∷◌, ◌++◌, arith, ◌==◌, ltb, any, All, if◌then◌else◌, Bool-cases, Option-cases,
  count-append,
}
use talos_workflow_engine.Base.HashMap
use talos_workflow_engine.Base.HashMap.{HashMap, get-insert}
use talos_workflow_engine.Base.Json.{Value}
use talos_workflow_engine.Graph.{EdgeLogic, edge_limit}
use talos_workflow_engine.Engine.{
  Engine, Reactor, JoinMode, all, SystemNodeKind, node_kind, fan_in, fan_in_of,
  apply_fan_in_early_ready, usize_sub,
}
use talos_workflow_engine.Completion.{
  decrement, push_if_released, unblock_successor, is_error_edge, edge_blocks, has_error_edge,
  condition_failed, success_child,
}
use talos_workflow_engine.Completion.Failure.{continue_child}
use talos_workflow_engine.Scheduler.Release.{Released, Releases}

pub record IsPlain (e : Engine) : Type 0 where
  pub edges :
      (p c : ℕ)
      → All (λ l. (l.edge_type ≢ "error") × (l.condition ≡ none)) (e.graph.edges_connecting p c)
  pub joins :
      (c : ℕ) (mode : JoinMode) (expr : Option String)
      → node_kind e (e.graph.weight c) ≡ some (fan_in mode expr)
      → mode ≡ all

abbrev PlainEdge : EdgeLogic → Type 0
PlainEdge l = (l.edge_type ≢ "error") × (l.condition ≡ none)

fan_in_of-some :
    (e : Engine) (k : Option SystemNodeKind) (mode : JoinMode)
    → fan_in_of e k ≡ some mode
    → (expr : Option String) × (k ≡ some (fan_in mode expr))
unfolding fan_in_of
fan_in_of-some e (some (fan_in m expr)) mode h = (expr, cc)
fan_in_of-some e none mode h = cc
fan_in_of-some e (some k) mode h = cc

any-is_error_edge : (ls : List EdgeLogic) → All PlainEdge ls → any is_error_edge ls ≡ false
unfolding is_error_edge
any-is_error_edge [] h = refl
any-is_error_edge (l ∷ ls) h = ground (arith, eq_iff l.edge_type "error", any-is_error_edge ls h.1)

any-edge_blocks :
    (e : Engine) (v : Value) (ls : List EdgeLogic)
    → All PlainEdge ls
    → any (edge_blocks e v) ls ≡ false
unfolding edge_blocks
any-edge_blocks e v [] h = refl
any-edge_blocks e v (l ∷ ls) h = ground (arith, any-edge_blocks e v ls h.1)

if_not : (b : Bool) (x y : Reactor) → (if not b then x else y) ≡ (if b then y else x)
if_not true x y = refl
if_not false x y = refl

minus_one : (n : ℕ) → (if ltb 0 (suc n) then suc n - 1 else suc n) ≡ n
minus_one n = ground arith

-- The state with the counter of `child` at `n`, and `child` enqueued if that is zero.
lowered : ℕ → ℕ → Reactor → Reactor
lowered child n s =
    let s' = record s { pending = HashMap.insert s.pending child n } in
    if n == 0 then record s' { ready = s.ready ++ child ∷ [] } else s'

lowered-Released : (child n : ℕ) (s : Reactor) → Released child n s (lowered child n s)
unfolding lowered
lowered-Released child n s = elim (Bool-cases (n == 0)) [
  | inl zero' ↦ rw zero' (record {
    at = λ j. get-insert s.pending child j n;
    queued = λ a. ground (arith, count-append a s.ready (child ∷ []), zero');
    kept = λ k h. h;
  })
  | inr more ↦ rw more (record {
    at = λ j. get-insert s.pending child j n;
    queued = λ a. ground (arith, more);
    kept = λ k h. h;
  })
]

get_or-insert : (m : HashMap ℕ) (k v d : ℕ) → HashMap.get_or (HashMap.insert m k v) k d ≡ v
unfolding HashMap.get_or
get_or-insert m k v d = ground (arith, get-insert m k k v)

usize_sub_one : (n : ℕ) → n < edge_limit → usize_sub (suc n) 1 ≡ n
unfolding edge_limit
usize_sub_one n h = omega arith

decrement-suc :
    (idx n : ℕ) (p : HashMap ℕ)
    → HashMap.get p idx ≡ some (suc n)
    → decrement idx p ≡ HashMap.insert p idx n
unfolding decrement
decrement-suc idx n p h =
    let e : suc n - 1 ≡ n = omega arith in rw (h, decrement) (rw e (ground arith))

module _ {e : Engine} (plain : IsPlain e) where
  early_ready-plain : (c : ℕ) (p : HashMap ℕ) → apply_fan_in_early_ready e c p ≡ p
  unfolding apply_fan_in_early_ready
  early_ready-plain c p = elim (Option-cases (fan_in_of e (node_kind e (e.graph.weight c)))) [
    | inl other ↦ rw (other, apply_fan_in_early_ready)
    | inr (mode, join) ↦
        let (expr, kind) = fan_in_of-some e (node_kind e (e.graph.weight c)) mode join in
        let waits : mode ≡ all = plain.joins c mode expr kind in
        rw (join, apply_fan_in_early_ready) (rw waits refl)
  ]

  no_error_edge : (p c : ℕ) → has_error_edge e p c ≡ false
  unfolding has_error_edge
  no_error_edge p c = any-is_error_edge (e.graph.edges_connecting p c) (plain.edges p c)

  no_condition : (v : Value) (p c : ℕ) → condition_failed e v p c ≡ false
  unfolding condition_failed
  no_condition v p c = any-edge_blocks e v (e.graph.edges_connecting p c) (plain.edges p c)

  pub success_child-Releases :
      (finished : ℕ) (output : Value) → Releases (success_child e finished output)
  unfolding success_child lowered
  success_child-Releases finished output child n s h small = rw same (lowered-Released child n s)
    where
      same : success_child e finished output child s ≡ lowered child n s
      same =
          rw (no_error_edge finished child, h, success_child)
            (rw (usize_sub_one n small, early_ready-plain child (HashMap.insert s.pending child n))
              (rw (get_or-insert s.pending child n 1, no_condition output finished child)
                (if_not (n == 0) _ _)))

pub continue_child-Releases : (e : Engine) → Releases (continue_child e)
unfolding continue_child lowered
continue_child-Releases e child n s h small = rw same (lowered-Released child n s)
  where
    same : continue_child e child s ≡ lowered child n s
    same =
        rw (h, continue_child)
          (rw (decrement-suc child n s.pending h)
            (rw (get_or-insert s.pending child n 1, push_if_released) refl))

pub unblock_successor-Releases : (e : Engine) → Releases (unblock_successor e)
unfolding unblock_successor lowered
unblock_successor-Releases e child n s h small = rw same (lowered-Released child n s)
  where
    same : unblock_successor e child s ≡ lowered child n s
    same =
        rw (h, unblock_successor) (rw (decrement-suc child n s.pending h) (rw (minus_one n) refl))
