-- ===== src/Document/Changes.antt =====
-- What the `with_` calls of talos-workflow-engine/src/graph_builder.rs change, and what
-- `read_node_retry_policy_with_actor_cap` of graph_parser.rs reads afterwards.
use mathlib.Core.Option
use text.Mathlib.Text.{◌==◌}
use talos_workflow_engine.Base.{
  ℕ, ◌<◌, ◌^◌, min, String, ◌≡◌, refl, ap, ◌⊎◌, inl, inr, true, false, Option, none, some, List, [],
  ◌∷◌, ◌++◌, All, Bool-cases, arith, if◌then◌else◌,
}
use talos_workflow_engine.Base.Options.{◌>>=◌, or_else}
use talos_workflow_engine.Base.Json.{
  Value, Map, null, bool, number, string, array, object, get, get_key, as_str, get_key-insert_key,
}
use talos_workflow_engine.Engine.{RetryPolicy}
use talos_workflow_engine.Document.{as_u32-small, str_at}
use talos_workflow_engine.Document.Writer.{num}
use talos_workflow_engine.Document.Builder.{
  WorkflowGraphBuilder, unknown_node_id, has_id, change_map, change_node, with_change, with_retry,
  insert_retry, insert_optional,
}
use talos_workflow_engine.Document.Retries.{field_of, read_node_retry_policy_with_actor_cap}

-- The first node with an id, and the nodes before and after it.
pub record Located (id : String) (nodes : List Value) : Type 0 where
  pub before : List Value
  pub fields : Map
  pub after : List Value
  pub split : nodes ≡ before ++ object fields ∷ after
  pub first : All (λ n. has_id id n ≡ false) before
  pub there : has_id id (object fields) ≡ true

module _ (id : String) where
  object_of : (v : Value) → has_id id v ≡ true → (m : Map) × (v ≡ object m)
  unfolding has_id str_at get
  object_of null h = cc
  object_of (bool b) h = cc
  object_of (number n) h = cc
  object_of (string s) h = cc
  object_of (array vs) h = cc
  object_of (object m) h = (m, refl)

  change_node-cases :
      (f : Map → Map) (nodes : List Value)
      → (All (λ n. has_id id n ≡ false) nodes × (change_node id f nodes ≡ none))
        ⊎ ((w : Located id nodes) × (change_node id f nodes
              ≡ some (w.before ++ object (f w.fields) ∷ w.after)))
  unfolding change_node
  change_node-cases f [] = inl (tt, refl)
  change_node-cases f (node ∷ nodes) = elim (Bool-cases (has_id id node)) [
    | inl here ↦
        let (m, is_object) = object_of node here in
        inr (
          record {
            before = [];
            fields = m;
            after = nodes;
            split = ap (λ v. v ∷ nodes) is_object;
            first = tt;
            there = rw is_object at here;
          },
          rw (here, change_node) (ap (λ v. some (change_map f v ∷ nodes)) is_object),
        )
    | inr other ↦ elim (change_node-cases f nodes) [
      | inl (absent, none') ↦ inl ((other, absent), rw (other, none', change_node) refl)
      | inr (w, some') ↦ inr (
        record {
          before = node ∷ w.before;
          fields = w.fields;
          after = w.after;
          split = ap (λ l. node ∷ l) w.split;
          first = (other, w.first);
          there = w.there;
        },
        rw (other, some', change_node) refl,
      )
    ]
  ]

get_key-insert_optional :
    (m : Map) (k : String) (o : Option String) (j : String)
    → get_key (insert_optional m k o) j
      ≡ (if k == j then or_else (Option.map string o) (get_key m j) else get_key m j)
unfolding insert_optional
get_key-insert_optional m k none j = ground arith
get_key-insert_optional m k (some s) j = rw (get_key-insert_key m k j (string s)) refl

module _ (m : Map) (max_retries backoff_ms : ℕ) (condition delay_expression : Option String) where
  abbrev node_after : Value
  node_after = object (insert_retry m max_retries backoff_ms condition delay_expression)

  -- The fields of the node after `with_retry`.
  record Reads : Type 0 where
    pub count : get node_after "retry_count" ≡ some (num max_retries)
    pub backoff : get node_after "retry_backoff_ms" ≡ some (num backoff_ms)
    pub same_data : get node_after "data" ≡ get (object m) "data"
    pub condition_field :
        get node_after "retry_condition"
        ≡ or_else (Option.map string condition) (get (object m) "retry_condition")
    pub delay_field :
        get node_after "retry_delay_expression"
        ≡ or_else (Option.map string delay_expression) (get (object m) "retry_delay_expression")

  insert_retry-Reads : Reads
  unfolding insert_retry get
  insert_retry-Reads = record {
    count = simp (get_key-insert_key, get_key-insert_optional);
    backoff = simp (get_key-insert_key, get_key-insert_optional);
    same_data = simp (get_key-insert_key, get_key-insert_optional);
    condition_field = simp (get_key-insert_key, get_key-insert_optional);
    delay_field = simp (get_key-insert_key, get_key-insert_optional);
  }

  -- The retries of a policy, of which an execution without an actor has three at most.
  abbrev pub allowed : Option ℕ → ℕ
  allowed none = min max_retries 3
  allowed (some actor) = max_retries

  -- An expression that the call leaves out stays as it was.
  abbrev pub kept : String → Option String → Option String
  kept k o = or_else o (field_of (object m) k >>= as_str)

  field_of-kept :
      (k : String) (o : Option String)
      → get node_after k ≡ or_else (Option.map string o) (get (object m) k)
      → (field_of node_after k >>= as_str) ≡ kept k o
  unfolding field_of as_str
  field_of-kept k none h = rw (h, insert_retry-Reads.same_data, field_of) refl
  field_of-kept k (some s) h = rw (h, field_of) refl

  -- The policy that is read after the call.
  abbrev pub policy : Option ℕ → RetryPolicy
  policy actor_id = record {
    max_retries = allowed actor_id;
    backoff_ms = backoff_ms;
    retry_condition = kept "retry_condition" condition;
    retry_delay_expression = kept "retry_delay_expression" delay_expression;
  }

  field_of-count : field_of node_after "retry_count" ≡ some (num max_retries)
  unfolding field_of
  field_of-count = rw (insert_retry-Reads.count, field_of) refl

  field_of-backoff : field_of node_after "retry_backoff_ms" ≡ some (num backoff_ms)
  unfolding field_of
  field_of-backoff = rw (insert_retry-Reads.backoff, field_of) refl

  read-insert_retry :
      (actor_id : Option ℕ)
      → max_retries < 2 ^ 32
      → read_node_retry_policy_with_actor_cap node_after actor_id ≡ some (policy actor_id)
  unfolding read_node_retry_policy_with_actor_cap
  read-insert_retry none small =
      rw (field_of-count, field_of-backoff)
        (rw
          (
            as_u32-small max_retries small,
            field_of-kept "retry_condition" condition insert_retry-Reads.condition_field,
            field_of-kept "retry_delay_expression" delay_expression insert_retry-Reads.delay_field,
          )
          refl)
  read-insert_retry (some actor) small =
      rw (field_of-count, field_of-backoff)
        (rw
          (
            as_u32-small max_retries small,
            field_of-kept "retry_condition" condition insert_retry-Reads.condition_field,
            field_of-kept "retry_delay_expression" delay_expression insert_retry-Reads.delay_field,
          )
          refl)

-- A call of `with_retry` either finds no node with the id, records this one error and changes nothing
-- else; or it changes the first node with the id and nothing else, and the policy that is read from
-- this node afterwards is the one of the call: with at most three retries where no actor owns the
-- execution, and with the expressions that were there where the call leaves them out.
pub with_retry-cases :
    (b : WorkflowGraphBuilder) (id : String) (max_retries backoff_ms : ℕ)
    (condition delay_expression : Option String) (actor_id : Option ℕ)
    → max_retries < 2 ^ 32
    → (All (λ n. has_id id n ≡ false) b.nodes
        × (with_retry b id max_retries backoff_ms condition delay_expression
            ≡ record b { errors = b.errors ++ unknown_node_id id "with_retry" ∷ [] }))
      ⊎ ((w : Located id b.nodes) × (m : Map) × (with_retry b id max_retries backoff_ms condition
              delay_expression
            ≡ record b { nodes = w.before ++ object m ∷ w.after })
          × (read_node_retry_policy_with_actor_cap (object m) actor_id
              ≡ some (policy w.fields max_retries backoff_ms condition delay_expression actor_id)))
unfolding with_retry
with_retry-cases b id max_retries backoff_ms condition delay_expression actor_id small =
    let f = λ (m : Map). insert_retry m max_retries backoff_ms condition delay_expression in
    elim (change_node-cases id f b.nodes) [
      | inl (absent, none') ↦ inl (absent, rw (none', with_retry, with_change) refl)
      | inr (w, some') ↦ inr (
        w,
        f w.fields,
        rw (some', with_retry, with_change) refl,
        read-insert_retry w.fields max_retries backoff_ms condition delay_expression actor_id small,
      )
    ]
