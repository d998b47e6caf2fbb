-- ===== src/Document/Retries.antt =====
-- `read_node_retry_policy` and its cap for executions without an actor, of
-- talos-workflow-engine/src/graph_parser.rs.
use talos_workflow_engine.Base.{ℕ, min, String, ◌||◌, Option, none, some, if◌then◌else◌}
use mathlib.Core.Option
use talos_workflow_engine.Base.Options.{◌>>=◌, unwrap_or, or_else, is_some}
use talos_workflow_engine.Base.Json.{Value, get, as_str, as_u64}
use talos_workflow_engine.Engine.{RetryPolicy}
use talos_workflow_engine.Document.{as_u32}

-- A field of the node itself, or else of its `data`.
unfoldable pub field_of : Value → String → Option Value
unfolding get
field_of node k = or_else (get node k) (get node "data" >>= λ d. get d k)

unfoldable pub read_node_retry_policy : Value → Option RetryPolicy
unfolding as_u64
read_node_retry_policy node =
    let retry_count = Option.map as_u32 (field_of node "retry_count" >>= as_u64) in
    let retry_backoff = field_of node "retry_backoff_ms" >>= as_u64 in
    let retry_condition = field_of node "retry_condition" >>= as_str in
    let retry_delay_expression = field_of node "retry_delay_expression" >>= as_str in
    let has_any =
      is_some retry_count
      || is_some retry_backoff
      || is_some retry_condition
      || is_some retry_delay_expression in
    if has_any
    then some (record {
      max_retries = unwrap_or retry_count 2;
      backoff_ms = unwrap_or retry_backoff 500;
      retry_condition = retry_condition;
      retry_delay_expression = retry_delay_expression;
    })
    else none

abbrev max_retries_unbudgeted : ℕ
max_retries_unbudgeted = 3

unfoldable pub cap_retries : Option ℕ → RetryPolicy → RetryPolicy
cap_retries none policy = record policy {
  max_retries = min policy.max_retries max_retries_unbudgeted;
}
cap_retries (some actor) policy = policy

unfoldable pub read_node_retry_policy_with_actor_cap : Value → Option ℕ → Option RetryPolicy
unfolding read_node_retry_policy cap_retries
read_node_retry_policy_with_actor_cap node actor_id =
    Option.map (cap_retries actor_id) (read_node_retry_policy node)
