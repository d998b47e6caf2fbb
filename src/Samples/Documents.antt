-- ===== src/Samples/Documents.antt =====
-- A graph document and the crates that it is read with.
use Prim.Native.Char.{code}
use Prim.Native.String.{String, ◌++◌ as text_append}
use text.Mathlib.Text.{◌==◌ as str_eq}
use text.Mathlib.TextLemmas.{cons-append}
use mathlib.Core.Option
use talos_workflow_engine.Base.{
  ℕ, zero, suc, ◌≤◌, ◌≡◌, ◌≢◌, refl, true, false, ◌⊎◌, Option, none, some, [], ◌∷◌, ◌++◌, ◌==◌, All,
  arith, if◌then◌else◌, length,
}
use talos_workflow_engine.Base.HashMap
use talos_workflow_engine.Base.Options.{unwrap_or}
use talos_workflow_engine.Base.Json.{
  get_key, Map, Value, Number, number, string, object, empty, entry, get,
}
use talos_workflow_engine.Graph.{IsDiGraph, edge_limit}
use talos_workflow_engine.Engine.{JoinMode, loop, fan_in}
use talos_workflow_engine.Document.{Libraries, IsFaithful}
use talos_workflow_engine.Document.Kinds.{parse_system_node_kind}
use talos_workflow_engine.Document.Limits.{parse_system_node_kind-WithinLimits}
use talos_workflow_engine.Document.Writer.{num, kind_text, kind_data}
use talos_workflow_engine.Document.Builder.{
  WorkflowGraphBuilder, new, assemble_root, add_system_node, add_module, edge, build, Built,
  with_retry, unknown_node_id, has_id, build_error,
}
use talos_workflow_engine.Document.Changes.{Located, policy, with_retry-cases}
use talos_workflow_engine.Document.Counts.{validate_value-build, Summarises}
use talos_workflow_engine.Document.Validate.{GraphSummary, Validated, validate_value}
use talos_workflow_engine.Document.Retries.{read_node_retry_policy_with_actor_cap}
use talos_workflow_engine.Loader.{Loading, Progress, parse_graph_document, load_node, listed}
use talos_workflow_engine.Loader.WellFormed.{IsWellFormed, parse_graph_document-IsWellFormed}
use talos_workflow_engine.Loader.Loaded.{digraph_of, parse_graph_document-IsDiGraph}
use talos_workflow_engine.Loader.RoundTrip.{registered, load_node-add_system_node}

-- The UUID `u` is written as `u` letters.
uuid_text : ℕ → String
uuid_text zero = ""
uuid_text (suc u) = String.◌∷◌ "x" (uuid_text u)

parse_uuid : String → Option ℕ
parse_uuid String.[] = some 0
parse_uuid (String.◌∷◌ c s) =
    let rest = Option.map suc (parse_uuid s) in if code c == 120 then rest else none

parse_uuid-uuid_text : (u : ℕ) → parse_uuid (uuid_text u) ≡ some u
unfolding parse_uuid uuid_text
parse_uuid-uuid_text zero = refl
parse_uuid-uuid_text (suc u) = rw (parse_uuid-uuid_text u) refl

parse_uuid-system : (k : String) → parse_uuid (text_append "system:" k) ≡ none
unfolding parse_uuid
parse_uuid-system k = rw (cons-append "s" "ystem:" k) refl

join_to_value : JoinMode → Value
join_to_value JoinMode.all = string "All"
join_to_value JoinMode.any = string "Any"
join_to_value JoinMode.majority = string "Majority"
join_to_value (JoinMode.n_of n) = object (entry "N" (num n) empty)

join_from_value : Value → Option JoinMode
join_from_value (string s) =
    if str_eq s "All"
    then some JoinMode.all
    else if str_eq s "Any"
    then some JoinMode.any
    else some JoinMode.majority
join_from_value (object (entry k (number (Number.pos_int n)) empty)) = some (JoinMode.n_of n)
join_from_value _ = none

join_round : (mode : JoinMode) → join_from_value (join_to_value mode) ≡ some mode
unfolding join_from_value join_to_value
join_round JoinMode.all = refl
join_round JoinMode.any = refl
join_round JoinMode.majority = refl
join_round (JoinMode.n_of n) = refl

as_f64 : Value → Option ℕ
as_f64 (number (Number.float x)) = some x
as_f64 _ = none

abbrev libraries : Libraries
libraries = record {
  parse_uuid = parse_uuid;
  uuid_text = uuid_text;
  join_to_value = join_to_value;
  join_from_value = join_from_value;
  f64_to_value = λ x. number (Number.float x);
  as_f64 = as_f64;
  is_finite = λ x. true;
  clamp_unit = λ x. x;
  hash_uuid = λ s. if str_eq s "a" then 100 else 101;
  decimal = λ n. "n";
  llm_primitives = true;
}

libraries-IsFaithful : IsFaithful libraries
unfolding as_f64
libraries-IsFaithful = record {
  parse_uuid-uuid_text = parse_uuid-uuid_text;
  join_from_value-join_to_value = join_round;
  as_f64-f64_to_value = λ x h. refl;
  parse_uuid-system = parse_uuid-system;
  as_f64-null = refl;
}

-- A module that leads to a loop.
abbrev two_nodes : WorkflowGraphBuilder
two_nodes =
    edge (add_system_node libraries (add_module libraries new "a" 3 none) "b" (loop 5 "go")) "a" "b"

-- A loop of 500 rounds is read as one of 100.
abbrev long_loop : Value
long_loop = object (entry "data" (kind_data libraries (loop 500 "go")) empty)

long_loop-clamped : parse_system_node_kind libraries "loop" long_loop ≡ some (loop 100 "go")
unfolding parse_system_node_kind kind_data get get_key
long_loop-clamped = refl

parse_system_node_kind-WithinLimits_example : (100 ≤ 100) × (◌≡◌ {A = String} "loop" "loop")
unfolding kind_text
parse_system_node_kind-WithinLimits_example =
    parse_system_node_kind-WithinLimits "loop" libraries long_loop (loop 100 "go") long_loop-clamped

abbrev empty_engine : Loading
empty_engine = record {
  nodes = [];
  edges = [];
  node_map = [];
  node_meta = [];
  node_labels = [];
  node_configs = [];
  node_timeouts = [];
  execution_timeout_secs = 300;
  max_workflow_nodes = 10;
  actor_id = none;
}

empty_engine-IsWellFormed : IsWellFormed empty_engine
unfolding HashMap.get
empty_engine-IsWellFormed = record {
  placed = λ u i h. cc;
  described = λ u i h. cc;
  joined = tt;
  capped = omega arith;
}

abbrev document : Value
document = assemble_root two_nodes.nodes two_nodes.edges none

-- Both nodes and the edge between them are taken in.
abbrev loaded : Loading
loaded = unwrap_or (parse_graph_document libraries document empty_engine) empty_engine

loads : parse_graph_document libraries document empty_engine ≡ some loaded
unfolding parse_graph_document assemble_root edge add_system_node add_module
loads = refl

loaded_edges : length loaded.edges ≡ 1
unfolding parse_graph_document assemble_root edge add_system_node add_module parse_uuid uuid_text
    HashMap.get HashMap.insert
loaded_edges = refl

parse_graph_document-IsWellFormed_example :
    ((listed libraries document "nodes" ≡ [])
      × (parse_graph_document libraries document empty_engine ≡ none))
    ⊎ ((listed libraries document "nodes" ≢ [])
        × (t : Loading) × (parse_graph_document libraries document empty_engine ≡ some t)
        × IsWellFormed t)
parse_graph_document-IsWellFormed_example =
    parse_graph_document-IsWellFormed libraries document empty_engine empty_engine-IsWellFormed

parse_graph_document-IsDiGraph_example : IsDiGraph (digraph_of loaded)
unfolding edge_limit
parse_graph_document-IsDiGraph_example =
    parse_graph_document-IsDiGraph libraries document empty_engine empty_engine-IsWellFormed loads
      (omega (arith, loaded_edges))

abbrev nothing_yet : Progress
nothing_yet = record { engine = empty_engine; ids = [] }

load_node-add_system_node_example :
    (node : Value) × ((add_system_node libraries two_nodes "c" (fan_in JoinMode.any none)).nodes
      ≡ two_nodes.nodes ++ node ∷ [])
    × (load_node libraries node nothing_yet
        ≡ registered libraries "c" (fan_in JoinMode.any none) nothing_yet)
load_node-add_system_node_example =
    load_node-add_system_node libraries libraries-IsFaithful "c" (fan_in JoinMode.any none)
      two_nodes nothing_yet tt tt tt

with_retry-cases_example :
    (All (λ n. has_id "a" n ≡ false) two_nodes.nodes
      × (with_retry two_nodes "a" 5 200 none none ≡ record two_nodes {
        errors = two_nodes.errors ++ unknown_node_id "a" "with_retry" ∷ [];
      }))
    ⊎ ((w : Located "a" two_nodes.nodes) × (m : Map) × (with_retry two_nodes "a" 5 200 none none
          ≡ record two_nodes { nodes = w.before ++ object m ∷ w.after })
        × (read_node_retry_policy_with_actor_cap (object m) none
            ≡ some (policy w.fields 5 200 none none none)))
with_retry-cases_example = with_retry-cases two_nodes "a" 5 200 none none none (omega arith)

validate_value-build_example :
    ((two_nodes.errors ≢ []) × (build two_nodes ≡ build_error two_nodes.errors))
    ⊎ ((doc : Value) × (s : GraphSummary) × (two_nodes.errors ≡ [])
        × (build two_nodes ≡ Built.ok doc)
        × (validate_value libraries doc ≡ Validated.ok s)
        × Summarises libraries two_nodes.nodes two_nodes.edges two_nodes.execution_timeout_secs s)
validate_value-build_example = validate_value-build libraries two_nodes
