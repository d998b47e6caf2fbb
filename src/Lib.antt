-- ===== src/Lib.antt =====
-- A verification library for talos-workflow-engine: the scheduler that runs a workflow graph, and what
-- it does with the outputs and errors of the nodes.
--
-- The parts and their files (source paths are from the repository's root):
--   * Base.antt and its children: lists counted by native numbers, hash maps keyed by node indices and
--     UUIDs (both numbers here), serde_json values, text cut at a byte offset.
--   * Graph.antt: petgraph's DiGraph as an interface, with the laws that petgraph documents, and
--     EdgeLogic of talos-workflow-engine-core/src/edge.rs. Graph/Edges.antt gives a concrete graph.
--   * Chain.antt and its children: detect_linear_chains of talos-workflow-engine/src/chain_detect.rs.
--     The loop that expands a chain start runs on fuel, one more than the number of nodes, which is
--     enough because a chain does not come back to a node.
--   * Engine.antt: the node kinds (talos-workflow-engine-core/src/system_node.rs), the fields of
--     ParallelWorkflowEngine that the reactor reads, and apply_fan_in_early_ready
--     (talos-workflow-engine/src/engine.rs). A Reactor is what the loop mutates: results, pending
--     counters, the ready queue, the events and hook calls made, and the keys of the prefetch cache.
--   * Sanitize.antt: sanitize_node_output of talos-workflow-engine/src/validation.rs; the result none
--     is a panic.
--   * Inputs.antt: unwrap_output, gather_inputs, aggregate_fan_in, collect_parent_outputs_for_node and
--     extract_trigger_input of talos-workflow-engine/src/engine.rs.
--   * Completion.antt and Completion/Failure.antt: handle_node_success, handle_node_failure,
--     handle_completed_future and route_system_node_output of
--     talos-workflow-engine/src/engine_completion.rs, and unblock_successors of
--     talos-workflow-engine/src/scheduler_handlers.rs. An Outcome is that the loop goes on, returns an
--     error, or panics.
--   * Scheduler.antt and its children: run_scheduler_loop of talos-workflow-engine/src/engine.rs. Its
--     in-degree counters, seeding and first queue are functions; its turns are a step relation, which
--     leaves open which ready node is taken, what its handler decides and which task finishes with
--     which result, so that every run is a sequence of steps. Scheduler/Plain.antt describes the plain
--     graphs of the run theorems: no error edges, no conditions, and fan-in nodes that wait for all.
--   * Handlers.antt and Handlers/WhileLoop.antt: the while, repeat and wait handlers of
--     talos-workflow-engine/src/scheduler_handlers.rs. The while loop runs on the rounds it has left. Checks.antt has the verify,
--     collect, synthesize and error handlers and the skip conditions, Verified.antt the verify node.
--     Gate.antt and Gated.antt have the confidence gate; the answer of the approval gate is an argument.
--     Judge.antt and Judged.antt have the inline judge, Judge.antt the fan-in handler too. Marks.antt has
--     how the marks that these handlers leave in a value are read.
--   * Retry.antt and Retry/Attempts.antt: dispatch_with_retry of
--     talos-workflow-engine-nats/src/dispatcher.rs, over a transport with its own state. The loop runs on
--     fuel, one more than max_retries, which is enough for every max_retries but the largest u32: it
--     gives up when the retries are used up. With the largest, the u32 counter wraps and never exceeds it.
--   * Jobs.antt and its children: execute_job_with_retry and resign_payload_for_retry of the same file.
--     round is one round of the loop, Attempts.antt has what it comes to and Ends.antt the loop, on the
--     same fuel. The process's nonce cache is part of the state, since accepting a result records its
--     nonce; a spawned event is a list entry.
--   * Dispatch.antt and Dispatch/Sequence.antt: dispatch_chain_sequential of
--     talos-workflow-engine-core/src/dispatcher.rs, over a dispatcher with its own state.
--   * Document.antt and its children: graph documents. Kinds.antt and Retries.antt have
--     parse_system_node_kind and the retry policies of talos-workflow-engine/src/graph_parser.rs, Writer.antt
--     and Builder.antt the serializer and WorkflowGraphBuilder of graph_builder.rs, and Validate.antt
--     validate_value of graph_json.rs; Limits.antt, RoundTrip.antt, Changes.antt and Counts.antt prove what
--     holds of them. The uuid crate, serde's form of a join mode and floats are parameters.
--   * Loader.antt and its children: parse_graph_document, add_node, add_edge and (Trigger.antt)
--     ensure_trigger_node_wired_to_roots, whose panic is `none`, of
--     talos-workflow-engine/src/engine.rs. Wired.antt, Roots.antt and Fed.antt have which edges the
--     trigger gets. An index is a node's place in the list of nodes, and the newest
--     edge comes first.
--   * Secrets.antt and Secrets/Replaced.antt: talos-workflow-engine/src/vault_resolver.rs.
--   * Protocol.antt and its children: talos-workflow-job-protocol/src/lib.rs. Nonce.antt has the nonce
--     cache and Verify.antt JobRequest::verify, in which the bytes that are signed are a field of the
--     message; the hex and hmac libraries are parameters, and the clock is an argument of each call.
--     Results.antt and Once.antt have the same calls of JobResult, its verification without the replay
--     check, and its signed bytes. Signing.antt and Bound.antt have the bytes of a request,
--     signing_payload and sign, over texts as lists of bytes.
--     Vault.antt and Providers.antt have the rules on vault paths and on the hosts of model providers.
--   * Samples.antt and its children: concrete graphs and runs, on which the theorems are applied.
--
-- usize arithmetic wraps around as in a release build where the source subtracts without a guard, and
-- edges are fewer than 2^32, petgraph's limit. UUIDs and floats are numbers. serde_json's serializer,
-- the expression evaluator and the sanitizers are parameters.
--
-- Not modelled: the turns that dispatch a chain as a pipeline, so the run theorems are for runs
-- without chains, as a resumed run is and a fresh one in which the detector keeps none; the
-- node-kind handlers that run child workflows, the dispatch of a single node and of a pipeline, the
-- messages of the job protocol other than a job's request and result, timeouts and cancellation.
pub mod Base
pub mod Graph
pub mod Chain
pub mod Engine
pub mod Sanitize
pub mod Inputs
pub mod Completion
pub mod Scheduler
pub mod Protocol
pub mod Handlers
pub mod Retry
pub mod Jobs
pub mod Dispatch
pub mod Document
pub mod Loader
pub mod Secrets
pub mod Samples
