-- ===== src/Samples/Checks.antt =====
-- A verify node whose condition does not hold for its input.
use talos_workflow_engine.Base.{◌≡◌, refl, true, false, none, some, [], ◌∷◌}
use talos_workflow_engine.Base.HashMap
use talos_workflow_engine.Base.HashMap.{HashMap}
use talos_workflow_engine.Base.Result.{ok}
use talos_workflow_engine.Base.Json.{Value, bool, string, object, entry, empty, get_key}
use talos_workflow_engine.Engine.{Engine, Reactor, verify, eval_bool}
use talos_workflow_engine.Inputs.{unwrap_output}
use talos_workflow_engine.Handlers.Checks.{try_dispatch_verify}
use talos_workflow_engine.Samples.{engine_of, externals, triangle}

abbrev checking : Engine
checking = record (engine_of triangle) {
  node_meta =
      (
        101,
        record {
          module_id = none;
          retry_policy = none;
          kind = some (verify "is_final" none "passthrough");
        },
      )
      ∷ [];
  externals = record externals { eval_bool = some (λ expression context. false) };
}

abbrev draft : Value
draft = object (entry "title" (string "report") empty)

abbrev running : Reactor
running = record {
  results = (100, draft) ∷ [];
  pending = [];
  ready = [];
  events = [];
  hooks = [];
  prefetch_cache = [];
}

-- The draft is handed on with the four marks.
hands_on :
    (try_dispatch_verify checking 1 101 5 running).0
    ≡ some (
        ok (
          object (
            entry "title" (string "report") (
              entry "__verified__" (bool false) (
                entry "__verification_failed__" (bool true) (
                  entry "__check_label__"
                    (string "output quality")
                    (entry "__verification_condition__" (string "is_final") empty)))))))
unfolding try_dispatch_verify HashMap.get get_key unwrap_output
hands_on = refl
