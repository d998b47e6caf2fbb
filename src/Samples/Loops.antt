-- ===== src/Samples/Loops.antt =====
-- A while node whose condition holds for one kind of input only.
use talos_workflow_engine.Base.{ℕ, ◌≡◌, refl, true, false, Bool, String, none, some, [], ◌∷◌}
use talos_workflow_engine.Base.HashMap
use talos_workflow_engine.Base.HashMap.{HashMap}
use talos_workflow_engine.Base.Json.{Value, string}
use talos_workflow_engine.Engine.{Engine, while_loop, node_kind}
use talos_workflow_engine.Inputs.{gather_inputs}
use talos_workflow_engine.Handlers.{Rounds, while_output, try_dispatch_while_loop}
use talos_workflow_engine.Handlers.WhileLoop.{EndsAfter, try_dispatch_while_loop-EndsAfter}
use talos_workflow_engine.Samples.{engine_of, externals, triangle}

is_text : String → Value → Bool
is_text condition (string s) = true
is_text condition _ = false

abbrev looping : Engine
looping = record (engine_of triangle) {
  node_meta =
      (101, record { module_id = none; retry_policy = none; kind = some (while_loop "is_text" 3) })
      ∷ [];
  externals = record externals { eval_bool = some is_text };
}

try_dispatch_while_loop-EndsAfter_example :
    (n : ℕ) × (r : Rounds) × (try_dispatch_while_loop looping 1 101 ((100, string "page") ∷ [])
      ≡ some (while_output looping r))
    × EndsAfter looping "is_text" (gather_inputs looping ((100, string "page") ∷ []) 1) n 3 r
unfolding node_kind HashMap.get
try_dispatch_while_loop-EndsAfter_example =
    try_dispatch_while_loop-EndsAfter looping 1 101 3 "is_text" ((100, string "page") ∷ []) refl
