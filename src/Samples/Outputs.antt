-- ===== src/Samples/Outputs.antt =====
-- Outputs of nodes, short and too long to be cut.
use Prim.Native.String.{◌++◌}
use talos_workflow_engine.Base.{String, ◌≡◌, refl, none, some, inl, arith}
use talos_workflow_engine.Base.Json.{Value, string, object, empty, entry}
use talos_workflow_engine.Sanitize.{
  sanitize_node_output, Within, sanitize_node_output-Within, sanitize_node_output-panics,
}

abbrev greeting : Value
greeting = object (entry "text" (string "hello") empty)

sanitize_node_output-Within_example :
    (w : Value) × (sanitize_node_output greeting ≡ some w) × Within 10264 w
sanitize_node_output-Within_example =
    sanitize_node_output-Within greeting ((λ h. absurd (omega arith)), tt)

twice : String → String
twice s = s ++ s

-- 6144 characters of two bytes each, behind one of one byte.
accents : String
unfolding twice
accents =
    "a"
    ++ twice (twice (twice (twice (twice (twice (twice (twice (twice (twice (twice "ééé"))))))))))

sanitize_node_output-panics_example :
    sanitize_node_output (object (entry "text" (string accents) empty)) ≡ none
unfolding accents
sanitize_node_output-panics_example =
    sanitize_node_output-panics (entry "text" (string accents) empty) (inl (omega arith, refl))
