-- ===== src/Samples/Jobs.antt =====
-- A chain of jobs with a dispatcher that counts its calls.
use talos_workflow_engine.Base.{ℕ, ◌+◌, ◌==◌, List, [], ◌∷◌, ◌⊎◌, if◌then◌else◌}
use talos_workflow_engine.Base.Json.{null, bool}
use talos_workflow_engine.Base.{true}
use talos_workflow_engine.Dispatch.{
  DispatchJob, output_of, error_of, Answer, dispatch_chain_sequential,
}
use talos_workflow_engine.Dispatch.Sequence.{Finished, Stopped, dispatch_chain_sequential-cases}

abbrev job : ℕ → DispatchJob ℕ
job n = record { module_id = n; fields = n }

-- Module 2 fails.
abbrev dispatch : DispatchJob ℕ → ℕ → Answer ℕ
dispatch j calls = record {
  dispatched = if j.module_id == 2 then error_of "trap" else output_of (bool true);
  elapsed_ms = 10;
  world = calls + 1;
}

abbrev jobs : List (DispatchJob ℕ)
jobs = job 1 ∷ job 2 ∷ job 3 ∷ []

dispatch_chain_sequential-cases_example :
    Finished dispatch null jobs 0 [] (dispatch_chain_sequential dispatch jobs 0)
    ⊎ Stopped dispatch null jobs 0 [] (dispatch_chain_sequential dispatch jobs 0)
dispatch_chain_sequential-cases_example = dispatch_chain_sequential-cases dispatch jobs 0
