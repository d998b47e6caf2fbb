-- ===== src/Dispatch.antt =====
-- `dispatch_chain_sequential` of talos-workflow-engine-core/src/dispatcher.rs: a chain of jobs, one
-- after the other, up to the first that fails.
pub mod Sequence
use talos_workflow_engine.Base.{
  ℕ, String, Option, none, some, List, [], ◌∷◌, ◌++◌, ltb, if◌then◌else◌,
}
use talos_workflow_engine.Base.Json.{Value, null}
use talos_workflow_engine.Protocol.Nonce.{u64_max}

-- A job; the helper reads only the module of it, and hands the other fields on.
pub record DispatchJob (F : Type 0) : Type 0 where
  pub module_id : ℕ
  pub fields : F

pub data StepStatus : Type 0 where
  success timed_out failed : StepStatus

pub record ChainStepResult : Type 0 where
  pub module_id : ℕ
  pub status : StepStatus
  pub output : Value
  pub error : Option String
  pub execution_time_ms : ℕ

pub record ChainDispatchResult : Type 0 where
  pub steps : List ChainStepResult
  pub final_output : Value
  pub overall_status : StepStatus

-- What the dispatcher answers, and how long that took.
pub data Dispatched : Type 0 where
  output_of : Value → Dispatched
  error_of : String → Dispatched

pub record Answer (W : Type 0) : Type 0 where
  pub dispatched : Dispatched
  pub elapsed_ms : ℕ
  pub world : W

-- `u64::try_from(ms).unwrap_or(u64::MAX)`.
unfoldable pub to_u64 : ℕ → ℕ
to_u64 n = if ltb u64_max n then u64_max else n

-- The dispatcher is a trait, with its own state.
module _ {W F : Type 0} (dispatch : DispatchJob F → W → Answer W) where
  unfoldable pub success_step : DispatchJob F → Value → ℕ → ChainStepResult
  unfolding to_u64
  success_step job output ms = record {
    module_id = job.module_id;
    status = success;
    output = output;
    error = none;
    execution_time_ms = to_u64 ms;
  }

  unfoldable pub failed_step : DispatchJob F → String → ℕ → ChainStepResult
  unfolding to_u64
  failed_step job error ms = record {
    module_id = job.module_id;
    status = failed;
    output = null;
    error = some error;
    execution_time_ms = to_u64 ms;
  }

  -- The loop over the jobs, with the steps so far and the last output.
  unfoldable pub chain_loop :
      List (DispatchJob F) → List ChainStepResult → Value → W → ChainDispatchResult × W
  unfolding success_step failed_step
  chain_loop [] steps last_output w =
      (record { steps = steps; final_output = last_output; overall_status = success }, w)
  chain_loop (job ∷ jobs) steps last_output w = elim (dispatch job w).dispatched [
    | output_of out ↦
        chain_loop jobs (steps ++ success_step job out (dispatch job w).elapsed_ms ∷ []) out
          (dispatch job w).world
    | error_of err ↦ (
      record {
        steps = steps ++ failed_step job err (dispatch job w).elapsed_ms ∷ [];
        final_output = null;
        overall_status = failed;
      },
      (dispatch job w).world,
    )
  ]

  unfoldable pub dispatch_chain_sequential : List (DispatchJob F) → W → ChainDispatchResult × W
  unfolding chain_loop
  dispatch_chain_sequential jobs w = chain_loop jobs [] null w
