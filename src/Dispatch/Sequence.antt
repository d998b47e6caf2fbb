-- ===== src/Dispatch/Sequence.antt =====
-- `dispatch_chain_sequential` against a description of a chain that runs up to a failure.
use mathlib.Core.List.{append-nil, append_assoc}
use talos_workflow_engine.Base.{String, ◌≡◌, refl, sym, ap, ◌∙◌, ◌⊎◌, inl, inr, List, [], ◌∷◌, ◌++◌}
use talos_workflow_engine.Base.Json.{Value, null}
use talos_workflow_engine.Dispatch.{
  DispatchJob, success, failed, ChainStepResult, ChainDispatchResult, Dispatched, output_of,
  error_of, Answer, success_step, failed_step, chain_loop, dispatch_chain_sequential,
}

module _ {W F : Type 0} (dispatch : DispatchJob F → W → Answer W) where
  -- Every one of the jobs is dispatched once, in order, each in the state that the one before left, and
  -- succeeds: the steps they make, and the output of the last one, or the given one if there is none.
  pub data AllRan
      : Value → List (DispatchJob F) → W → List ChainStepResult → Value → W → Type 0 where
    no_job : (last : Value) (w : W) → AllRan last [] w [] last w
    one_more :
        {last out : Value} {job : DispatchJob F} {jobs : List (DispatchJob F)} {w w' : W}
        {steps : List ChainStepResult} {final : Value}
        → (dispatch job w).dispatched ≡ output_of out
        → AllRan out jobs (dispatch job w).world steps final w'
        → AllRan last
            (job ∷ jobs)
            w
            (success_step dispatch job out (dispatch job w).elapsed_ms ∷ steps)
            final
            w'

  -- All ran: the result has their steps, behind those of before.
  pub record Finished (given : Value) (jobs : List (DispatchJob F)) (w : W)
      (acc : List ChainStepResult) (r : ChainDispatchResult × W) : Type 0 where
    pub steps : List ChainStepResult
    pub ran : AllRan given jobs w steps r.0.final_output r.1
    pub all_steps : r.0.steps ≡ acc ++ steps
    pub status : r.0.overall_status ≡ success

  -- The jobs before one all succeed, that one fails, and none after it is dispatched.
  pub record Stopped (given : Value) (jobs : List (DispatchJob F)) (w : W)
      (acc : List ChainStepResult) (r : ChainDispatchResult × W) : Type 0 where
    pub before : List (DispatchJob F)
    pub job : DispatchJob F
    pub after : List (DispatchJob F)
    pub reached : W
    pub steps : List ChainStepResult
    pub last : Value
    pub message : String
    pub split : jobs ≡ before ++ job ∷ after
    pub ran : AllRan given before w steps last reached
    pub fails : (dispatch job reached).dispatched ≡ error_of message
    pub all_steps :
        r.0.steps
        ≡ acc ++ (steps ++ failed_step dispatch job message (dispatch job reached).elapsed_ms ∷ [])
    pub no_output : r.0.final_output ≡ null
    pub status : r.0.overall_status ≡ failed
    pub left : r.1 ≡ (dispatch job reached).world

  chain_loop-output :
      (job : DispatchJob F) (jobs : List (DispatchJob F)) (acc : List ChainStepResult)
      (last out : Value) (w : W)
      → (dispatch job w).dispatched ≡ output_of out
      → chain_loop dispatch (job ∷ jobs) acc last w
        ≡ chain_loop dispatch jobs
            (acc ++ success_step dispatch job out (dispatch job w).elapsed_ms ∷ [])
            out
            (dispatch job w).world
  unfolding chain_loop
  chain_loop-output job jobs acc last out w h = rw (h, chain_loop) refl

  chain_loop-error :
      (job : DispatchJob F) (jobs : List (DispatchJob F)) (acc : List ChainStepResult)
      (last : Value) (message : String) (w : W)
      → (dispatch job w).dispatched ≡ error_of message
      → chain_loop dispatch (job ∷ jobs) acc last w ≡ (
        record {
          steps = acc ++ failed_step dispatch job message (dispatch job w).elapsed_ms ∷ [];
          final_output = null;
          overall_status = failed;
        },
        (dispatch job w).world,
      )
  unfolding chain_loop
  chain_loop-error job jobs acc last message w h = rw (h, chain_loop) refl

  Dispatched-cases :
      (d : Dispatched) → ((out : Value) × (d ≡ output_of out)) ⊎ ((m : String) × (d ≡ error_of m))
  Dispatched-cases (output_of out) = inl (out, refl)
  Dispatched-cases (error_of m) = inr (m, refl)

  Finished-cons :
      (job : DispatchJob F) (jobs : List (DispatchJob F)) (acc : List ChainStepResult)
      (given out : Value) (w : W) (r : ChainDispatchResult × W)
      → (dispatch job w).dispatched ≡ output_of out
      → Finished out jobs
          (dispatch job w).world
          (acc ++ success_step dispatch job out (dispatch job w).elapsed_ms ∷ [])
          r
      → Finished given (job ∷ jobs) w acc r
  Finished-cons job jobs acc given out w r h f = record {
    steps = success_step dispatch job out (dispatch job w).elapsed_ms ∷ f.steps;
    ran = one_more h f.ran;
    all_steps =
        f.all_steps
        ∙ append_assoc acc (success_step dispatch job out (dispatch job w).elapsed_ms ∷ []) f.steps;
    status = f.status;
  }

  Stopped-cons :
      (job : DispatchJob F) (jobs : List (DispatchJob F)) (acc : List ChainStepResult)
      (given out : Value) (w : W) (r : ChainDispatchResult × W)
      → (dispatch job w).dispatched ≡ output_of out
      → Stopped out jobs
          (dispatch job w).world
          (acc ++ success_step dispatch job out (dispatch job w).elapsed_ms ∷ [])
          r
      → Stopped given (job ∷ jobs) w acc r
  Stopped-cons job jobs acc given out w r h f = record {
    before = job ∷ f.before;
    job = f.job;
    after = f.after;
    reached = f.reached;
    steps = success_step dispatch job out (dispatch job w).elapsed_ms ∷ f.steps;
    last = f.last;
    message = f.message;
    split = ap (λ js. job ∷ js) f.split;
    ran = one_more h f.ran;
    fails = f.fails;
    all_steps =
        f.all_steps
        ∙ append_assoc acc (success_step dispatch job out (dispatch job w).elapsed_ms ∷ []) _;
    no_output = f.no_output;
    status = f.status;
    left = f.left;
  }

  chain_loop-cases :
      (jobs : List (DispatchJob F)) (acc : List ChainStepResult) (given : Value) (w : W)
      → Finished given jobs w acc (chain_loop dispatch jobs acc given w)
        ⊎ Stopped given jobs w acc (chain_loop dispatch jobs acc given w)
  unfolding chain_loop
  chain_loop-cases [] acc given w =
      inl (record {
        steps = [];
        ran = no_job given w;
        all_steps = sym (append-nil acc);
        status = refl;
      })
  chain_loop-cases (job ∷ jobs) acc given w = elim (Dispatched-cases (dispatch job w).dispatched) [
    | inl (out, h) ↦
        rw (chain_loop-output job jobs acc given out w h)
          (elim (chain_loop-cases jobs
            (acc ++ success_step dispatch job out (dispatch job w).elapsed_ms ∷ []) out
            (dispatch job w).world) [
              | inl f ↦ inl (Finished-cons job jobs acc given out w _ h f)
              | inr f ↦ inr (Stopped-cons job jobs acc given out w _ h f)
            ])
    | inr (message, h) ↦ rw (chain_loop-error job jobs acc given message w h) (
        inr (record {
          before = [];
          job = job;
          after = jobs;
          reached = w;
          steps = [];
          last = given;
          message = message;
          split = refl;
          ran = no_job given w;
          fails = h;
          all_steps = refl;
          no_output = refl;
          status = refl;
          left = refl;
        }))
  ]

  -- A chain either runs to its end, with status `success`, one step for each job in order, and the
  -- output of the last job; or it stops at the first job that fails, with status `failed`, no output,
  -- the steps of the jobs before and the failed step, and without a call for any later job.
  pub dispatch_chain_sequential-cases :
      (jobs : List (DispatchJob F)) (w : W)
      → Finished null jobs w [] (dispatch_chain_sequential dispatch jobs w)
        ⊎ Stopped null jobs w [] (dispatch_chain_sequential dispatch jobs w)
  unfolding dispatch_chain_sequential
  dispatch_chain_sequential-cases jobs w = chain_loop-cases jobs [] null w
