-- ===== src/Samples/Retries.antt =====
-- A transport that loses the first request of a payload of one byte.
use talos_workflow_engine.Base.{arith, ℕ, zero, suc, ◌≡◌, refl, some, List, [], ◌∷◌}
use talos_workflow_engine.Retry.{
  Tried, response, delivery_error, answered, Surroundings, Ended, dispatch_with_retry,
}
use talos_workflow_engine.Protocol.Nonce.{u64_max}
use talos_workflow_engine.Retry.Attempts.{EndsAfter, dispatch_with_retry-EndsAfter}

-- The state counts the requests.
request : List ℕ → ℕ → Tried × ℕ
request payload zero = (delivery_error "no responders", 1)
request payload (suc n) = (response payload, suc (suc n))

abbrev surroundings : Surroundings ℕ
surroundings = record {
  request = request;
  subsec_nanos = λ w. 30;
  resign = some (λ payload w. some (w ∷ payload));
  decimal = λ n. "n";
}

-- The second request carries the payload signed afresh, after a delay of 100 ms and 5 of jitter.
answers_again :
    dispatch_with_retry surroundings (7 ∷ []) 2 100 0
    ≡ some (record { returned = answered (1 ∷ 7 ∷ []); sleeps = 105 ∷ []; world = 2 })
unfolding dispatch_with_retry request u64_max
answers_again = refl

dispatch_with_retry-EndsAfter_example :
    (n : ℕ) × (end : Ended ℕ) × (dispatch_with_retry surroundings (7 ∷ []) 2 100 0 ≡ some end)
    × EndsAfter surroundings 2 (7 ∷ []) 0 n end
dispatch_with_retry-EndsAfter_example =
    dispatch_with_retry-EndsAfter surroundings 2 (7 ∷ []) 0 100 (omega arith)
