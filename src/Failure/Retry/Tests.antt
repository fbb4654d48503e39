-- ===== src/Failure/Retry/Tests.antt =====
-- The bound of a retry budget at a concrete history.
use way_balancer.Base.{ℕ, ◌≤◌, refl, List, [], ◌∷◌, arith}
use way_balancer.Failure.Retry.{RetryBudget, RetryBudgetPolicy, new}
use way_balancer.Failure.Retry.Budget.{
  Call, base, retry, observe, run, granted, allowance, granted_within_allowance,
}

abbrev a_fifth : RetryBudgetPolicy
a_fifth = record { min_retry_tokens = 1; retry_percent = 20; window = 1000 }

abbrev fresh : RetryBudget
fresh = record {
  policy = a_fifth;
  state = record { window_started = 0; base_request_count = 0; retry_count = 0 };
  exhausted_count = 0;
}

abbrev busy : List (ℕ × Call)
busy = (10, base) ∷ (20, retry) ∷ (30, retry) ∷ (40, observe) ∷ []

granted_within_allowance_example :
    granted (run fresh []) busy
    ≤ allowance a_fifth (run (run fresh []) busy).state.base_request_count
unfolding new run
granted_within_allowance_example =
    granted_within_allowance a_fifth fresh [] busy
      (record { tokens = omega arith; percent = omega arith }) refl (omega arith)
      (omega arith, (omega arith, (omega arith, (omega arith, tt))))
