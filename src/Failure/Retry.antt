-- ===== src/Failure/Retry.antt =====
-- `RetryBudget` of crates/runtime/src/failure_management.rs: retries in a fixed window, bounded by a
-- share of the base requests seen in it. Each method holds the state's lock throughout.
pub mod Budget
mod Tests
use way_balancer.Base.{
  ℕ, ◌+◌, ◌-◌, ◌*◌, ◌/◌, Bool, true, false, leb, ◌==◌, if◌then◌else◌, Result, ok, err, reject, ◌>>◌,
  ◌>>=◌, sat_add64, wrap64,
}
use way_balancer.Failure.{FailureManagementError, zero_retry_window}

pub record RetryBudgetPolicy : Type 0 where
  pub min_retry_tokens : ℕ  -- u32
  pub retry_percent : ℕ  -- u8
  pub window : ℕ

pub record RetryBudgetSnapshot : Type 0 where
  pub base_request_count : ℕ
  pub retry_count : ℕ
  pub remaining_retry_tokens : ℕ

pub record RetryDecision : Type 0 where
  pub allowed : Bool
  pub remaining_retry_tokens : ℕ

pub record RetryBudgetState : Type 0 where
  pub window_started : ℕ
  pub base_request_count : ℕ
  pub retry_count : ℕ

pub record RetryBudget : Type 0 where
  pub policy : RetryBudgetPolicy
  pub state : RetryBudgetState
  pub exhausted_count : ℕ

unfoldable pub new : RetryBudgetPolicy → Result RetryBudget FailureManagementError
new p = do
  reject (p.window == 0) zero_retry_window
  ok (record {
    policy = p;
    state = record { window_started = 0; base_request_count = 0; retry_count = 0 };
    exhausted_count = 0;
  })

pub reset_retry_window_if_needed : RetryBudgetPolicy → ℕ → RetryBudgetState → RetryBudgetState
reset_retry_window_if_needed p now s =
    if leb p.window (now - s.window_started)
    then record { window_started = now; base_request_count = 0; retry_count = 0 }
    else s

-- The product is not saturated in the source: it wraps in a release build.
pub retry_capacity : RetryBudgetPolicy → RetryBudgetState → ℕ
retry_capacity p s =
    sat_add64 (wrap64 (s.base_request_count * p.retry_percent) / 100) p.min_retry_tokens

pub record_base_request : RetryBudget → ℕ → RetryBudget
record_base_request b now =
    let s = reset_retry_window_if_needed b.policy now b.state in
    record b { state = record s { base_request_count = sat_add64 s.base_request_count 1 } }

pub allow_retry : RetryBudget → ℕ → RetryBudget × RetryDecision
allow_retry b now =
    let s = reset_retry_window_if_needed b.policy now b.state in
    let available = retry_capacity b.policy s - s.retry_count in
    if available == 0
    then (
      record b { state = s; exhausted_count = wrap64 (b.exhausted_count + 1) },
      record { allowed = false; remaining_retry_tokens = 0 },
    )
    else (
      record b { state = record s { retry_count = sat_add64 s.retry_count 1 } },
      record { allowed = true; remaining_retry_tokens = available - 1 },
    )

pub snapshot : RetryBudget → ℕ → RetryBudget × RetryBudgetSnapshot
snapshot b now =
    let s = reset_retry_window_if_needed b.policy now b.state in
    (
      record b { state = s },
      record {
        base_request_count = s.base_request_count;
        retry_count = s.retry_count;
        remaining_retry_tokens = retry_capacity b.policy s - s.retry_count;
      },
    )
