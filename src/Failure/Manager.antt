-- ===== src/Failure/Manager.antt =====
-- `FailureManager` of crates/runtime/src/failure_management.rs: one retry budget, timeout hierarchy
-- and circuit breaker behind one interface.
pub mod Composition
pub mod Projection
mod Tests
use way_balancer.Base.{
  ℕ, ◌+◌, Bool, false, if◌then◌else◌, List, [], Result, ok, err, ◌>>=◌, ◌>>◌, unwrap_or, wrap64,
}
use way_balancer.Base.Map.{Map, lookup, insert}
use way_balancer.Failure.{FailureManagementError, UpstreamFailureClass, is_retryable}
use way_balancer.Failure.Timeout
use way_balancer.Failure.Timeout.{TimeoutHierarchy, TimeoutCategory, category_ord}
use way_balancer.Failure.Retry
use way_balancer.Failure.Retry.{RetryBudget, RetryBudgetPolicy, RetryBudgetSnapshot, RetryDecision}
use way_balancer.Failure.Breaker
use way_balancer.Failure.Breaker.{
  CircuitBreaker, CircuitBreakerPolicy, CircuitBreakerSnapshot, FailureManagementEvent,
}

pub record FailureManagementMetrics : Type 0 where
  pub retry_budget_exhausted_count : ℕ
  pub breaker_state_change_count : ℕ
  pub breaker_open_rejection_count : ℕ
  pub timeout_category_counts : Map TimeoutCategory ℕ

pub record FailureManager : Type 0 where
  pub retry_budget : RetryBudget
  pub timeout_hierarchy : TimeoutHierarchy
  pub circuit_breaker : CircuitBreaker
  pub timeout_category_counts : Map TimeoutCategory ℕ

pub new :
    RetryBudgetPolicy
    → TimeoutHierarchy
    → CircuitBreakerPolicy
    → Result FailureManager FailureManagementError
new r t c = do
  Timeout.validate t
  budget ← Retry.new r
  breaker ← Breaker.new c
  ok (record {
    retry_budget = budget;
    timeout_hierarchy = t;
    circuit_breaker = breaker;
    timeout_category_counts = [];
  })

pub record_base_request : FailureManager → ℕ → FailureManager
record_base_request m now = record m { retry_budget = Retry.record_base_request m.retry_budget now }

pub allow_retry : FailureManager → ℕ → UpstreamFailureClass → FailureManager × RetryDecision
allow_retry m now failure =
    let (b, d) = Retry.allow_retry m.retry_budget now in
    if is_retryable failure
    then (record m { retry_budget = b }, d)
    else (m, record { allowed = false; remaining_retry_tokens = 0 })

pub effective_timeout : FailureManager → TimeoutCategory → ℕ
effective_timeout m c = Timeout.effective_timeout m.timeout_hierarchy c

pub record_timeout : FailureManager → TimeoutCategory → FailureManager
record_timeout m c = record m {
  timeout_category_counts = insert c (wrap64 (unwrap_or (lookup c counts) 0 + 1)) counts;
}
  where
    open m use {timeout_category_counts as counts}

pub allow_request : FailureManager → ℕ → FailureManager × Bool
allow_request m now =
    let (b, admitted) = Breaker.allow_request m.circuit_breaker now in
    (record m { circuit_breaker = b }, admitted)

pub record_success : FailureManager → FailureManager
record_success m = record m { circuit_breaker = Breaker.record_success m.circuit_breaker }

pub record_failure : FailureManager → ℕ → UpstreamFailureClass → FailureManager
record_failure m now class = record m {
  circuit_breaker = Breaker.record_failure m.circuit_breaker now class;
}

pub metrics : FailureManager → FailureManagementMetrics
metrics m = record {
  retry_budget_exhausted_count = m.retry_budget.exhausted_count;
  breaker_state_change_count = m.circuit_breaker.breaker_state_change_count;
  breaker_open_rejection_count = m.circuit_breaker.breaker_open_rejection_count;
  timeout_category_counts = m.timeout_category_counts;
}

pub breaker_snapshot : FailureManager → ℕ → CircuitBreakerSnapshot
breaker_snapshot m now = Breaker.snapshot m.circuit_breaker now

pub retry_budget_snapshot : FailureManager → ℕ → FailureManager × RetryBudgetSnapshot
retry_budget_snapshot m now =
    let (b, s) = Retry.snapshot m.retry_budget now in (record m { retry_budget = b }, s)

pub recent_events : FailureManager → List FailureManagementEvent
recent_events m = m.circuit_breaker.events
