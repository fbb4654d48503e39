-- ===== src/Failure.antt =====
-- crates/runtime/src/failure_management.rs: the errors and failure classes that retry budgets,
-- timeouts and the circuit breaker share. Each of the three is a child module, and Manager composes
-- them.
pub mod Timeout
pub mod Retry
pub mod Breaker
pub mod Manager
use way_balancer.Base.{Bool, true, false}

pub data FailureManagementError : Type 0 where
  zero_retry_window zero_timeout invalid_timeout_order invalid_breaker_threshold :
      FailureManagementError

pub data UpstreamFailureClass : Type 0 where
  connect timeout overloaded temporary permanent : UpstreamFailureClass

abbrev pub is_retryable : UpstreamFailureClass → Bool
is_retryable UpstreamFailureClass.permanent = false
is_retryable _ = true

abbrev pub counts_toward_breaker : UpstreamFailureClass → Bool
counts_toward_breaker UpstreamFailureClass.permanent = false
counts_toward_breaker _ = true
