-- ===== src/Failure/Manager/Tests.antt =====
-- The laws of the failure manager at a concrete history.
use way_balancer.Base.{◌+◌, wrap64, ◌≡◌, List, [], ◌∷◌}
use way_balancer.Failure.{UpstreamFailureClass}
use way_balancer.Failure.Retry.{RetryBudgetPolicy}
use way_balancer.Failure.Breaker.{CircuitBreakerPolicy, closed}
use way_balancer.Failure.Timeout.{TimeoutHierarchy, connect}
use way_balancer.Failure.Manager.{FailureManager}
use way_balancer.Failure.Manager.Projection.{IsByParts, by_parts}
use way_balancer.Failure.Manager.Composition.{
  Call, base_request, retry, timed_out, request, failed, run, timeouts, counted,
}

abbrev retries : RetryBudgetPolicy
retries = record { min_retry_tokens = 1; retry_percent = 20; window = 1000 }

abbrev waits : TimeoutHierarchy
waits = record { request_timeout = 30; attempt_timeout = 10; connect_timeout = 2; idle_timeout = 5 }

abbrev breaks : CircuitBreakerPolicy
breaks = record { open_failure_threshold = 2; open_duration = 100; half_open_success_threshold = 2 }

abbrev manager : FailureManager
manager = record {
  retry_budget = record {
    policy = retries;
    state = record { window_started = 0; base_request_count = 0; retry_count = 0 };
    exhausted_count = 0;
  };
  timeout_hierarchy = waits;
  circuit_breaker = record {
    policy = breaks;
    breaker_record = record {
      state = closed;
      consecutive_failures = 0;
      half_open_successes = 0;
      opened_at = 0;
      half_open_admitted = 0;
      half_open_window_started = 0;
    };
    breaker_state_change_count = 0;
    breaker_open_rejection_count = 0;
    events = [];
  };
  timeout_category_counts = [];
}

abbrev history : List Call
history =
    base_request 1
    ∷ timed_out connect
    ∷ failed 2 UpstreamFailureClass.timeout
    ∷ retry 3 UpstreamFailureClass.timeout
    ∷ retry 3 UpstreamFailureClass.permanent
    ∷ request 4
    ∷ []

by_parts_example :
    IsByParts manager history
    × (wrap64 (counted (run manager history) connect)
        ≡ wrap64 (counted manager connect + timeouts connect history))
by_parts_example = by_parts manager history connect
