-- ===== src/Failure/Timeout/Tests.antt =====
-- The laws of the timeout hierarchy at a concrete one.
use way_balancer.Base.{◌≤◌, ◌<◌, ◌≡◌, refl}
use way_balancer.Failure.Timeout.{TimeoutHierarchy, connect, validate, effective_timeout}
use way_balancer.Failure.Timeout.Precedence.{effective_timeout_bounds}

abbrev defaults : TimeoutHierarchy
defaults = record {
  request_timeout = 30000;
  attempt_timeout = 10000;
  connect_timeout = 2000;
  idle_timeout = 5000;
}

effective_timeout_bounds_example :
    (effective_timeout defaults connect ≡ 2000)
    × (0 < effective_timeout defaults connect)
    × (effective_timeout defaults connect ≤ 30000)
unfolding validate
effective_timeout_bounds_example = effective_timeout_bounds defaults connect refl
