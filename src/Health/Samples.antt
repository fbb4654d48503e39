-- ===== src/Health/Samples.antt =====
-- A health policy and records for the tests.
use way_balancer.Base.{ℕ, []}
use way_balancer.Health.{
  EndpointHealthPolicy, EndpointHealthStatus, healthy, unhealthy, ejected, warming,
}
use way_balancer.Health.Record.{EndpointHealthRecord}

abbrev pub policy : EndpointHealthPolicy
policy = record {
  degraded_failure_threshold = 1;
  unhealthy_failure_threshold = 2;
  ejection_failure_threshold = 3;
  recovery_success_threshold = 2;
  ejection_duration = 30;
  warmup_duration = 10;
  consecutive_passive_failure_ejection_threshold = 5;
  outlier_window_size = 4;
  success_rate_ejection_threshold_percent = 50;
  cluster_ejection_budget_percent = 50;
  slow_start_min_weight_percent = 10;
}

-- A record in a status, with a weight and a timer.
abbrev pub record_in : EndpointHealthStatus → ℕ → ℕ → EndpointHealthRecord
record_in s weight timer = record {
  status = s;
  active_failures = 0;
  passive_failures = 0;
  recovery_successes = 0;
  effective_weight = weight;
  remaining_ejection = timer;
  warmup_elapsed = 0;
  nominal_weight = 4;
  passive_failures_by_protocol = [];
  passive_results_window = [];
}

abbrev pub in_traffic : EndpointHealthRecord
in_traffic = record_in healthy 4 0

abbrev pub recovering : EndpointHealthRecord
recovering = record_in unhealthy 0 0

abbrev pub out : EndpointHealthRecord
out = record_in ejected 0 30

abbrev pub starting : EndpointHealthRecord
starting = record_in warming 1 0
