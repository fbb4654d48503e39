-- ===== src/Health/Record/Invariant.antt =====
-- What holds of a health record (crates/runtime/src/upstream_health.rs) between signals and ticks.
use way_balancer.Base.{
  ℕ, ◌≤◌, ◌<◌, ◌≡◌, refl, Bool, true, false, List, [], ◌∷◌, ◌++◌, length, arith, u16_max,
  duration_add,
}
use way_balancer.Base.Map.{Map}
use way_balancer.Upstream.{UpstreamEndpoint}
use way_balancer.Health.{
  EndpointHealthPolicy, ProtocolHealthClass, is_available, is_ejected, healthy, degraded, warming,
}
use way_balancer.Health.Warmup.{warmup_weight_bounds}
use way_balancer.Health.Record.{
  EndpointHealthRecord, HealthSignal, active_success, active_failure, passive_success,
  passive_failure, new, receive, cap_ejection, advance, advance_ejection, advance_warmup, max_value,
  zero_values, keep_last, push_passive_result, transition_on_failures, transition_on_success,
  reset_counters, refresh_passive_failure_aggregate, increment_protocol_failure_counter,
  clear_protocol_failure_counter,
}

pub record Inv (p : EndpointHealthPolicy) (r : EndpointHealthRecord) : Type 0 where
  -- An endpoint that is out of traffic has no weight, and one that is fully in has its nominal one.
  pub excluded : is_available r.status ≡ false → r.effective_weight ≡ 0
  pub healthy_weight : r.status ≡ healthy → r.effective_weight ≡ r.nominal_weight
  pub degraded_weight : r.status ≡ degraded → r.effective_weight ≡ r.nominal_weight
  -- A warming one has some weight, and its warm-up is not over.
  pub warming_positive : r.status ≡ warming → 0 < r.effective_weight
  pub warming_bounded : r.effective_weight ≤ r.nominal_weight
  pub warming_unfinished : r.status ≡ warming → r.warmup_elapsed < p.warmup_duration
  -- Only an ejection runs a timer, and no longer than the policy says.
  pub untimed : is_ejected r.status ≡ false → r.remaining_ejection ≡ 0
  pub timed : r.remaining_ejection ≤ p.ejection_duration
  pub window_bounded : length r.passive_results_window ≤ p.outlier_window_size
  pub aggregate : r.passive_failures ≡ max_value r.passive_failures_by_protocol
  pub nominal_positive : 0 < r.nominal_weight
  pub nominal_range : r.nominal_weight ≤ u16_max

max_value-zero_values : (m : Map ProtocolHealthClass ℕ) → max_value (zero_values m) ≡ 0
unfolding max_value zero_values
max_value-zero_values [] = refl
max_value-zero_values ((k, v) ∷ m) = omega (arith, max_value-zero_values m)

length-keep_last : (size : ℕ) (xs : List Bool) → length (keep_last size xs) ≤ size
unfolding keep_last
length-keep_last size [] = omega arith
length-keep_last size (x ∷ xs) = ground (arith, length-keep_last size xs)

-- A new record for an endpoint of positive weight, in the range of u16, satisfies the invariant.
pub new-Inv :
    (e : UpstreamEndpoint) (p : EndpointHealthPolicy)
    → 0 < e.metadata.weight
    → e.metadata.weight ≤ u16_max
    → Inv p (new e p)
unfolding new max_value
new-Inv e p pos r = ground arith

failures-Inv :
    (p : EndpointHealthPolicy) (r : EndpointHealthRecord) (force : Bool)
    → Inv p r
    → Inv p (transition_on_failures r p force)
unfolding transition_on_failures
failures-Inv p r force v = ground arith

reset-Inv :
    (p : EndpointHealthPolicy) (r : EndpointHealthRecord) → Inv p r → Inv p (reset_counters r)
unfolding reset_counters
reset-Inv p r v = ground (arith, max_value-zero_values r.passive_failures_by_protocol)

success-Inv :
    (p : EndpointHealthPolicy) (r : EndpointHealthRecord)
    → Inv p r
    → Inv p (transition_on_success r p)
unfolding transition_on_success
success-Inv p r v = ground (arith, max_value-zero_values r.passive_failures_by_protocol)

pushed-Inv :
    (p : EndpointHealthPolicy) (r : EndpointHealthRecord) (success : Bool)
    → Inv p r
    → Inv p (push_passive_result r success p.outlier_window_size)
unfolding push_passive_result
pushed-Inv p r success v =
    ground
      (arith, length-keep_last p.outlier_window_size (r.passive_results_window ++ success ∷ []))

refreshed-Inv :
    (p : EndpointHealthPolicy) (r : EndpointHealthRecord) (m : Map ProtocolHealthClass ℕ)
    → Inv p r
    → Inv p (refresh_passive_failure_aggregate (record r { passive_failures_by_protocol = m }))
unfolding refresh_passive_failure_aggregate
refreshed-Inv p r m v = ground arith

uncounted-Inv :
    (p : EndpointHealthPolicy) (r : EndpointHealthRecord)
    → Inv p r
    → Inv p (record r { recovery_successes = 0 })
uncounted-Inv p r v = ground arith

-- Every signal keeps the invariant, and so does capping an ejection.
pub receive-Inv :
    (s : HealthSignal) (p : EndpointHealthPolicy) (r : EndpointHealthRecord)
    → Inv p r
    → Inv p (receive s r p)
unfolding receive increment_protocol_failure_counter clear_protocol_failure_counter
receive-Inv active_success p r v = success-Inv p r v
receive-Inv active_failure p r v = failures-Inv p _ false (ground (arith, v))
receive-Inv (passive_success protocol) p r v =
    success-Inv p _ (pushed-Inv p _ true (refreshed-Inv p r _ v))
receive-Inv (passive_failure protocol) p r v =
    failures-Inv p _ _ (uncounted-Inv p _ (pushed-Inv p _ false (refreshed-Inv p r _ v)))

pub cap_ejection-free : (r : EndpointHealthRecord) → is_ejected (cap_ejection r).status ≡ false
unfolding cap_ejection
cap_ejection-free r = refl

pub cap_ejection-Inv :
    (p : EndpointHealthPolicy) (r : EndpointHealthRecord) → Inv p r → Inv p (cap_ejection r)
unfolding cap_ejection
cap_ejection-Inv p r v = ground arith

advance_ejection-Inv :
    (p : EndpointHealthPolicy) (elapsed : ℕ) (r : EndpointHealthRecord)
    → Inv p r
    → Inv p (advance_ejection elapsed r).0
unfolding advance_ejection
advance_ejection-Inv p elapsed r v = ground arith

advance_warmup-Inv :
    (p : EndpointHealthPolicy) (elapsed : ℕ) (r : EndpointHealthRecord)
    → p.slow_start_min_weight_percent ≤ 100
    → Inv p r
    → Inv p (advance_warmup p elapsed r).0
unfolding advance_warmup
advance_warmup-Inv p elapsed r h v = ground (
  arith,
  warmup_weight_bounds r.nominal_weight (duration_add r.warmup_elapsed elapsed) p.warmup_duration
      p.slow_start_min_weight_percent v.nominal_positive v.nominal_range h,
)

-- Time keeps the invariant, for a slow-start percentage of at most 100.
pub advance-Inv :
    (p : EndpointHealthPolicy) (elapsed : ℕ) (r : EndpointHealthRecord)
    → p.slow_start_min_weight_percent ≤ 100
    → Inv p r
    → Inv p (advance p elapsed r).0
unfolding advance
advance-Inv p elapsed r h v =
    advance_warmup-Inv p elapsed (advance_ejection elapsed r).0 h
      (advance_ejection-Inv p elapsed r v)
