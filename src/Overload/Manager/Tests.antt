-- ===== src/Overload/Manager/Tests.antt =====
-- The laws of the overload manager at a concrete one.
use way_balancer.Base.{
  not, ◌&&◌, any, ◌≡◌, refl, true, false, List, [], ◌∷◌, ◌++◌, arith, ◌≤◌, u64_max,
}
use way_balancer.Overload.{
  critical, default, best_effort, normal, OverloadPolicy, OverloadSignal, active_count,
  classify_state, validate,
}
use way_balancer.Overload.Brownout.{
  BrownoutFeature, BrownoutHookRegistry, disabled_features_for, should_disable_feature,
}
use way_balancer.Overload.Manager.{
  OverloadManager, SignalSample, new, record_signal, allow, shed, action_in, evict_old_samples,
}
use way_balancer.Overload.Manager.Window.{recent, active, evict-filter}
use way_balancer.Overload.Manager.History.{Call, signal, look, request, run, seen, state_of_window}
use way_balancer.Overload.Manager.Shedding.{rank, is_critical, pressure_monotone}
use way_balancer.Overload.Brownout.Features.{has_name}
use way_balancer.Base.Order.{same, list_ord, nat_ord}

abbrev policy : OverloadPolicy
policy = record {
  signal_window = 10;
  constrained_signal_threshold = 1;
  shedding_signal_threshold = 2;
  brownout_signal_threshold = 3;
}

abbrev hooks : BrownoutHookRegistry
hooks = record { features = record { name = 97 ∷ []; priority = best_effort } ∷ [] }

abbrev fresh : OverloadManager
fresh = record {
  policy = policy;
  hooks = hooks;
  state = normal;
  samples = [];
  disabled_features = [];
  state_change_count = 0;
  shed_request_count = 0;
  brownout_activation_count = 0;
  events = [];
}

abbrev both : OverloadSignal
both = record {
  rate_limited = true;
  concurrency_limited = true;
  breaker_open = false;
  retry_budget_exhausted = false;
}

abbrev calls : List Call
calls = signal 1 both ∷ request default ∷ look 5 ∷ signal 8 both ∷ []

abbrev window : List SignalSample
window = recent policy 15 (seen calls ++ record { observed_at = 15; signal = both } ∷ [])

window_fits : active window ≤ u64_max
unfolding active active_count
window_fits = omega arith

state_of_window_example :
    ((record_signal (run fresh calls) 15 both).0.samples ≡ window)
    × ((record_signal (run fresh calls) 15 both).0.state ≡ classify_state policy (active window))
    × ((record_signal (run fresh calls) 15 both).0.disabled_features
        ≡ disabled_features_for hooks (record_signal (run fresh calls) 15 both).0.state)
    × ((record_signal (run fresh calls) 15 both).1.active_signal_count ≡ active window)
unfolding new validate
state_of_window_example =
    state_of_window policy hooks fresh calls 8 15 both refl
      (omega arith, (omega arith, (omega arith, refl))) (omega arith) window_fits

evict-filter_example : evict_old_samples policy 15 window ≡ recent policy 15 window
evict-filter_example = evict-filter policy 15 window (ground arith)

abbrev banner : BrownoutFeature
banner = record { name = 97 ∷ []; priority = best_effort }

pressure_monotone_example :
    (action_in (classify_state policy 2) default ≡ shed
      → action_in (classify_state policy 3) best_effort ≡ shed)
    × (action_in (classify_state policy 3) critical ≡ allow)
    × (has_name banner.name (disabled_features_for hooks (classify_state policy 2)) ≡ true
        → has_name banner.name (disabled_features_for hooks (classify_state policy 3)) ≡ true)
    × (should_disable_feature (classify_state policy 2) default ≡ true
        → rank banner.priority ≤ rank default
        → has_name banner.name (disabled_features_for hooks (classify_state policy 3)) ≡ true)
    × (has_name banner.name (disabled_features_for hooks (classify_state policy 3)) ≡ true
        → any (λ f. same f.name banner.name && not (is_critical f.priority)) hooks.features ≡ true)
unfolding validate
pressure_monotone_example =
    pressure_monotone policy hooks 2 3 default best_effort banner.name 0 banner refl (omega arith)
      (omega arith) refl
