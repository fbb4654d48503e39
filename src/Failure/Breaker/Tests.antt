-- ===== src/Failure/Breaker/Tests.antt =====
-- The laws of the circuit breaker at concrete histories.
use way_balancer.Base.{ℕ, ◌+◌, ◌≡◌, refl, min, true, List, [], ◌∷◌, arith}
use way_balancer.Failure.{UpstreamFailureClass}
use way_balancer.Failure.Breaker.{
  CircuitBreaker, CircuitBreakerPolicy, closed, opened, half_open, new, allow_request,
  record_failure,
}
use way_balancer.Failure.Breaker.Invariant.{Inv, Call, allow, success, failure, run, run-new-Inv}
use way_balancer.Failure.Breaker.Cooldown.{admissions, requests, cooldown_then_probe}
use way_balancer.Failure.Breaker.Probes.{probes_left, admissions-probing}
use way_balancer.Failure.Breaker.Threshold.{
  IsCounting, IsNextFailure, IsRecovering, counting, fail_all, succeed_times, opens_at_threshold,
  closes_at_threshold,
}

abbrev two_of_each : CircuitBreakerPolicy
two_of_each = record {
  open_failure_threshold = 2;
  open_duration = 100;
  half_open_success_threshold = 2;
}

abbrev fresh : CircuitBreaker
fresh = record {
  policy = two_of_each;
  breaker_record = record {
    state = closed;
    consecutive_failures = 0;
    half_open_successes = 0;
    opened_at = 0;
    half_open_admitted = 0;
    half_open_window_started = 0;
  };
  breaker_state_change_count = 0;
  breaker_open_rejection_count = 0;
  events = [];
}

abbrev tripped : CircuitBreaker
tripped = record fresh {
  breaker_record = record (fresh.breaker_record) {
    state = opened;
    consecutive_failures = 2;
    opened_at = 10;
  };
}

abbrev probing : CircuitBreaker
probing = record fresh {
  breaker_record = record (fresh.breaker_record) {
    state = half_open;
    half_open_window_started = 200;
  };
}

abbrev history : List Call
history =
    allow 1
    ∷ failure 2 UpstreamFailureClass.timeout
    ∷ failure 3 UpstreamFailureClass.connect
    ∷ allow 50
    ∷ allow 200
    ∷ success
    ∷ []

run-new-Inv_example : Inv (run fresh history)
unfolding new
run-new-Inv_example = run-new-Inv two_of_each fresh history (omega arith) (omega arith) refl

cooldown_then_probe_example :
    (admissions tripped (20 ∷ 90 ∷ []) ≡ 0)
    × ((requests tripped (20 ∷ 90 ∷ [])).breaker_record ≡ tripped.breaker_record)
    × ((allow_request (requests tripped (20 ∷ 90 ∷ [])) 110).1 ≡ true)
    × ((allow_request (requests tripped (20 ∷ 90 ∷ [])) 110).0.breaker_record.state ≡ half_open)
    × ((allow_request (requests tripped (20 ∷ 90 ∷ [])) 110).0.breaker_record.half_open_admitted
        ≡ 1)
cooldown_then_probe_example =
    cooldown_then_probe tripped (20 ∷ 90 ∷ []) 110 (ground arith) refl
      (omega arith, (omega arith, tt)) (omega arith)

admissions-probing_example : admissions probing (200 ∷ 201 ∷ 202 ∷ []) ≡ min 3 (probes_left probing)
admissions-probing_example =
    admissions-probing probing 200 100 (200 ∷ 201 ∷ 202 ∷ [])
      (record { probing = refl; started = refl; lasts = refl })
      (omega arith, (omega arith, (omega arith, tt)))

abbrev failures : List (ℕ × UpstreamFailureClass)
failures =
    (4, UpstreamFailureClass.permanent)
    ∷ (5, UpstreamFailureClass.timeout)
    ∷ (5, UpstreamFailureClass.permanent)
    ∷ []

opens_at_threshold_example :
    IsCounting (fail_all fresh failures) (0 + counting failures) 2
    × IsNextFailure
        (fail_all fresh failures)
        (0 + counting failures)
        2
        6
        UpstreamFailureClass.connect
        (record_failure (fail_all fresh failures) 6 UpstreamFailureClass.connect)
opens_at_threshold_example =
    opens_at_threshold fresh 0 2 failures 6 UpstreamFailureClass.connect (omega arith)
      (record { still_closed = refl; counted = refl; opens_at = refl }) (omega arith)

closes_at_threshold_example :
    IsRecovering (succeed_times probing 1) 1 2
    × ((succeed_times probing 2).breaker_record.state ≡ closed)
    × ((succeed_times probing 2).breaker_record.consecutive_failures ≡ 0)
    × ((succeed_times probing 2).breaker_record.half_open_successes ≡ 0)
closes_at_threshold_example =
    closes_at_threshold probing 0 2 1 (omega arith)
      (record { probing = refl; counted = refl; closes_at = refl }) refl
