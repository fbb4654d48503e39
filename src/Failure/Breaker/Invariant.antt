-- ===== src/Failure/Breaker/Invariant.antt =====
-- What holds of a circuit breaker (crates/runtime/src/failure_management.rs) between two calls.
use way_balancer.Base.{
  ℕ, ◌≤◌, ◌<◌, ◌≡◌, refl, ◌≢◌, List, [], ◌∷◌, length, length-push_bounded, arith, ok, u32_max,
  sat_add32,
}
use Prim.Native.String.{String}
use way_balancer.Failure.{UpstreamFailureClass}
use way_balancer.Failure.Breaker.{
  CircuitBreaker, CircuitBreakerPolicy, CircuitBreakerState, closed, opened, half_open,
  max_failure_events, new, allow_request, record_success, record_failure, transition_breaker_state,
  half_open_if_due, rearm_if_due, admit_probe, decide, success_in, failure_in,
  FailureManagementEventKind, breaker_opened, breaker_half_opened, breaker_closed,
}

-- Thresholds as `new` accepts them, in the range of their type.
pub record IsSane (p : CircuitBreakerPolicy) : Type 0 where
  pub failures_positive : 0 < p.open_failure_threshold
  pub failures_range : p.open_failure_threshold ≤ u32_max
  pub successes_positive : 0 < p.half_open_success_threshold
  pub successes_range : p.half_open_success_threshold ≤ u32_max
  pub duration_positive : 0 < p.open_duration

pub record Inv (b : CircuitBreaker) : Type 0 where
  pub sane : IsSane b.policy
  -- A closed breaker has not seen enough failures to open.
  pub below_threshold :
      b.breaker_record.state ≡ closed
      → b.breaker_record.consecutive_failures < b.policy.open_failure_threshold
  -- A probing breaker has not seen enough successes to close; any other has forgotten them.
  pub still_probing : b.breaker_record.half_open_successes < b.policy.half_open_success_threshold
  pub only_probing : b.breaker_record.state ≢ half_open → b.breaker_record.half_open_successes ≡ 0
  pub bounded_probes : b.breaker_record.half_open_admitted ≤ b.policy.half_open_success_threshold
  pub bounded_events : length b.events ≤ max_failure_events

pub data Call : Type 0 where
  allow : ℕ → Call
  success : Call
  failure : ℕ → UpstreamFailureClass → Call

unfoldable pub step : CircuitBreaker → Call → CircuitBreaker
step b (allow now) = (allow_request b now).0
step b success = record_success b
step b (failure now class) = record_failure b now class

unfoldable pub run : CircuitBreaker → List Call → CircuitBreaker
run b [] = b
run b (c ∷ cs) = run (step b c) cs

pub new-Inv :
    (p : CircuitBreakerPolicy) (b : CircuitBreaker)
    → p.open_failure_threshold ≤ u32_max
    → p.half_open_success_threshold ≤ u32_max
    → new p ≡ ok b
    → Inv b
unfolding new
new-Inv p b f s e = ground arith

transition_bounded_events :
    (to : CircuitBreakerState) (k : FailureManagementEventKind) (d : String) (b : CircuitBreaker)
    → length b.events ≤ max_failure_events
    → length (transition_breaker_state to k d b).events ≤ max_failure_events
unfolding transition_breaker_state
transition_bounded_events to k d b h = ground (
  arith,
  length-push_bounded max_failure_events (record { kind = k; scope = "upstream"; detail = d })
      b.events (omega arith) h,
)

half_open_if_due-Inv : (b : CircuitBreaker) (now : ℕ) → Inv b → Inv (half_open_if_due b now)
unfolding half_open_if_due transition_breaker_state
half_open_if_due-Inv b now v = ground (
  arith,
  transition_bounded_events half_open breaker_half_opened
      "breaker cool-down elapsed; allowing probe traffic" b v.bounded_events,
)

decide-Inv :
    (s : CircuitBreakerState) (b : CircuitBreaker) (now : ℕ)
    → b.breaker_record.state ≡ s
    → Inv b
    → Inv (decide s b now).0
unfolding decide rearm_if_due admit_probe
decide-Inv closed b now e v = v
decide-Inv opened b now e v = ground arith
decide-Inv half_open b now e v = ground arith

success_in-Inv :
    (s : CircuitBreakerState) (b : CircuitBreaker)
    → b.breaker_record.state ≡ s
    → Inv b
    → Inv (success_in s b)
unfolding success_in transition_breaker_state
success_in-Inv closed b e v = ground arith
success_in-Inv opened b e v = v
success_in-Inv half_open b e v =
    let successes = sat_add32 b.breaker_record.half_open_successes 1 in
    ground (
      arith,
      transition_bounded_events closed breaker_closed
          "breaker recovered after successful half-open probes"
          (record b {
            breaker_record = record (b.breaker_record) { half_open_successes = successes };
          })
          v.bounded_events,
    )

failure_in-Inv :
    (s : CircuitBreakerState) (b : CircuitBreaker) (now : ℕ)
    → b.breaker_record.state ≡ s
    → Inv b
    → Inv (failure_in s b now)
unfolding failure_in transition_breaker_state
failure_in-Inv closed b now e v = ground (
  arith,
  transition_bounded_events opened breaker_opened "breaker opened after repeated upstream failures"
      b v.bounded_events,
)
failure_in-Inv opened b now e v = ground arith
failure_in-Inv half_open b now e v = ground (
  arith,
  transition_bounded_events opened breaker_opened "breaker re-opened after failed half-open probe" b
      v.bounded_events,
)

-- Every call keeps the invariant.
pub step-Inv : (b : CircuitBreaker) (c : Call) → Inv b → Inv (step b c)
unfolding step allow_request record_success record_failure
step-Inv b (allow now) v =
    decide-Inv _ (half_open_if_due b now) now refl (half_open_if_due-Inv b now v)
step-Inv b success v = success_in-Inv b.breaker_record.state b refl v
step-Inv b (failure now UpstreamFailureClass.permanent) v = v
step-Inv b (failure now _) v = failure_in-Inv b.breaker_record.state b now refl v

run-Inv : (b : CircuitBreaker) (cs : List Call) → Inv b → Inv (run b cs)
unfolding run
run-Inv b [] v = v
run-Inv b (c ∷ cs) v = run-Inv (step b c) cs (step-Inv b c v)

-- A breaker that `new` accepts, with thresholds in the range of u32, keeps the invariant through
-- any history of calls: while it is closed, it has seen fewer failures in a row than open it; it has
-- seen fewer successes of probes than close it, and none unless it is half-open; the probes that it
-- has admitted are not more than the successes it needs; and at most 64 events are queued.
pub run-new-Inv :
    (p : CircuitBreakerPolicy) (b : CircuitBreaker) (cs : List Call)
    → p.open_failure_threshold ≤ u32_max
    → p.half_open_success_threshold ≤ u32_max
    → new p ≡ ok b
    → Inv (run b cs)
run-new-Inv p b cs f s e = run-Inv b cs (new-Inv p b f s e)
