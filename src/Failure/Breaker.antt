-- ===== src/Failure/Breaker.antt =====
-- `CircuitBreaker` of crates/runtime/src/failure_management.rs. Each method holds the record's lock
-- throughout, so a history of calls is a sequence of these functions.
pub mod Invariant
pub mod Probes
pub mod Cooldown
pub mod Threshold
mod Tests
use Prim.Native.String.{String}
use way_balancer.Base.{
  ℕ, ◌+◌, ◌-◌, Bool, true, false, ◌&&◌, ◌||◌, ltb, leb, ◌==◌, if◌then◌else◌, List, [], ◌∷◌, Option,
  none, some, Result, ok, err, reject, ◌>>◌, ◌>>=◌, sat_add32, wrap64, push_bounded,
}
use way_balancer.Failure.{
  FailureManagementError, invalid_breaker_threshold, UpstreamFailureClass, counts_toward_breaker,
}

pub data CircuitBreakerState : Type 0 where
  closed opened half_open : CircuitBreakerState

abbrev pub same_state : CircuitBreakerState → CircuitBreakerState → Bool
same_state closed closed = true
same_state opened opened = true
same_state half_open half_open = true
same_state _ _ = false

pub record CircuitBreakerPolicy : Type 0 where
  pub open_failure_threshold : ℕ  -- u32
  pub open_duration : ℕ
  pub half_open_success_threshold : ℕ  -- u32

pub record CircuitBreakerSnapshot : Type 0 where
  pub state : CircuitBreakerState
  pub remaining_open_duration : Option ℕ
  pub consecutive_failures : ℕ
  pub half_open_successes : ℕ

pub record CircuitBreakerRecord : Type 0 where
  pub state : CircuitBreakerState
  pub consecutive_failures : ℕ  -- u32
  pub half_open_successes : ℕ  -- u32
  pub opened_at : ℕ
  pub half_open_admitted : ℕ  -- u32
  pub half_open_window_started : ℕ

pub data FailureManagementEventKind : Type 0 where
  breaker_opened breaker_half_opened breaker_closed : FailureManagementEventKind

pub record FailureManagementEvent : Type 0 where
  pub kind : FailureManagementEventKind
  pub scope : String
  pub detail : String

abbrev pub max_failure_events : ℕ
max_failure_events = 64

pub record CircuitBreaker : Type 0 where
  pub policy : CircuitBreakerPolicy
  pub breaker_record : CircuitBreakerRecord
  pub breaker_state_change_count : ℕ
  pub breaker_open_rejection_count : ℕ
  pub events : List FailureManagementEvent

unfoldable pub new : CircuitBreakerPolicy → Result CircuitBreaker FailureManagementError
new p = do
  reject
      (p.open_failure_threshold == 0 || p.half_open_success_threshold == 0 || p.open_duration == 0)
      invalid_breaker_threshold
  ok (record {
    policy = p;
    breaker_record = record {
      state = closed;
      consecutive_failures = 0;
      half_open_successes = 0;
      opened_at = 0;
      half_open_admitted = 0;
      half_open_window_started = 0;
    };
    breaker_state_change_count = 0;
    breaker_open_rejection_count = 0;
    events = [];
  })

-- Changes the state, counts the change and queues its event, unless the state is the old one.
pub transition_breaker_state :
    CircuitBreakerState → FailureManagementEventKind → String → CircuitBreaker → CircuitBreaker
transition_breaker_state to kind detail b =
    if same_state b.breaker_record.state to then b else record b {
      breaker_record = record r { state = to };
      breaker_state_change_count = wrap64 (b.breaker_state_change_count + 1);
      events =
          push_bounded max_failure_events
            (record { kind = kind; scope = "upstream"; detail = detail }) b.events;
    }
  where
    open b use {breaker_record as r}

-- The first `if` of `allow_request`: an open breaker whose cool-down is over starts probing.
pub half_open_if_due : CircuitBreaker → ℕ → CircuitBreaker
half_open_if_due b now =
    if same_state b.breaker_record.state opened
      && leb b.policy.open_duration (now - b.breaker_record.opened_at)
    then (let c =
          transition_breaker_state half_open breaker_half_opened
            "breaker cool-down elapsed; allowing probe traffic" b in
        record c {
          breaker_record = record (c.breaker_record) {
            half_open_admitted = 0;
            half_open_window_started = now;
          };
        })
    else b

-- The re-arming of the probes in the half-open branch.
pub rearm_if_due : CircuitBreaker → ℕ → CircuitBreaker
rearm_if_due b now =
    if leb b.policy.open_duration (now - b.breaker_record.half_open_window_started)
    then record b {
      breaker_record = record r { half_open_admitted = 0; half_open_window_started = now };
    }
    else b
  where
    open b use {breaker_record as r}

abbrev count_rejection : CircuitBreaker → CircuitBreaker
count_rejection b = record b {
  breaker_open_rejection_count = wrap64 (b.breaker_open_rejection_count + 1);
}

-- `half_open_admitted` is below the budget where it is incremented, so it cannot overflow.
pub admit_probe : CircuitBreaker → CircuitBreaker × Bool
admit_probe b =
    if ltb r.half_open_admitted (b.policy.half_open_success_threshold - r.half_open_successes)
    then (
      record b { breaker_record = record r { half_open_admitted = r.half_open_admitted + 1 } },
      true,
    )
    else (count_rejection b, false)
  where
    open b use {breaker_record as r}

pub decide : CircuitBreakerState → CircuitBreaker → ℕ → CircuitBreaker × Bool
decide opened b now = (count_rejection b, false)
decide half_open b now = admit_probe (rearm_if_due b now)
decide closed b now = (b, true)

pub allow_request : CircuitBreaker → ℕ → CircuitBreaker × Bool
allow_request b now = let c = half_open_if_due b now in decide c.breaker_record.state c now

pub success_in : CircuitBreakerState → CircuitBreaker → CircuitBreaker
success_in closed b = record b {
  breaker_record = record (b.breaker_record) { consecutive_failures = 0 };
}
success_in opened b = b
success_in half_open b =
    let successes = sat_add32 b.breaker_record.half_open_successes 1 in
    let c = record b {
      breaker_record = record (b.breaker_record) { half_open_successes = successes };
    } in
    if leb b.policy.half_open_success_threshold successes
    then (let d =
          transition_breaker_state closed breaker_closed
            "breaker recovered after successful half-open probes" c in
        record d {
          breaker_record = record (d.breaker_record) {
            consecutive_failures = 0;
            half_open_successes = 0;
          };
        })
    else c

pub record_success : CircuitBreaker → CircuitBreaker
unfolding success_in
record_success b = success_in b.breaker_record.state b

pub failure_in : CircuitBreakerState → CircuitBreaker → ℕ → CircuitBreaker
failure_in closed b now =
    let failures = sat_add32 b.breaker_record.consecutive_failures 1 in
    let c = record b {
      breaker_record = record (b.breaker_record) { consecutive_failures = failures };
    } in
    if leb b.policy.open_failure_threshold failures
    then (let d =
          transition_breaker_state opened breaker_opened
            "breaker opened after repeated upstream failures"
            (record c { breaker_record = record (c.breaker_record) { opened_at = now } }) in
        record d { breaker_record = record (d.breaker_record) { half_open_successes = 0 } })
    else c
failure_in half_open b now =
    let d =
      transition_breaker_state opened breaker_opened
        "breaker re-opened after failed half-open probe"
        (record b { breaker_record = record (b.breaker_record) { opened_at = now } }) in
    record d {
      breaker_record = record (d.breaker_record) {
        consecutive_failures = b.policy.open_failure_threshold;
        half_open_successes = 0;
      };
    }
failure_in opened b now = record b {
  breaker_record = record (b.breaker_record) { opened_at = now };
}

pub record_failure : CircuitBreaker → ℕ → UpstreamFailureClass → CircuitBreaker
unfolding failure_in
record_failure b now class =
    if counts_toward_breaker class then failure_in b.breaker_record.state b now else b

abbrev remaining_open : CircuitBreakerState → CircuitBreaker → ℕ → Option ℕ
remaining_open opened b now = some (b.policy.open_duration - (now - b.breaker_record.opened_at))
remaining_open _ b now = none

pub snapshot : CircuitBreaker → ℕ → CircuitBreakerSnapshot
snapshot b now = record {
  state = b.breaker_record.state;
  remaining_open_duration = remaining_open b.breaker_record.state b now;
  consecutive_failures = b.breaker_record.consecutive_failures;
  half_open_successes = b.breaker_record.half_open_successes;
}
