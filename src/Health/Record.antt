-- ===== src/Health/Record.antt =====
-- `EndpointHealthRecord` of crates/runtime/src/upstream_health.rs and the transitions that signals
-- and time make on it.
pub mod Invariant
pub mod Signals
pub mod Time
mod Tests
use way_balancer.Base.{
  ℕ, ◌+◌, ◌-◌, ◌*◌, Bool, true, false, ◌&&◌, ◌||◌, not, ltb, leb, ◌==◌, if◌then◌else◌, max, List,
  [], ◌∷◌, ◌++◌, length, count, Option, none, some, unwrap_or, sat_add32, sat_mul32, duration_add,
  min, u32_max, ◌%◌,
}
use way_balancer.Base.Map.{Map, lookup, insert}
use way_balancer.Upstream.{UpstreamEndpoint, is_ready}
use way_balancer.Health.{
  EndpointHealthPolicy, EndpointHealthStatus, EndpointHealthSnapshot, ProtocolHealthClass,
  protocol_ord, is_ejected, healthy, degraded, unhealthy, ejected, warming, is_warming,
}
use way_balancer.Health.Warmup.{warmup_weight}

pub record EndpointHealthRecord : Type 0 where
  pub status : EndpointHealthStatus
  pub active_failures : ℕ  -- u32
  pub passive_failures : ℕ  -- u32
  pub recovery_successes : ℕ  -- u32
  pub effective_weight : ℕ  -- u16
  pub remaining_ejection : ℕ
  pub warmup_elapsed : ℕ
  pub nominal_weight : ℕ  -- u16
  pub passive_failures_by_protocol : Map ProtocolHealthClass ℕ
  pub passive_results_window : List Bool

pub new : UpstreamEndpoint → EndpointHealthPolicy → EndpointHealthRecord
new e p =
    let warms = is_ready e.state && not (p.warmup_duration == 0) in
    record {
      status = if warms then warming else healthy;
      active_failures = 0;
      passive_failures = 0;
      recovery_successes = 0;
      effective_weight = if warms then 1 else e.metadata.weight;
      remaining_ejection = 0;
      warmup_elapsed = 0;
      nominal_weight = e.metadata.weight;
      passive_failures_by_protocol = [];
      passive_results_window = [];
    }

-- `checked_sub` with the fallback zero is the truncated difference.
pub snapshot : EndpointHealthRecord → EndpointHealthPolicy → EndpointHealthSnapshot
snapshot r p = record {
  status = r.status;
  active_failures = r.active_failures;
  passive_failures = r.passive_failures;
  recovery_successes = r.recovery_successes;
  effective_weight = r.effective_weight;
  remaining_ejection = if r.remaining_ejection == 0 then none else some r.remaining_ejection;
  remaining_warmup =
      if is_warming r.status then some (p.warmup_duration - r.warmup_elapsed) else none;
  passive_failures_by_protocol = r.passive_failures_by_protocol;
}

pub combined_failures : EndpointHealthRecord → ℕ
combined_failures r = sat_add32 r.active_failures r.passive_failures

pub increment_protocol_failure_counter :
    EndpointHealthRecord → ProtocolHealthClass → EndpointHealthRecord
increment_protocol_failure_counter r protocol = record r {
  passive_failures_by_protocol = insert protocol (sat_add32 (unwrap_or (lookup protocol m) 0) 1) m;
}
  where
    open r use {passive_failures_by_protocol as m}

pub clear_protocol_failure_counter :
    EndpointHealthRecord → ProtocolHealthClass → EndpointHealthRecord
clear_protocol_failure_counter r protocol = record r {
  passive_failures_by_protocol = insert protocol 0 r.passive_failures_by_protocol;
}

-- `values().max().unwrap_or(0)`
pub max_value : Map ProtocolHealthClass ℕ → ℕ
max_value [] = 0
max_value ((k, v) ∷ m) = max v (max_value m)

pub refresh_passive_failure_aggregate : EndpointHealthRecord → EndpointHealthRecord
refresh_passive_failure_aggregate r = record r {
  passive_failures = max_value r.passive_failures_by_protocol;
}

pub zero_values : Map ProtocolHealthClass ℕ → Map ProtocolHealthClass ℕ
zero_values [] = []
zero_values ((k, v) ∷ m) = (k, 0) ∷ zero_values m

pub clear_protocol_failure_state : EndpointHealthRecord → EndpointHealthRecord
clear_protocol_failure_state r = record r {
  passive_failures_by_protocol = zero_values r.passive_failures_by_protocol;
}

-- The `while` loop that pops from the front until at most `size` results are left.
pub keep_last : ℕ → List Bool → List Bool
keep_last size [] = []
keep_last size (x ∷ xs) =
    let rest = keep_last size xs in if ltb size (length (x ∷ xs)) then rest else x ∷ xs

pub push_passive_result : EndpointHealthRecord → Bool → ℕ → EndpointHealthRecord
push_passive_result r success size = if size == 0 then r else record r {
  passive_results_window = keep_last size (r.passive_results_window ++ success ∷ []);
}

-- The number of results is cast to u32.
pub passive_failure_triggers_ejection : EndpointHealthRecord → EndpointHealthPolicy → Bool
passive_failure_triggers_ejection r p =
    let observed = length r.passive_results_window % 4294967296 in
    let successes = count (λ s. s) r.passive_results_window % 4294967296 in
    if ltb 0 p.consecutive_passive_failure_ejection_threshold
      && leb p.consecutive_passive_failure_ejection_threshold r.passive_failures
    then true
    else if p.outlier_window_size == 0
        || ltb (length r.passive_results_window) p.outlier_window_size
    then false
    else ltb (sat_mul32 successes 100)
        (sat_mul32 p.success_rate_ejection_threshold_percent observed)

pub transition_on_failures :
    EndpointHealthRecord → EndpointHealthPolicy → Bool → EndpointHealthRecord
transition_on_failures r p force =
    let failures = combined_failures r in
    if is_ejected r.status
    then r
    else if force || leb p.ejection_failure_threshold failures
    then record r {
      status = ejected;
      remaining_ejection = p.ejection_duration;
      effective_weight = 0;
      recovery_successes = 0;
    }
    else if leb p.unhealthy_failure_threshold failures
    then record r { status = unhealthy; effective_weight = 0 }
    else if leb p.degraded_failure_threshold failures
    then record r { status = degraded; effective_weight = r.nominal_weight }
    else r

abbrev is_settled : EndpointHealthStatus → Bool
is_settled healthy = true
is_settled warming = true
is_settled _ = false

-- The four resets that a recovery makes.
pub reset_counters : EndpointHealthRecord → EndpointHealthRecord
unfolding clear_protocol_failure_state
reset_counters r =
    let c = record r { active_failures = 0; passive_failures = 0 } in
    record (clear_protocol_failure_state c) { recovery_successes = 0 }

pub readmit : EndpointHealthRecord → EndpointHealthPolicy → EndpointHealthRecord
readmit r p =
    if p.warmup_duration == 0
    then record r { status = healthy; effective_weight = r.nominal_weight }
    else record r { status = warming; warmup_elapsed = 0; effective_weight = 1 }

pub transition_on_success : EndpointHealthRecord → EndpointHealthPolicy → EndpointHealthRecord
unfolding reset_counters readmit
transition_on_success r p =
    let successes = sat_add32 r.recovery_successes 1 in
    let counted = record r { recovery_successes = successes } in
    if is_ejected r.status
    then r
    else if is_settled r.status
    then reset_counters r
    else if ltb successes p.recovery_success_threshold
    then counted
    else readmit (reset_counters counted) p

pub data HealthSignal : Type 0 where
  active_success active_failure : HealthSignal
  passive_success passive_failure : ProtocolHealthClass → HealthSignal

-- The `match` of `apply_signal`.
pub receive : HealthSignal → EndpointHealthRecord → EndpointHealthPolicy → EndpointHealthRecord
receive active_failure r p =
    transition_on_failures
      (record r { active_failures = sat_add32 r.active_failures 1; recovery_successes = 0 }) p false
receive (passive_failure protocol) r p =
    let a = refresh_passive_failure_aggregate (increment_protocol_failure_counter r protocol) in
    let b = push_passive_result a false p.outlier_window_size in
    let c = record b { recovery_successes = 0 } in
    transition_on_failures c p (passive_failure_triggers_ejection c p)
receive active_success r p = transition_on_success r p
receive (passive_success protocol) r p =
    let a = refresh_passive_failure_aggregate (clear_protocol_failure_counter r protocol) in
    transition_on_success (push_passive_result a true p.outlier_window_size) p

-- An ejection over the cluster's budget is capped at unhealthy.
pub cap_ejection : EndpointHealthRecord → EndpointHealthRecord
cap_ejection r = record r { status = unhealthy; remaining_ejection = 0; effective_weight = 0 }

-- What `advance_time` does to one record: the first step, for an ejected one.
pub advance_ejection : ℕ → EndpointHealthRecord → EndpointHealthRecord × Bool
advance_ejection elapsed r =
    if is_ejected r.status
    then (if leb r.remaining_ejection elapsed
        then (record r { remaining_ejection = 0; status = unhealthy }, true)
        else (record r { remaining_ejection = r.remaining_ejection - elapsed }, false))
    else (r, false)

-- The second step, for a warming one.
pub advance_warmup : EndpointHealthPolicy → ℕ → EndpointHealthRecord → EndpointHealthRecord × Bool
advance_warmup p elapsed r =
    let total = duration_add r.warmup_elapsed elapsed in
    let weight =
      warmup_weight r.nominal_weight total p.warmup_duration p.slow_start_min_weight_percent in
    if is_warming r.status
    then (if leb p.warmup_duration total
        then (
          record r {
            warmup_elapsed = total;
            status = healthy;
            effective_weight = r.nominal_weight;
          },
          true,
        )
        else (record r { warmup_elapsed = total; effective_weight = weight }, false))
    else (r, false)

-- Both steps, with the flags for an expired ejection and a completed warm-up.
pub advance : EndpointHealthPolicy → ℕ → EndpointHealthRecord → EndpointHealthRecord × Bool × Bool
unfolding advance_ejection advance_warmup
advance p elapsed r =
    let (a, expired) = advance_ejection elapsed r in
    let (b, completed) = advance_warmup p elapsed a in (b, expired, completed)
