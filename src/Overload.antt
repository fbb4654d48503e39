-- ===== src/Overload.antt =====
-- crates/runtime/src/overload_management.rs: policy, traffic classes and signals. Brownout has the
-- features that overload turns off, Manager the overload manager.
pub mod Brownout
pub mod Manager
use way_balancer.Base.{
  ℕ, ◌+◌, Bool, true, false, ◌||◌, ltb, leb, ◌==◌, if◌then◌else◌, List, [], ◌∷◌, ◌++◌, Result, ok,
  err, reject, ◌>>◌, ◌>>=◌,
}

pub data TrafficClass : Type 0 where
  critical default best_effort : TrafficClass

pub data OverloadState : Type 0 where
  normal constrained shedding brownout : OverloadState

abbrev pub same_state : OverloadState → OverloadState → Bool
same_state normal normal = true
same_state constrained constrained = true
same_state shedding shedding = true
same_state brownout brownout = true
same_state _ _ = false

pub record OverloadPolicy : Type 0 where
  pub signal_window : ℕ
  pub constrained_signal_threshold : ℕ  -- u64
  pub shedding_signal_threshold : ℕ  -- u64
  pub brownout_signal_threshold : ℕ  -- u64

pub data OverloadManagementError : Type 0 where
  zero_signal_window zero_signal_threshold : OverloadManagementError
  invalid_signal_threshold_order : OverloadManagementError
  empty_brownout_feature_name duplicate_brownout_feature : OverloadManagementError

unfoldable pub validate : OverloadPolicy → Result (Unit {0}) OverloadManagementError
validate p = do
  reject (p.signal_window == 0) zero_signal_window
  reject
      (p.constrained_signal_threshold == 0
        || p.shedding_signal_threshold == 0
        || p.brownout_signal_threshold == 0)
      zero_signal_threshold
  reject
      (ltb p.shedding_signal_threshold p.constrained_signal_threshold
        || ltb p.brownout_signal_threshold p.shedding_signal_threshold)
      invalid_signal_threshold_order
  ok tt

pub data OverloadSignalKind : Type 0 where
  rate_limited concurrency_limited circuit_breaker_open retry_budget_exhausted : OverloadSignalKind

pub record OverloadSignal : Type 0 where
  pub rate_limited : Bool
  pub concurrency_limited : Bool
  pub breaker_open : Bool
  pub retry_budget_exhausted : Bool

-- `u64::from`
abbrev pub from_bool : Bool → ℕ
from_bool b = if b then 1 else 0

pub active_count : OverloadSignal → ℕ
active_count s =
    from_bool s.rate_limited
    + from_bool s.concurrency_limited
    + from_bool s.breaker_open
    + from_bool s.retry_budget_exhausted

-- `if flag { kinds.push(kind) }`
abbrev push_if : Bool → OverloadSignalKind → List OverloadSignalKind → List OverloadSignalKind
push_if b k kinds = if b then kinds ++ k ∷ [] else kinds

pub active_kinds : OverloadSignal → List OverloadSignalKind
active_kinds s = push_if s.retry_budget_exhausted OverloadSignalKind.retry_budget_exhausted (
    push_if s.breaker_open circuit_breaker_open (
      push_if s.concurrency_limited OverloadSignalKind.concurrency_limited
        (push_if s.rate_limited OverloadSignalKind.rate_limited [])))

pub classify_state : OverloadPolicy → ℕ → OverloadState
classify_state p active =
    if leb p.brownout_signal_threshold active
    then brownout
    else if leb p.shedding_signal_threshold active
    then shedding
    else if leb p.constrained_signal_threshold active
    then constrained
    else normal
