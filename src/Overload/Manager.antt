-- ===== src/Overload/Manager.antt =====
-- `OverloadManager` of crates/runtime/src/overload_management.rs. The lock on the state makes each
-- method one step, but `decide` takes it twice, and so has two.
pub mod Window
pub mod History
pub mod Shedding
mod Tests
use Prim.Native.Nat.{compare}
use way_balancer.Base.{
  ℕ, ◌+◌, ◌-◌, Bool, true, false, not, ◌&&◌, ltb, if◌then◌else◌, List, [], ◌∷◌, ◌++◌, is_empty,
  length, Option, none, some, Result, ok, ◌>>=◌, ◌>>◌, wrap64, push_bounded, unwrap_or, arith, ◌≡◌,
  ◌↔◌,
}
use way_balancer.Base.Order.{Ord, same, list_ord, nat_ord}
use way_balancer.Base.Map.{Map, lookup, insert}
use way_balancer.Base.Text.{Text, codes}
use way_balancer.Overload.{
  TrafficClass, critical, default, best_effort, OverloadState, normal, constrained, shedding,
  brownout, same_state, OverloadPolicy, OverloadManagementError, OverloadSignal, OverloadSignalKind,
  active_kinds, classify_state, validate,
}
use way_balancer.Overload.Brownout.{BrownoutHookRegistry, NameSet, disabled_features_for}
use Prim.Native.Nat.{Ordering}

abbrev pub ordinal : OverloadSignalKind → ℕ
ordinal OverloadSignalKind.rate_limited = 0
ordinal OverloadSignalKind.concurrency_limited = 1
ordinal OverloadSignalKind.circuit_breaker_open = 2
ordinal OverloadSignalKind.retry_budget_exhausted = 3

pub kind_iff :
    (a b : OverloadSignalKind) → (compare (ordinal a) (ordinal b) ≡ Ordering.eq) ↔ (a ≡ b)
kind_iff a b = ground arith

instance abbrev pub kind_ord : Ord OverloadSignalKind
kind_ord = record { cmp = λ a b. compare (ordinal a) (ordinal b); cmp_iff = kind_iff }

pub data SheddingAction : Type 0 where
  allow shed : SheddingAction

pub data ShedReason : Type 0 where
  priority_drop brownout_active : ShedReason

pub record SheddingDecision : Type 0 where
  pub action : SheddingAction
  pub state : OverloadState
  pub reason : Option ShedReason

abbrev pub SignalCounts : Type 0
SignalCounts = Map OverloadSignalKind ℕ

pub record OverloadSnapshot : Type 0 where
  pub state : OverloadState
  pub active_signal_count : ℕ
  pub rate_limited_count : ℕ
  pub concurrency_limited_count : ℕ
  pub breaker_open_count : ℕ
  pub retry_budget_exhausted_count : ℕ
  pub shed_request_count : ℕ
  pub brownout_feature_count : ℕ

pub record OverloadMetrics : Type 0 where
  pub state_change_count : ℕ
  pub shed_request_count : ℕ
  pub brownout_activation_count : ℕ
  pub signal_counts : SignalCounts

pub record SignalSample : Type 0 where
  pub observed_at : ℕ
  pub signal : OverloadSignal

pub data OverloadEventKind : Type 0 where
  state_changed request_shed brownout_features_changed : OverloadEventKind

pub record OverloadEvent : Type 0 where
  pub kind : OverloadEventKind
  pub scope : Text
  pub detail : Text

pub record OverloadManager : Type 0 where
  pub policy : OverloadPolicy
  pub hooks : BrownoutHookRegistry
  pub state : OverloadState
  pub samples : List SignalSample
  pub disabled_features : NameSet
  pub state_change_count : ℕ
  pub shed_request_count : ℕ
  pub brownout_activation_count : ℕ
  pub events : List OverloadEvent

pub new : OverloadPolicy → BrownoutHookRegistry → Result OverloadManager OverloadManagementError
new p hooks = do
  validate p
  ok (record {
    policy = p;
    hooks = hooks;
    state = normal;
    samples = [];
    disabled_features = [];
    state_change_count = 0;
    shed_request_count = 0;
    brownout_activation_count = 0;
    events = [];
  })

abbrev pub max_overload_events : ℕ
max_overload_events = 64

push_overload_event : OverloadEventKind → Text → List OverloadEvent → List OverloadEvent
push_overload_event kind detail events =
    push_bounded max_overload_events
      (record { kind = kind; scope = codes "dataplane"; detail = detail }) events

pub evict_old_samples : OverloadPolicy → ℕ → List SignalSample → List SignalSample
evict_old_samples p now [] = []
evict_old_samples p now (x ∷ xs) =
    let rest = evict_old_samples p now xs in
    if ltb (now - x.observed_at) p.signal_window then x ∷ xs else rest

-- `*counts.entry(kind).or_insert(0) += 1`
pub count_kind : OverloadSignalKind → SignalCounts → SignalCounts
count_kind k m = insert k (wrap64 (unwrap_or (lookup k m) 0 + 1)) m

pub count_kinds : List OverloadSignalKind → SignalCounts → SignalCounts
count_kinds [] m = m
count_kinds (k ∷ ks) m = count_kinds ks (count_kind k m)

pub count_samples : List SignalSample → SignalCounts → SignalCounts
count_samples [] m = m
count_samples (x ∷ xs) m = count_samples xs (count_kinds (active_kinds x.signal) m)

pub aggregate_signal_counts : List SignalSample → SignalCounts
aggregate_signal_counts xs = count_samples xs []

-- `values().sum()`
pub sum_counts : SignalCounts → ℕ
sum_counts [] = 0
sum_counts ((k, n) ∷ m) = wrap64 (n + sum_counts m)

-- `{:?}`
abbrev debug_state : OverloadState → Text
debug_state normal = codes "Normal"
debug_state constrained = codes "Constrained"
debug_state shedding = codes "Shedding"
debug_state brownout = codes "Brownout"

abbrev debug_class : TrafficClass → Text
debug_class critical = codes "Critical"
debug_class default = codes "Default"
debug_class best_effort = codes "BestEffort"

-- `join(",")`
abbrev join_names : List Text → Text
join_names [] = []
join_names (t ∷ []) = t
join_names (t ∷ u ∷ us) = t ++ codes "," ++ join_names (u ∷ us)

-- The first part of `record_signal`: the sample, the eviction, and the state of the signals left.
pub observe : OverloadManager → ℕ → OverloadSignal → OverloadManager
unfolding push_overload_event
observe m now signal =
    let samples =
      evict_old_samples m.policy now
        (m.samples ++ record { observed_at = now; signal = signal } ∷ []) in
    let next = classify_state m.policy (sum_counts (aggregate_signal_counts samples)) in
    if same_state next m.state then record m { samples = samples } else record m {
      samples = samples;
      state = next;
      state_change_count = wrap64 (m.state_change_count + 1);
      events =
          push_overload_event state_changed
            (codes "overload state transitioned to " ++ debug_state next) m.events;
    }

-- The second part: the features that the state turns off.
pub apply_brownout : OverloadManager → OverloadManager
unfolding push_overload_event
apply_brownout m =
    let disabled = disabled_features_for m.hooks m.state in
    if same disabled m.disabled_features then m else record m {
      disabled_features = disabled;
      brownout_activation_count =
          if not (is_empty disabled) && is_empty m.disabled_features
          then wrap64 (m.brownout_activation_count + 1)
          else m.brownout_activation_count;
      events =
          if is_empty disabled
          then m.events
          else push_overload_event brownout_features_changed
              (codes "brownout features disabled: " ++ join_names disabled) m.events;
    }

pub snapshot_of : OverloadManager → OverloadSnapshot
snapshot_of m =
    let counts = aggregate_signal_counts m.samples in
    record {
      state = m.state;
      active_signal_count = sum_counts counts;
      rate_limited_count = unwrap_or (lookup OverloadSignalKind.rate_limited counts) 0;
      concurrency_limited_count =
          unwrap_or (lookup OverloadSignalKind.concurrency_limited counts) 0;
      breaker_open_count = unwrap_or (lookup OverloadSignalKind.circuit_breaker_open counts) 0;
      retry_budget_exhausted_count =
          unwrap_or (lookup OverloadSignalKind.retry_budget_exhausted counts) 0;
      shed_request_count = m.shed_request_count;
      brownout_feature_count = length m.disabled_features;
    }

pub record_signal : OverloadManager → ℕ → OverloadSignal → OverloadManager × OverloadSnapshot
record_signal m now signal = let n = apply_brownout (observe m now signal) in (n, snapshot_of n)

pub action_in : OverloadState → TrafficClass → SheddingAction
action_in normal c = allow
action_in constrained best_effort = shed
action_in constrained _ = allow
action_in shedding critical = allow
action_in shedding _ = shed
action_in brownout critical = allow
action_in brownout _ = shed

pub reason_for : OverloadState → SheddingAction → Option ShedReason
reason_for s allow = none
reason_for brownout shed = some brownout_active
reason_for _ shed = some priority_drop

pub count_shed : OverloadManager → TrafficClass → SheddingAction → OverloadManager
unfolding push_overload_event
count_shed m c allow = m
count_shed m c shed = record m {
  shed_request_count = wrap64 (m.shed_request_count + 1);
  events =
      push_overload_event request_shed
        (codes "shed " ++ debug_class c ++ codes " traffic under overload") m.events;
}

-- `decide`, where `between` is what other calls do after the lock is released and before it is taken
-- again for the state that is reported.
pub decide :
    (OverloadManager → OverloadManager)
    → OverloadManager
    → TrafficClass
    → OverloadManager × SheddingDecision
decide between m c =
    let action = action_in m.state c in
    let reason = reason_for m.state action in
    let n = between (count_shed m c action) in
    (n, record { action = action; state = n.state; reason = reason })

abbrev pub disabled_features : OverloadManager → NameSet
disabled_features m = m.disabled_features

abbrev pub current_state : OverloadManager → OverloadState
current_state m = m.state

pub snapshot : OverloadManager → ℕ → OverloadManager × OverloadSnapshot
snapshot m now =
    let n = record m { samples = evict_old_samples m.policy now m.samples } in (n, snapshot_of n)

pub metrics : OverloadManager → ℕ → OverloadManager × OverloadMetrics
metrics m now =
    let n = record m { samples = evict_old_samples m.policy now m.samples } in
    (
      n,
      record {
        state_change_count = n.state_change_count;
        shed_request_count = n.shed_request_count;
        brownout_activation_count = n.brownout_activation_count;
        signal_counts = aggregate_signal_counts n.samples;
      },
    )

abbrev pub recent_events : OverloadManager → List OverloadEvent
recent_events m = m.events
