-- ===== src/Health/Tracking.antt =====
-- `UpstreamHealthRegistry` of crates/runtime/src/upstream_health.rs: the endpoint registry with a
-- health record for each endpoint. The topology and record locks make each method one step.
pub mod Agreement
pub mod Ejections
pub mod Validity
pub mod Runs
mod Tests
use Prim.Native.String.{String}
use way_balancer.Base.{
  ℕ, ◌+◌, Bool, true, false, not, ◌&&◌, ◌||◌, ◌==◌, if◌then◌else◌, List, [], ◌∷◌, ◌++◌, length,
  filter, count, Option, none, some, Result, ok, err, ok_or, map_err, ◌>>=◌, ◌>>◌, wrap64, is_some,
}
use way_balancer.Base.Order.{same, below, list_ord, nat_ord, pair_ord}
use way_balancer.Base.Map.{Map, lookup, insert, replace, remove}
use way_balancer.Address.{SocketAddr}
use way_balancer.Upstream
use way_balancer.Upstream.{
  UpstreamCluster, UpstreamClusterName, UpstreamEndpoint, UpstreamEndpointId, UpstreamClusterState,
  EndpointState, EndpointMetadata, is_ready,
}
use way_balancer.Registry
use way_balancer.Registry.{EndpointRegistry, cluster_not_found}
use way_balancer.Health.{
  EndpointHealthPolicy, EndpointHealthStatus, EndpointHealthSnapshot, ProtocolHealthClass, generic,
  UpstreamHealthError, registry_error, inconsistent_state, endpoint_not_tracked, is_available,
  is_ejected, is_warming, same_status, healthy, degraded, unhealthy, ejected, warming,
}
use way_balancer.Health.Events.{
  UpstreamHealthEvent, UpstreamHealthEventKind, warmup_started, warmup_completed, recovery_started,
  recovered, push_event,
}
use way_balancer.Health.Record
use way_balancer.Health.Record.{
  EndpointHealthRecord, HealthSignal, active_success, active_failure, passive_success,
  passive_failure, receive, cap_ejection, advance, snapshot,
}
use way_balancer.Health.Budget.{EndpointKey, Records, can_apply_ejection_budget}

-- The six counters of `MetricsState`.
pub record MetricsState : Type 0 where
  pub active_success_count : ℕ
  pub active_failure_count : ℕ
  pub passive_success_count : ℕ
  pub passive_failure_count : ℕ
  pub state_change_count : ℕ
  pub ejection_count : ℕ

pub record UpstreamHealthRegistry : Type 0 where
  pub registry : EndpointRegistry
  pub policy : EndpointHealthPolicy
  pub records : Records
  pub events : List UpstreamHealthEvent
  pub counters : MetricsState

pub new : EndpointHealthPolicy → UpstreamHealthRegistry
new p = record {
  registry = Registry.new;
  policy = p;
  records = [];
  events = [];
  counters = record {
    active_success_count = 0;
    active_failure_count = 0;
    passive_success_count = 0;
    passive_failure_count = 0;
    state_change_count = 0;
    ejection_count = 0;
  };
}

-- Registers a record for an endpoint, with its event if the endpoint starts warming.
pub admit : UpstreamHealthRegistry → UpstreamClusterName → UpstreamEndpoint → UpstreamHealthRegistry
admit h name e =
    let r = Record.new e h.policy in
    record h {
      records = insert (name, e.id) r h.records;
      events =
          if is_warming r.status
          then push_event warmup_started name e.id "endpoint admitted in warm-up mode" h.events
          else h.events;
    }

pub admit_all :
    UpstreamClusterName → List UpstreamEndpoint → UpstreamHealthRegistry → UpstreamHealthRegistry
admit_all name [] h = h
admit_all name (e ∷ es) h = admit_all name es (admit h name e)

pub insert_cluster :
    UpstreamHealthRegistry
    → UpstreamCluster
    → UpstreamHealthRegistry × Result (Unit {0}) UpstreamHealthError
insert_cluster h c =
    let (registry, result) = Registry.insert_cluster h.registry c in
    let h' = record h { registry = registry } in
    elim result [
      | ok u ↦ (admit_all c.name c.endpoints h', ok tt)
      | err x ↦ (h', err (registry_error x))
    ]

pub remove_cluster :
    UpstreamHealthRegistry → UpstreamClusterName → UpstreamHealthRegistry × Option UpstreamCluster
remove_cluster h name =
    let (registry, removed) = Registry.remove_cluster h.registry name in
    let records =
      if is_some removed
      then filter (λ (x : EndpointKey × EndpointHealthRecord). not (same x.0.0 name)) h.records
      else h.records in
    (record h { registry = registry; records = records }, removed)

pub insert_endpoint :
    UpstreamHealthRegistry
    → UpstreamClusterName
    → UpstreamEndpoint
    → UpstreamHealthRegistry × Result (Unit {0}) UpstreamHealthError
insert_endpoint h name e =
    let (registry, result) = Registry.insert_endpoint h.registry name e in
    let h' = record h { registry = registry } in
    elim result [ ok u ↦ (admit h' name e, ok tt) | err x ↦ (h', err (registry_error x)) ]

pub remove_endpoint :
    UpstreamHealthRegistry
    → UpstreamClusterName
    → UpstreamEndpointId
    → UpstreamHealthRegistry × Result UpstreamEndpoint UpstreamHealthError
remove_endpoint h name id =
    let (registry, result) = Registry.remove_endpoint h.registry name id in
    let h' = record h { registry = registry } in
    elim result [
      | ok e ↦ (record h' { records = remove (name, id) h.records }, ok e)
      | err x ↦ (h', err (registry_error x))
    ]

pub set_endpoint_state :
    UpstreamHealthRegistry
    → UpstreamClusterName
    → UpstreamEndpointId
    → EndpointState
    → UpstreamHealthRegistry × Result (Unit {0}) UpstreamHealthError
set_endpoint_state h name id s =
    let (registry, result) = Registry.set_endpoint_state h.registry name id s in
    (record h { registry = registry }, map_err registry_error result)

event_kind : EndpointHealthStatus → UpstreamHealthEventKind × String
event_kind degraded = (UpstreamHealthEventKind.degraded, "endpoint entered degraded health state")
event_kind unhealthy =
    (UpstreamHealthEventKind.unhealthy, "endpoint became unhealthy and is excluded from traffic")
event_kind ejected =
    (UpstreamHealthEventKind.ejected, "endpoint was ejected after repeated failures")
event_kind warming = (warmup_started, "endpoint re-entered warm-up after recovery")
event_kind healthy = (recovered, "endpoint recovered and is fully healthy")

-- The record after a signal and after the cluster's budget. The source writes the first, looks it
-- up again under the same lock, and overwrites it if the budget is exhausted.
pub settle :
    UpstreamHealthRegistry
    → EndpointKey
    → HealthSignal
    → EndpointHealthRecord
    → EndpointHealthRecord
settle h key signal r =
    let received = receive signal r h.policy in
    let written = replace key received h.records in
    if is_ejected received.status
      && not (is_ejected r.status)
      && not (can_apply_ejection_budget written key.0 key.1 h.policy)
    then cap_ejection received
    else received

-- The counters after a signal that took a record from one status to another.
count_change : EndpointHealthStatus → EndpointHealthStatus → MetricsState → MetricsState
count_change old current m = if same_status old current then m else record m {
  state_change_count = wrap64 (m.state_change_count + 1);
  ejection_count = if is_ejected current then wrap64 (m.ejection_count + 1) else m.ejection_count;
}

pub apply_signal :
    UpstreamHealthRegistry
    → UpstreamClusterName
    → UpstreamEndpointId
    → HealthSignal
    → UpstreamHealthRegistry × Result EndpointHealthSnapshot UpstreamHealthError
unfolding count_change event_kind
apply_signal h name id signal = elim (lookup (name, id) h.records) [
  | none ↦ (h, err (endpoint_not_tracked name id))
  | some r ↦
      let q = settle h (name, id) signal r in
      let (kind, detail) = event_kind q.status in
      (
        record h {
          records = replace (name, id) q h.records;
          counters = count_change r.status q.status h.counters;
          events =
              if same_status r.status q.status
              then h.events
              else push_event kind name id detail h.events;
        },
        ok (snapshot q h.policy),
      )
]

-- The counter of a signal.
count_signal : HealthSignal → MetricsState → MetricsState
count_signal active_success m = record m {
  active_success_count = wrap64 (m.active_success_count + 1);
}
count_signal active_failure m = record m {
  active_failure_count = wrap64 (m.active_failure_count + 1);
}
count_signal (passive_success p) m = record m {
  passive_success_count = wrap64 (m.passive_success_count + 1);
}
count_signal (passive_failure p) m = record m {
  passive_failure_count = wrap64 (m.passive_failure_count + 1);
}

-- `note_active_success`, `note_active_failure` and the two `note_passive_…_for_protocol`: one
-- counter, then the signal.
pub note :
    UpstreamHealthRegistry
    → UpstreamClusterName
    → UpstreamEndpointId
    → HealthSignal
    → UpstreamHealthRegistry × Result EndpointHealthSnapshot UpstreamHealthError
unfolding count_signal
note h name id signal =
    apply_signal (record h { counters = count_signal signal h.counters }) name id signal

abbrev pub note_passive_success :
    UpstreamHealthRegistry
    → UpstreamClusterName
    → UpstreamEndpointId
    → UpstreamHealthRegistry × Result EndpointHealthSnapshot UpstreamHealthError
note_passive_success h name id = note h name id (passive_success generic)

abbrev pub note_passive_failure :
    UpstreamHealthRegistry
    → UpstreamClusterName
    → UpstreamEndpointId
    → UpstreamHealthRegistry × Result EndpointHealthSnapshot UpstreamHealthError
note_passive_failure h name id = note h name id (passive_failure generic)

-- The loop of `advance_time`: the records, then the keys of the expired ejections and of the
-- completed warm-ups, in the order of the map.
pub advance_records :
    EndpointHealthPolicy → ℕ → Records → Records × List EndpointKey × List EndpointKey
advance_records p elapsed [] = ([], [], [])
advance_records p elapsed ((key, r) ∷ m) =
    let (rest, expired, completed) = advance_records p elapsed m in
    let (q, expires, completes) = advance p elapsed r in
    (
      (key, q) ∷ rest,
      if expires then key ∷ expired else expired,
      if completes then key ∷ completed else completed,
    )

push_events :
    UpstreamHealthEventKind
    → String
    → List EndpointKey
    → List UpstreamHealthEvent
    → List UpstreamHealthEvent
push_events kind detail [] events = events
push_events kind detail ((name, id) ∷ keys) events =
    push_events kind detail keys (push_event kind name id detail events)

pub advance_time : UpstreamHealthRegistry → ℕ → UpstreamHealthRegistry
unfolding push_events
advance_time h elapsed =
    let (records, expired, completed) = advance_records h.policy elapsed h.records in
    let changes = length expired + length completed in
    if elapsed == 0 then h else record h {
      records = records;
      counters = record (h.counters) {
        state_change_count = wrap64 (h.counters.state_change_count + changes);
      };
      events =
          push_events warmup_completed "endpoint completed warm-up and is fully admitted" completed
            (push_events recovery_started "endpoint ejection expired and recovery checks may resume"
              expired h.events);
    }
