-- ===== src/Health/Queries.antt =====
-- The queries of `UpstreamHealthRegistry` in crates/runtime/src/upstream_health.rs: effective cluster
-- state, endpoint health, selection candidates and metrics.
pub mod Candidates
pub mod Samples
mod Tests
use way_balancer.Base.{
  ℕ, ◌+◌, Bool, true, false, not, ◌&&◌, ◌||◌, ◌==◌, if◌then◌else◌, List, [], ◌∷◌, length, count,
  Option, none, some, Result, ok, err, ok_or, ◌>>=◌, ◌>>◌,
}
use way_balancer.Base.Order.{same, below, list_ord, nat_ord, pair_ord}
use way_balancer.Base.Map.{Map, lookup}
use way_balancer.Address.{SocketAddr}
use way_balancer.Upstream
use way_balancer.Upstream.{
  UpstreamClusterName, UpstreamEndpoint, UpstreamEndpointId, UpstreamClusterState, EndpointMetadata,
  is_ready,
}
use way_balancer.Registry
use way_balancer.Registry.{cluster_not_found}
use way_balancer.Upstream.{UpstreamCluster}
use way_balancer.Health.{
  EndpointHealthStatus, EndpointHealthSnapshot, UpstreamHealthError, registry_error,
  inconsistent_state, endpoint_not_tracked, is_available, is_ejected, is_warming, healthy, degraded,
  unhealthy, ejected, warming, same_status,
}
use way_balancer.Health.Record.{EndpointHealthRecord, snapshot}
use way_balancer.Health.Events.{UpstreamHealthEvent}
use way_balancer.Health.Budget.{EndpointKey, Records}
use way_balancer.Health.Tracking.{UpstreamHealthRegistry, MetricsState}

pub find_cluster :
    UpstreamHealthRegistry → UpstreamClusterName → Result UpstreamCluster UpstreamHealthError
find_cluster h name =
    ok_or (Registry.cluster h.registry name) (registry_error (cluster_not_found name))

pub find_record :
    UpstreamHealthRegistry
    → UpstreamClusterName
    → UpstreamEndpointId
    → Result EndpointHealthRecord UpstreamHealthError
find_record h name id = ok_or (lookup (name, id) h.records) (inconsistent_state name id)

-- The loop that counts the endpoints ready and available.
pub count_ready :
    UpstreamHealthRegistry
    → UpstreamClusterName
    → List UpstreamEndpoint
    → Result ℕ UpstreamHealthError
count_ready h name [] = ok 0
count_ready h name (e ∷ es) = do
  r ← find_record h name e.id
  n ← count_ready h name es
  ok ((if is_ready e.state && is_available r.status then 1 else 0) + n)

classify : ℕ → ℕ → UpstreamClusterState
classify total n =
    if n == 0 then UpstreamClusterState.unavailable total else UpstreamClusterState.ready total n

pub cluster_state :
    UpstreamHealthRegistry → UpstreamClusterName → Result UpstreamClusterState UpstreamHealthError
unfolding classify
cluster_state h name = do
  c ← find_cluster h name
  let total = length c.endpoints
  if total == 0
      then ok UpstreamClusterState.empty
      else (do n ← count_ready h name c.endpoints; ok (classify total n))

pub endpoint_health :
    UpstreamHealthRegistry
    → UpstreamClusterName
    → UpstreamEndpointId
    → Result EndpointHealthSnapshot UpstreamHealthError
endpoint_health h name id = do
  c ← find_cluster h name
  e ← ok_or (Upstream.endpoint c id) (endpoint_not_tracked name id)
  r ← find_record h name id
  ok (snapshot r h.policy)

pub record EndpointSelectionCandidate : Type 0 where
  pub cluster_name : UpstreamClusterName
  pub endpoint_id : UpstreamEndpointId
  pub address : SocketAddr
  pub metadata : EndpointMetadata
  pub health : EndpointHealthSnapshot

-- Whether traffic may go to an endpoint with this status.
abbrev pub is_allowed : Bool → EndpointHealthStatus → Bool
is_allowed include_unhealthy s = is_available s || (include_unhealthy && same_status s unhealthy)

pub candidate :
    UpstreamHealthRegistry
    → UpstreamClusterName
    → UpstreamEndpoint
    → EndpointHealthRecord
    → EndpointSelectionCandidate
candidate h name e r = record {
  cluster_name = name;
  endpoint_id = e.id;
  address = e.address;
  metadata = e.metadata;
  health = snapshot r h.policy;
}

-- The loop over the endpoints of the cluster.
pub collect :
    UpstreamHealthRegistry
    → UpstreamClusterName
    → Bool
    → List UpstreamEndpoint
    → Result (List EndpointSelectionCandidate) UpstreamHealthError
collect h name include_unhealthy [] = ok []
collect h name include_unhealthy (e ∷ es) =
    let rest = collect h name include_unhealthy es in
    if not (is_ready e.state) then rest else (do
      r ← find_record h name e.id
      cs ← rest
      ok (if is_allowed include_unhealthy r.status then candidate h name e r ∷ cs else cs))

-- The stable `sort_by` on the identifiers, as an insertion sort.
pub place :
    EndpointSelectionCandidate → List EndpointSelectionCandidate → List EndpointSelectionCandidate
place c [] = c ∷ []
place c (d ∷ ds) = if below d.endpoint_id c.endpoint_id then d ∷ place c ds else c ∷ d ∷ ds

pub sort_by_id : List EndpointSelectionCandidate → List EndpointSelectionCandidate
unfolding place
sort_by_id [] = []
sort_by_id (c ∷ cs) = place c (sort_by_id cs)

pub selection_candidates :
    UpstreamHealthRegistry
    → UpstreamClusterName
    → Bool
    → Result (List EndpointSelectionCandidate) UpstreamHealthError
selection_candidates h name include_unhealthy = do
  c ← find_cluster h name
  cs ← collect h name include_unhealthy c.endpoints
  ok (sort_by_id cs)

pub record UpstreamHealthMetrics : Type 0 where
  pub counters : MetricsState
  pub degraded_endpoint_count : ℕ
  pub unhealthy_endpoint_count : ℕ
  pub ejected_endpoint_count : ℕ
  pub warming_endpoint_count : ℕ

-- How many records have a status.
abbrev pub count_status : EndpointHealthStatus → Records → ℕ
count_status s m = count (λ (x : EndpointKey × EndpointHealthRecord). same_status x.1.status s) m

pub metrics : UpstreamHealthRegistry → UpstreamHealthMetrics
metrics h = record {
  counters = h.counters;
  degraded_endpoint_count = count_status degraded h.records;
  unhealthy_endpoint_count = count_status unhealthy h.records;
  ejected_endpoint_count = count_status ejected h.records;
  warming_endpoint_count = count_status warming h.records;
}

abbrev pub recent_events : UpstreamHealthRegistry → List UpstreamHealthEvent
recent_events h = h.events
