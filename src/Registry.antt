-- ===== src/Registry.antt =====
-- `EndpointRegistry` of crates/runtime/src/upstream_registry.rs: clusters by name. Each method holds
-- the lock on the clusters throughout.
pub mod Consistency
pub mod Lookup
mod Tests
use way_balancer.Base.{
  ℕ, ◌+◌, Bool, true, false, not, if◌then◌else◌, List, [], ◌∷◌, length, count, Option, none, some,
  Result, ok, err, ok_or, wrap64, ◌>>=◌,
}
use way_balancer.Base.Order.{list_ord, nat_ord}
use way_balancer.Base.Map.{Map, lookup, contains_key, insert, replace, remove}
use way_balancer.Upstream
use way_balancer.Upstream.{
  UpstreamCluster, UpstreamClusterName, UpstreamEndpoint, UpstreamEndpointId, UpstreamClusterState,
  UpstreamModelError, EndpointState, is_ready, duplicate_endpoint_id,
}

pub record EndpointRegistryMetrics : Type 0 where
  pub cluster_count : ℕ
  pub endpoint_count : ℕ
  pub unavailable_endpoint_count : ℕ
  pub invalid_definition_count : ℕ

pub data EndpointRegistryError : Type 0 where
  duplicate_cluster cluster_not_found : UpstreamClusterName → EndpointRegistryError
  duplicate_endpoint endpoint_not_found :
      UpstreamClusterName → UpstreamEndpointId → EndpointRegistryError
  invalid_definition : UpstreamModelError → EndpointRegistryError

pub record EndpointRegistry : Type 0 where
  pub clusters : Map UpstreamClusterName UpstreamCluster
  pub invalid_definition_count : ℕ

abbrev pub new : EndpointRegistry
new = record { clusters = []; invalid_definition_count = 0 }

pub increment_invalid_definition_count : EndpointRegistry → EndpointRegistry
increment_invalid_definition_count r = record r {
  invalid_definition_count = wrap64 (r.invalid_definition_count + 1);
}

pub insert_cluster :
    EndpointRegistry → UpstreamCluster → EndpointRegistry × Result (Unit {0}) EndpointRegistryError
unfolding increment_invalid_definition_count
insert_cluster r c =
    if contains_key c.name r.clusters
    then (increment_invalid_definition_count r, err (duplicate_cluster c.name))
    else (record r { clusters = insert c.name c r.clusters }, ok tt)

pub remove_cluster :
    EndpointRegistry → UpstreamClusterName → EndpointRegistry × Option UpstreamCluster
remove_cluster r name = (record r { clusters = remove name r.clusters }, lookup name r.clusters)

abbrev pub store : EndpointRegistry → UpstreamClusterName → UpstreamCluster → EndpointRegistry
store r name c = record r { clusters = replace name c r.clusters }

-- How the registry reports the result of an insertion into a cluster.
pub report_insertion :
    UpstreamClusterName
    → UpstreamEndpointId
    → Result (Unit {0}) UpstreamModelError
    → EndpointRegistry
    → EndpointRegistry × Result (Unit {0}) EndpointRegistryError
unfolding increment_invalid_definition_count
report_insertion name id (ok u) r = (r, ok tt)
report_insertion name id (err (duplicate_endpoint_id t)) r =
    (increment_invalid_definition_count r, err (duplicate_endpoint name id))
report_insertion name id (err x) r =
    (increment_invalid_definition_count r, err (invalid_definition x))

pub insert_endpoint :
    EndpointRegistry
    → UpstreamClusterName
    → UpstreamEndpoint
    → EndpointRegistry × Result (Unit {0}) EndpointRegistryError
unfolding report_insertion
insert_endpoint r name e = elim (lookup name r.clusters) [
  | none ↦ (r, err (cluster_not_found name))
  | some c ↦
      let (d, result) = Upstream.insert_endpoint c e in
      report_insertion name e.id result (store r name d)
]

pub remove_endpoint :
    EndpointRegistry
    → UpstreamClusterName
    → UpstreamEndpointId
    → EndpointRegistry × Result UpstreamEndpoint EndpointRegistryError
remove_endpoint r name id = elim (lookup name r.clusters) [
  | none ↦ (r, err (cluster_not_found name))
  | some c ↦
      let (d, removed) = Upstream.remove_endpoint c id in
      (store r name d, ok_or removed (endpoint_not_found name id))
]

pub set_endpoint_state :
    EndpointRegistry
    → UpstreamClusterName
    → UpstreamEndpointId
    → EndpointState
    → EndpointRegistry × Result (Unit {0}) EndpointRegistryError
set_endpoint_state r name id s = elim (lookup name r.clusters) [
  | none ↦ (r, err (cluster_not_found name))
  | some c ↦
      let (d, changed) = Upstream.set_endpoint_state c id s in
      (store r name d, if changed then ok tt else err (endpoint_not_found name id))
]

unfoldable pub cluster : EndpointRegistry → UpstreamClusterName → Option UpstreamCluster
cluster r name = lookup name r.clusters

pub cluster_state :
    EndpointRegistry → UpstreamClusterName → Result UpstreamClusterState EndpointRegistryError
cluster_state r name = do
  c ← ok_or (lookup name r.clusters) (cluster_not_found name)
  ok (Upstream.cluster_state c)

-- The two sums of the loop over the clusters.
pub count_endpoints : Map UpstreamClusterName UpstreamCluster → ℕ × ℕ
count_endpoints [] = (0, 0)
count_endpoints ((name, c) ∷ m) =
    let (all, unready) = count_endpoints m in
    (
      length c.endpoints + all,
      count (λ (e : UpstreamEndpoint). not (is_ready e.state)) c.endpoints + unready,
    )

pub metrics : EndpointRegistry → EndpointRegistryMetrics
metrics r =
    let (all, unready) = count_endpoints r.clusters in
    record {
      cluster_count = length r.clusters;
      endpoint_count = all;
      unavailable_endpoint_count = unready;
      invalid_definition_count = r.invalid_definition_count;
    }
