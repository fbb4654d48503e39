-- ===== src/Registry/Consistency.antt =====
-- What holds of the endpoint registry (crates/runtime/src/upstream_registry.rs) between calls.
use way_balancer.Base.{
  ◌≡◌, List, [], ◌∷◌, some, Result, ok, err, arith, Option-cases, inl, inr, All,
}
use way_balancer.Base.Order.{same_iff, list_ord, nat_ord}
use way_balancer.Base.Map.{lookup, lookup-insert, lookup-replace_at, lookup-remove}
use way_balancer.Upstream.{
  UpstreamCluster, UpstreamClusterName, UpstreamEndpoint, UpstreamEndpointId, EndpointState,
  UpstreamModelError, duplicate_endpoint_id,
}
use way_balancer.Upstream.Validation.{
  IsValidCluster, insert-IsValidCluster, remove-IsValidCluster, set-IsValidCluster, insert-name,
  remove-name, set-name,
}
use way_balancer.Registry.{
  EndpointRegistry, new, insert_cluster, remove_cluster, insert_endpoint, remove_endpoint,
  set_endpoint_state, report_insertion, store,
}

pub data Call : Type 0 where
  add_cluster : UpstreamCluster → Call
  drop_cluster : UpstreamClusterName → Call
  add_endpoint : UpstreamClusterName → UpstreamEndpoint → Call
  drop_endpoint : UpstreamClusterName → UpstreamEndpointId → Call
  change_state : UpstreamClusterName → UpstreamEndpointId → EndpointState → Call

pub step : EndpointRegistry → Call → EndpointRegistry
step r (add_cluster c) = (insert_cluster r c).0
step r (drop_cluster name) = (remove_cluster r name).0
step r (add_endpoint name e) = (insert_endpoint r name e).0
step r (drop_endpoint name id) = (remove_endpoint r name id).0
step r (change_state name id s) = (set_endpoint_state r name id s).0

pub run : EndpointRegistry → List Call → EndpointRegistry
run r [] = r
run r (c ∷ cs) = run (step r c) cs

-- Every cluster is valid and stands under its own name.
pub record Inv (r : EndpointRegistry) : Type 0 where
  pub clusters_valid :
      (name : UpstreamClusterName) (c : UpstreamCluster)
      → lookup name r.clusters ≡ some c
      → IsValidCluster c × (c.name ≡ name)

-- The clusters handed to the registry were built by `UpstreamCluster::new`, or are valid like one.
abbrev pub IsSound : Call → Type 0
IsSound (add_cluster c) = IsValidCluster c
IsSound _ = Unit {0}

store-Inv :
    (r : EndpointRegistry) (name : UpstreamClusterName) (c d : UpstreamCluster)
    → Inv r
    → lookup name r.clusters ≡ some c
    → IsValidCluster d
    → d.name ≡ c.name
    → Inv (store r name d)
store-Inv r name c d v e w n = record {
  clusters_valid = λ i x h. ground (
    arith,
    same_iff name i,
    lookup-replace_at name i d c r.clusters e,
    v.clusters_valid name c e,
    v.clusters_valid i x,
  );
}

pub insert_cluster-Inv :
    (r : EndpointRegistry) (c : UpstreamCluster)
    → IsValidCluster c
    → Inv r
    → Inv (insert_cluster r c).0
unfolding insert_cluster
insert_cluster-Inv r c w v = record {
  clusters_valid = λ i x h.
      ground (arith, same_iff c.name i, lookup-insert c.name i c r.clusters, v.clusters_valid i x);
}

pub remove_cluster-Inv :
    (r : EndpointRegistry) (name : UpstreamClusterName) → Inv r → Inv (remove_cluster r name).0
unfolding remove_cluster
remove_cluster-Inv r name v = record {
  clusters_valid = λ i x h. ground (arith, lookup-remove name i r.clusters, v.clusters_valid i x);
}

report_insertion-Inv :
    (name : UpstreamClusterName) (id : UpstreamEndpointId)
    (result : Result (Unit {0}) UpstreamModelError) (r : EndpointRegistry)
    → Inv r
    → Inv (report_insertion name id result r).0
unfolding report_insertion
report_insertion-Inv name id (ok u) r v = v
report_insertion-Inv name id (err (duplicate_endpoint_id t)) r v = record {
  clusters_valid = v.clusters_valid;
}
report_insertion-Inv name id (err _) r v = record { clusters_valid = v.clusters_valid }

pub insert_endpoint-Inv :
    (r : EndpointRegistry) (name : UpstreamClusterName) (e : UpstreamEndpoint)
    → Inv r
    → Inv (insert_endpoint r name e).0
unfolding insert_endpoint
insert_endpoint-Inv r name e v = elim (Option-cases (lookup name r.clusters)) [
  | inl h ↦ rw (h, insert_endpoint) v
  | inr (c, h) ↦
      let w = (v.clusters_valid name c h).0 in
      rw (h, insert_endpoint)
        (report_insertion-Inv name e.id _ _
          (store-Inv r name c _ v h (insert-IsValidCluster c e w) (insert-name c e)))
]

pub remove_endpoint-Inv :
    (r : EndpointRegistry) (name : UpstreamClusterName) (id : UpstreamEndpointId)
    → Inv r
    → Inv (remove_endpoint r name id).0
unfolding remove_endpoint
remove_endpoint-Inv r name id v = elim (Option-cases (lookup name r.clusters)) [
  | inl h ↦ rw (h, remove_endpoint) v
  | inr (c, h) ↦
      rw (h, remove_endpoint)
        (store-Inv r name c _ v h (remove-IsValidCluster c id (v.clusters_valid name c h).0)
          (remove-name c id))
]

pub set_endpoint_state-Inv :
    (r : EndpointRegistry) (name : UpstreamClusterName) (id : UpstreamEndpointId)
    (s : EndpointState)
    → Inv r
    → Inv (set_endpoint_state r name id s).0
unfolding set_endpoint_state
set_endpoint_state-Inv r name id s v = elim (Option-cases (lookup name r.clusters)) [
  | inl h ↦ rw (h, set_endpoint_state) v
  | inr (c, h) ↦
      rw (h, set_endpoint_state)
        (store-Inv r name c _ v h (set-IsValidCluster c id s (v.clusters_valid name c h).0)
          (set-name c id s))
]

step-Inv : (r : EndpointRegistry) (c : Call) → IsSound c → Inv r → Inv (step r c)
unfolding step
step-Inv r (add_cluster c) w v = insert_cluster-Inv r c w v
step-Inv r (drop_cluster name) w v = remove_cluster-Inv r name v
step-Inv r (add_endpoint name e) w v = insert_endpoint-Inv r name e v
step-Inv r (drop_endpoint name id) w v = remove_endpoint-Inv r name id v
step-Inv r (change_state name id s) w v = set_endpoint_state-Inv r name id s v

run-Inv : (r : EndpointRegistry) (cs : List Call) → All IsSound cs → Inv r → Inv (run r cs)
unfolding run
run-Inv r [] w v = v
run-Inv r (c ∷ cs) w v = run-Inv (step r c) cs w.1 (step-Inv r c w.0 v)

pub empty-Inv : Inv new
unfolding lookup
empty-Inv = record { clusters_valid = λ i x h. cc }

-- Starting from an empty registry, after any calls that add only valid clusters, every cluster found
-- is valid, with pairwise different endpoint identifiers, and is found under its own name.
pub registry_stays_valid : (cs : List Call) → All IsSound cs → Inv (run new cs)
registry_stays_valid cs w = run-Inv new cs w empty-Inv
