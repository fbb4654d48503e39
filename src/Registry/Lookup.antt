-- ===== src/Registry/Lookup.antt =====
-- What the endpoint registry (crates/runtime/src/upstream_registry.rs) finds after a call, and the
-- errors it reports.
use way_balancer.Base.{
  ◌≡◌, ◌≢◌, ◌↔◌, ok_or, refl, ◌⊎◌, inl, inr, not, ◌&&◌, Option, none, some, Result, ok, err, arith,
  Option-cases, if◌then◌else◌, is_some,
}
use way_balancer.Base.Order.{same, same_iff, same_refl, list_ord, nat_ord}
use way_balancer.Base.Map.{lookup, lookup-replace_at, lookup-insert, lookup-remove}
use way_balancer.Upstream
use way_balancer.Upstream.{
  UpstreamCluster, UpstreamClusterName, UpstreamEndpoint, UpstreamEndpointId, EndpointState,
  endpoint, UpstreamModelError, duplicate_endpoint_id,
}
use way_balancer.Upstream.Clusters.{
  endpoint-insert, endpoint-remove, restated, differs, endpoint-set_endpoint_state,
}
use way_balancer.Upstream.{validate_endpoint}
use way_balancer.Upstream.Validation.{IsValidEndpoint, validate_endpoint_iff}
use way_balancer.Registry.{
  new, EndpointRegistry, cluster, set_endpoint_state, endpoint_not_found, cluster_not_found, store,
  insert_cluster, remove_cluster, insert_endpoint, remove_endpoint, duplicate_cluster,
  report_insertion, increment_invalid_definition_count,
}
use way_balancer.Registry.Consistency.{Inv}

-- The endpoint of a cluster, if both are there.
abbrev pub tracked :
    EndpointRegistry → UpstreamClusterName → UpstreamEndpointId → Option UpstreamEndpoint
tracked r name id = elim (cluster r name) [ none ↦ none | some c ↦ endpoint c id ]

-- An accepted cluster answers for its name with its endpoints; a refused one leaves every answer. It
-- is accepted exactly if the name is free.
pub tracked-insert_cluster :
    (r : EndpointRegistry) (c : UpstreamCluster) (i : UpstreamClusterName) (j : UpstreamEndpointId)
    → let (q, result) = insert_cluster r c in
      (result ≡ (if is_some (cluster r c.name) then err (duplicate_cluster c.name) else ok tt))
      × (tracked q i j ≡ (
          if same c.name i && not (is_some (cluster r c.name))
          then endpoint c j
          else tracked r i j))
unfolding insert_cluster cluster increment_invalid_definition_count
tracked-insert_cluster r c i j =
    ground (arith, same_iff c.name i, lookup-insert c.name i c r.clusters)

-- Removing a cluster returns it, and its endpoints are no longer there.
pub tracked-remove_cluster :
    (r : EndpointRegistry) (name i : UpstreamClusterName) (j : UpstreamEndpointId)
    → let (q, removed) = remove_cluster r name in
      (removed ≡ cluster r name) × (tracked q i j ≡ (if same name i then none else tracked r i j))
unfolding remove_cluster cluster
tracked-remove_cluster r name i j = ground (arith, lookup-remove name i r.clusters)

report_insertion-clusters :
    (name : UpstreamClusterName) (id : UpstreamEndpointId)
    (result : Result (Unit {0}) UpstreamModelError) (r : EndpointRegistry)
    → ((report_insertion name id result r).0.clusters ≡ r.clusters)
      × (((report_insertion name id result r).1 ≡ ok tt) ↔ (result ≡ ok tt))
unfolding report_insertion
report_insertion-clusters name id (ok u) r = ground arith
report_insertion-clusters name id (err (duplicate_endpoint_id t)) r = ground arith
report_insertion-clusters name id (err x) r = ground arith

-- An endpoint that is accepted is found under its cluster and identifier, where none was found
-- before, and every other answer stays; if it is refused, all of them stay.
pub tracked-insert_endpoint :
    (r : EndpointRegistry) (name i : UpstreamClusterName) (e : UpstreamEndpoint)
    (j : UpstreamEndpointId)
    → let (q, result) = insert_endpoint r name e in
      ((result ≡ ok tt)
        × (tracked r name e.id ≡ none)
        × (tracked q i j ≡ (if same name i && same e.id j then some e else tracked r i j)))
      ⊎ ((result ≢ ok tt) × (tracked q i j ≡ tracked r i j))
unfolding insert_endpoint cluster
tracked-insert_endpoint r name i e j = elim (Option-cases (lookup name r.clusters)) [
  | inl h ↦ ground (arith, h)
  | inr (c, h) ↦
      let (d, result) = Upstream.insert_endpoint c e in
      ground (
        arith,
        h,
        same_iff name i,
        endpoint-insert c e j,
        report_insertion-clusters name e.id result (store r name d),
        lookup-replace_at name i d c r.clusters h,
      )
]

-- An endpoint that is accepted is a valid one.
pub accepted-IsValidEndpoint :
    (r : EndpointRegistry) (name : UpstreamClusterName) (e : UpstreamEndpoint) {u : Unit {0}}
    → (insert_endpoint r name e).1 ≡ ok u
    → IsValidEndpoint e
unfolding insert_endpoint
accepted-IsValidEndpoint r name e k = elim (Option-cases (lookup name r.clusters)) [
  | inl h ↦ ground (arith, h, k)
  | inr (c, h) ↦
      let (d, result) = Upstream.insert_endpoint c e in
      let reported = report_insertion-clusters name e.id result (store r name d) in
      let valid : validate_endpoint e ≡ ok tt =
        ground (arith, h, k, reported, endpoint-insert c e e.id) in
      (validate_endpoint_iff e).0 valid
]

-- In a valid registry a removal returns the endpoint that was found, which is found no longer; the
-- error is that the cluster, or else the endpoint, is not there.
pub tracked-remove_endpoint :
    (r : EndpointRegistry) (name i : UpstreamClusterName) (id j : UpstreamEndpointId)
    → Inv r
    → let (q, result) = remove_endpoint r name id in
      (result
        ≡ ok_or (tracked r name id) (
            if is_some (cluster r name)
            then endpoint_not_found name id
            else cluster_not_found name))
      × (tracked q i j ≡ (if same name i && same id j then none else tracked r i j))
unfolding remove_endpoint cluster
tracked-remove_endpoint r name i id j v = elim (Option-cases (lookup name r.clusters)) [
  | inl h ↦ ground (arith, h, same_iff name i)
  | inr (c, h) ↦
      let (removed, after) = endpoint-remove c id j (v.clusters_valid name c h).0 in
      ground (
        arith,
        h,
        removed,
        after,
        same_iff name i,
        lookup-replace_at name i (Upstream.remove_endpoint c id).0 c r.clusters h,
      )
]

-- Setting a state re-states the endpoint with that cluster and identifier and no other. It succeeds
-- exactly if that endpoint is there in another state; otherwise the error is that the cluster is not
-- found, if it is not there, and that the endpoint is not found, if it is.
pub tracked-set_endpoint_state :
    (r : EndpointRegistry) (name i : UpstreamClusterName) (id j : UpstreamEndpointId)
    (s : EndpointState)
    → let (q, result) = set_endpoint_state r name id s in
      (tracked q i j
        ≡ (if same name i && same id j then restated s (tracked r name id) else tracked r i j))
      × (result ≡ (
          if differs s (tracked r name id)
          then ok tt
          else err (
              if is_some (cluster r name)
              then endpoint_not_found name id
              else cluster_not_found name)))
unfolding set_endpoint_state cluster
tracked-set_endpoint_state r name i id j s = elim (Option-cases (lookup name r.clusters)) [
  | inl h ↦ ground (arith, h, same_iff name i)
  | inr (c, h) ↦
      let (changed, after) = endpoint-set_endpoint_state c id j s in
      ground (
        arith,
        h,
        changed,
        after,
        same_iff name i,
        lookup-replace_at name i (Upstream.set_endpoint_state c id s).0 c r.clusters h,
      )
]

-- Setting the state that an endpoint already has reports the endpoint as not found, although the
-- registry finds it before and after the call.
pub unchanged_state_not_found :
    (r : EndpointRegistry) (name : UpstreamClusterName) (id : UpstreamEndpointId)
    (e : UpstreamEndpoint)
    → tracked r name id ≡ some e
    → let (q, result) = set_endpoint_state r name id e.state in
      (result ≡ err (endpoint_not_found name id)) × (tracked q name id ≡ some e)
unchanged_state_not_found r name id e h =
    let (after, result) = tracked-set_endpoint_state r name name id id e.state in
    ground (arith, after, result, h, same_refl name, same_refl id)

-- A new registry has no endpoint.
pub nothing_tracked :
    (name : UpstreamClusterName) (id : UpstreamEndpointId) → tracked new name id ≡ none
unfolding cluster lookup
nothing_tracked name id = refl
