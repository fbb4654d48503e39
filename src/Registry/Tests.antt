-- ===== src/Registry/Tests.antt =====
-- The laws of the endpoint registry at a concrete one.
use way_balancer.Base.{
  ℕ, ◌≡◌, ◌≢◌, ◌⊎◌, if◌then◌else◌, ◌&&◌, List, [], ◌∷◌, none, some, ok, err, ok_or, is_some, arith,
}
use way_balancer.Base.Order.{same, same_iff, list_ord, nat_ord}
use way_balancer.Base.Map.{lookup}
use way_balancer.Upstream.{EndpointState}
use way_balancer.Upstream.Samples.{first, second, third, pair, pair-IsValidCluster}
use way_balancer.Upstream.Clusters.{restated, differs, endpoint-find}
use way_balancer.Registry.{
  EndpointRegistry, new, cluster, insert_endpoint, remove_endpoint, set_endpoint_state,
  endpoint_not_found, cluster_not_found,
}
use way_balancer.Registry.Consistency.{
  Inv, Call, add_cluster, drop_endpoint, change_state, run, registry_stays_valid,
}
use way_balancer.Registry.Lookup.{
  tracked, tracked-insert_endpoint, tracked-remove_endpoint, tracked-set_endpoint_state,
  unchanged_state_not_found,
}

abbrev name : List ℕ
name = 112 ∷ []

abbrev one_cluster : EndpointRegistry
one_cluster = record { clusters = (name, pair) ∷ []; invalid_definition_count = 0 }

one_cluster-Inv : Inv one_cluster
unfolding lookup
one_cluster-Inv = record {
  clusters_valid = λ i c e. ground (arith, e, same_iff name i, pair-IsValidCluster);
}

abbrev calls : List Call
calls =
    add_cluster pair
    ∷ change_state name (98 ∷ []) EndpointState.ready
    ∷ drop_endpoint name (97 ∷ [])
    ∷ []

registry_stays_valid_example : Inv (run new calls)
registry_stays_valid_example = registry_stays_valid calls (pair-IsValidCluster, (tt, (tt, tt)))

tracked-insert_endpoint_example :
    (((insert_endpoint one_cluster name third).1 ≡ ok tt)
      × (tracked one_cluster name third.id ≡ none)
      × (tracked (insert_endpoint one_cluster name third).0 name third.id ≡ (
          if same name name && same third.id third.id
          then some third
          else tracked one_cluster name third.id)))
    ⊎ (((insert_endpoint one_cluster name third).1 ≢ ok tt)
        × (tracked (insert_endpoint one_cluster name third).0 name third.id
            ≡ tracked one_cluster name third.id))
tracked-insert_endpoint_example = tracked-insert_endpoint one_cluster name name third third.id

tracked-remove_endpoint_example :
    ((remove_endpoint one_cluster name first.id).1
      ≡ ok_or (tracked one_cluster name first.id) (
          if is_some (cluster one_cluster name)
          then endpoint_not_found name first.id
          else cluster_not_found name))
    × (tracked (remove_endpoint one_cluster name first.id).0 name second.id ≡ (
        if same name name && same first.id second.id
        then none
        else tracked one_cluster name second.id))
tracked-remove_endpoint_example =
    tracked-remove_endpoint one_cluster name name first.id second.id one_cluster-Inv

tracked-set_endpoint_state_example :
    (tracked (set_endpoint_state one_cluster name second.id EndpointState.ready).0 name second.id
      ≡ (if same name name && same second.id second.id
          then restated EndpointState.ready (tracked one_cluster name second.id)
          else tracked one_cluster name second.id))
    × ((set_endpoint_state one_cluster name second.id EndpointState.ready).1 ≡ (
        if differs EndpointState.ready (tracked one_cluster name second.id)
        then ok tt
        else err (
            if is_some (cluster one_cluster name)
            then endpoint_not_found name second.id
            else cluster_not_found name)))
tracked-set_endpoint_state_example =
    tracked-set_endpoint_state one_cluster name name second.id second.id EndpointState.ready

first-tracked : tracked one_cluster name first.id ≡ some first
unfolding cluster lookup
first-tracked = endpoint-find pair first.id

unchanged_state_not_found_example :
    ((set_endpoint_state one_cluster name first.id EndpointState.ready).1
      ≡ err (endpoint_not_found name first.id))
    × (tracked (set_endpoint_state one_cluster name first.id EndpointState.ready).0 name first.id
        ≡ some first)
unchanged_state_not_found_example =
    unchanged_state_not_found one_cluster name first.id first first-tracked
