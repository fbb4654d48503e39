-- ===== src/Upstream/Clusters.antt =====
-- A cluster of crates/net-core/src/upstream.rs as a finite map from identifiers to endpoints.
use way_balancer.Base.{
  ℕ, ◌≤◌, ◌<◌, ◌≡◌, ◌≢◌, refl, ◌⊎◌, inl, inr, Bool, true, false, not, List, [], ◌∷◌, ◌++◌, find,
  count, length, is_some, if◌then◌else◌, Option, none, some, arith, ok, count-le-length, Bool-cases,
  Result-cases,
}
use way_balancer.Base.Order.{same, same_iff, list_ord, nat_ord}
use way_balancer.Upstream.{
  UpstreamEndpoint, UpstreamCluster, UpstreamEndpointId, EndpointState, UpstreamClusterState,
  validate_endpoint, insert_endpoint, remove_endpoint, set_endpoint_state, endpoint, take_first,
  update_first, restate, with_state, same_state, is_ready, cluster_state,
}
use way_balancer.Upstream.Validation.{IsDistinct, IsValidCluster, has_id, any-has_id}

abbrev find_id : UpstreamEndpointId → List UpstreamEndpoint → Option UpstreamEndpoint
find_id id es = find (λ (e : UpstreamEndpoint). same e.id id) es

find_id-append :
    (id : UpstreamEndpointId) (es : List UpstreamEndpoint) (e : UpstreamEndpoint)
    → find_id id (es ++ e ∷ [])
      ≡ (if has_id id es then find_id id es else if same e.id id then some e else none)
find_id-append id [] e = ground arith
find_id-append id (d ∷ es) e = ground (arith, find_id-append id es e)

find_id-none :
    (id : UpstreamEndpointId) (es : List UpstreamEndpoint) → is_some (find_id id es) ≡ has_id id es
find_id-none id [] = refl
find_id-none id (e ∷ es) = ground (arith, find_id-none id es)

-- An insertion succeeds exactly for a valid endpoint with a new identifier. Then the cluster finds
-- the new endpoint under its identifier and the others as before; otherwise it stays as it was.
pub endpoint-insert :
    (c : UpstreamCluster) (e : UpstreamEndpoint) (i : UpstreamEndpointId)
    → ((validate_endpoint e ≡ ok tt)
        × (endpoint c e.id ≡ none)
        × ((insert_endpoint c e).1 ≡ ok tt)
        × (endpoint (insert_endpoint c e).0 i ≡ (if same e.id i then some e else endpoint c i)))
      ⊎ (((insert_endpoint c e).0 ≡ c)
          × ((insert_endpoint c e).1 ≢ ok tt)
          × ((validate_endpoint e ≢ ok tt) ⊎ (endpoint c e.id ≢ none)))
unfolding insert_endpoint endpoint
endpoint-insert c e i = ground (
  arith,
  Result-cases (validate_endpoint e),
  any-has_id e.id c.endpoints,
  find_id-none e.id c.endpoints,
  find_id-none i c.endpoints,
  find_id-append i c.endpoints e,
  same_iff e.id i,
)

find_id-take_first :
    (id i : UpstreamEndpointId) (es : List UpstreamEndpoint)
    → IsDistinct es
    → (find_id i (take_first id es).0 ≡ (if same id i then none else find_id i es))
      × ((take_first id es).1 ≡ find_id id es)
unfolding take_first
find_id-take_first id i [] d = ground arith
find_id-take_first id i (e ∷ es) d = ground (
  arith,
  find_id-take_first id i es d.1,
  same_iff id i,
  same_iff e.id id,
  same_iff e.id i,
  find_id-none e.id es,
)

-- A removal from a valid cluster returns the endpoint with the identifier, if the cluster has one,
-- after which the cluster finds it no longer and every other as before.
pub endpoint-remove :
    (c : UpstreamCluster) (id i : UpstreamEndpointId)
    → IsValidCluster c
    → ((remove_endpoint c id).1 ≡ endpoint c id)
      × (endpoint (remove_endpoint c id).0 i ≡ (if same id i then none else endpoint c i))
unfolding remove_endpoint endpoint
endpoint-remove c id i v =
    let (gone, taken) = find_id-take_first id i c.endpoints v.ids_distinct in (taken, gone)

-- The endpoint in another state.
abbrev pub restated : EndpointState → Option UpstreamEndpoint → Option UpstreamEndpoint
restated s none = none
restated s (some e) = some (with_state e s)

-- Whether there is an endpoint, in another state than the given one.
abbrev pub differs : EndpointState → Option UpstreamEndpoint → Bool
differs s none = false
differs s (some e) = not (same_state e.state s)

with_state_same :
    (e : UpstreamEndpoint) (s : EndpointState) → same_state e.state s ≡ true → with_state e s ≡ e
with_state_same e s h = ground arith

update_first-differs :
    (id : UpstreamEndpointId) (s : EndpointState) (es : List UpstreamEndpoint)
    → (update_first id s es).1 ≡ differs s (find_id id es)
unfolding update_first
update_first-differs id s [] = refl
update_first-differs id s (e ∷ es) = ground (arith, update_first-differs id s es)

restate-with_state : (e : UpstreamEndpoint) (s : EndpointState) → (restate e s).0 ≡ with_state e s
unfolding restate
restate-with_state e s = ground (arith, with_state_same e s)

find_id-update_hit :
    (id i : UpstreamEndpointId) (s : EndpointState) (e : UpstreamEndpoint)
    (es : List UpstreamEndpoint)
    → same e.id id ≡ true
    → find_id i (with_state e s ∷ es)
      ≡ (if same id i then some (with_state e s) else find_id i (e ∷ es))
find_id-update_hit id i s e es h = ground (arith, same_iff id i, same_iff e.id id, same_iff e.id i)

find_id-update_first :
    (id i : UpstreamEndpointId) (s : EndpointState) (es : List UpstreamEndpoint)
    → find_id i (update_first id s es).0
      ≡ (if same id i then restated s (find_id id es) else find_id i es)
unfolding update_first
find_id-update_first id i s [] = ground arith
find_id-update_first id i s (e ∷ es) = elim (Bool-cases (same e.id id)) [
  | inl h ↦ rw h (rw (restate-with_state e s) (find_id-update_hit id i s e es h))
  | inr h ↦ rw h (
      ground
        (arith, find_id-update_first id i s es, same_iff id i, same_iff e.id id, same_iff e.id i))
]

-- A change of state gives the endpoint with the identifier the new state and leaves the others. It
-- reports true exactly if there is such an endpoint and its state was another one.
pub endpoint-set_endpoint_state :
    (c : UpstreamCluster) (id i : UpstreamEndpointId) (s : EndpointState)
    → ((set_endpoint_state c id s).1 ≡ differs s (endpoint c id))
      × (endpoint (set_endpoint_state c id s).0 i
          ≡ (if same id i then restated s (endpoint c id) else endpoint c i))
unfolding set_endpoint_state endpoint
endpoint-set_endpoint_state c id i s =
    (update_first-differs id s c.endpoints, find_id-update_first id i s c.endpoints)

-- An endpoint is looked up as the first of the list with its identifier.
pub endpoint-find :
    (c : UpstreamCluster) (id : UpstreamEndpointId)
    → endpoint c id ≡ find (λ (e : UpstreamEndpoint). same e.id id) c.endpoints
unfolding endpoint
endpoint-find c id = refl

-- What a cluster state says of the numbers of endpoints and of ready ones.
abbrev pub Reports : UpstreamClusterState → ℕ → ℕ → Type 0
Reports UpstreamClusterState.empty total n = (total ≡ 0) × (n ≡ 0)
Reports (UpstreamClusterState.unavailable t) total n = (t ≡ total) × (0 < total) × (n ≡ 0)
Reports (UpstreamClusterState.ready t r) total n = (t ≡ total) × (r ≡ n) × (0 < n) × (n ≤ total)

-- The aggregate state tells whether there are endpoints, whether one is ready, and how many.
pub cluster_state-Reports :
    (c : UpstreamCluster)
    → Reports (cluster_state c) (length c.endpoints) (count (λ e. is_ready e.state) c.endpoints)
unfolding cluster_state
cluster_state-Reports c =
    ground (arith, count-le-length (λ (e : UpstreamEndpoint). is_ready e.state) c.endpoints)
