-- ===== src/Health/Queries/Candidates.antt =====
-- What the queries of crates/runtime/src/upstream_health.rs return while topology and records agree.
use way_balancer.Base.{
  ℕ, ◌≤◌, ◌<◌, any, count-le-length, Bool-cases, ◌≡◌, refl, ◌⊎◌, inl, inr, Bool, true, false, ◌&&◌,
  ◌||◌, List, [], ◌∷◌, none, some, ok, arith, is_some, Option-cases, find, count, length, All,
}
use way_balancer.Base.Order.{same, below, same_iff, same_refl, list_ord, nat_ord, pair_ord}
use way_balancer.Base.Map.{lookup}
use way_balancer.Upstream.{
  UpstreamCluster, UpstreamClusterName, UpstreamEndpoint, UpstreamEndpointId, UpstreamClusterState,
  is_ready,
}
use way_balancer.Upstream.Clusters.{endpoint-find, Reports}
use way_balancer.Registry
use way_balancer.Registry.Lookup.{tracked}
use way_balancer.Health.{is_available}
use way_balancer.Health.Record.{EndpointHealthRecord, snapshot}
use way_balancer.Health.Budget.{Records}
use way_balancer.Health.Tracking.{UpstreamHealthRegistry}
use way_balancer.Health.Tracking.Agreement.{has_record, IsAgreed}
use way_balancer.Health.Queries.{
  EndpointSelectionCandidate, find_cluster, find_record, count_ready, classify, cluster_state,
  endpoint_health, is_allowed, candidate, collect, place, sort_by_id, selection_candidates,
}

-- Whether the records have every endpoint of the list.
abbrev AllRecorded : Records → UpstreamClusterName → List UpstreamEndpoint → Type 0
AllRecorded m name es = All (λ (e : UpstreamEndpoint). has_record m name e.id ≡ true) es

recorded_all :
    (m : Records) (name : UpstreamClusterName) (es : List UpstreamEndpoint)
    → ((id : UpstreamEndpointId)
        → is_some (find (λ (e : UpstreamEndpoint). same e.id id) es) ≡ true
        → has_record m name id ≡ true)
    → AllRecorded m name es
recorded_all m name [] f = tt
recorded_all m name (e ∷ es) f = (
  f e.id (ground (arith, same_refl e.id)),
  recorded_all m name es (λ id k. f id (ground (arith, same_iff e.id id))),
)

cluster_recorded :
    (h : UpstreamHealthRegistry) (name : UpstreamClusterName) (c : UpstreamCluster)
    → IsAgreed h
    → Registry.cluster h.registry name ≡ some c
    → AllRecorded h.records name c.endpoints
cluster_recorded h name c v e =
    recorded_all h.records name c.endpoints
      (λ id k. v.recorded name id (ground (arith, e, endpoint-find c id)))

-- The endpoints that a record makes available.
abbrev pub is_in_traffic : UpstreamHealthRegistry → UpstreamClusterName → UpstreamEndpoint → Bool
is_in_traffic h name e =
    is_ready e.state
    && elim (lookup (name, e.id) h.records) [ none ↦ false | some r ↦ is_available r.status ]

count_ready-recorded :
    (h : UpstreamHealthRegistry) (name : UpstreamClusterName) (es : List UpstreamEndpoint)
    → AllRecorded h.records name es
    → count_ready h name es ≡ ok (count (is_in_traffic h name) es)
unfolding count_ready find_record
count_ready-recorded h name [] a = refl
count_ready-recorded h name (e ∷ es) a =
    ground (arith, count_ready-recorded h name es a.1, Option-cases (lookup (name, e.id) h.records))

classify-Reports : (total n : ℕ) → n ≤ total → 0 < total → Reports (classify total n) total n
unfolding classify
classify-Reports total n h p = ground arith

empty_or_not : (n : ℕ) → (n ≡ 0) ⊎ (0 < n)
empty_or_not n = omega arith

-- While topology and records agree, the effective state of a cluster tells how many endpoints it
-- has and how many of them are both ready and, by their health, available.
pub effective_state-Reports :
    (h : UpstreamHealthRegistry) (name : UpstreamClusterName) (c : UpstreamCluster)
    → IsAgreed h
    → Registry.cluster h.registry name ≡ some c
    → (s : UpstreamClusterState) × (cluster_state h name ≡ ok s)
      × Reports s (length c.endpoints) (count (is_in_traffic h name) c.endpoints)
unfolding cluster_state find_cluster
effective_state-Reports h name c v e =
    let n = count-le-length (is_in_traffic h name) c.endpoints in
    elim (empty_or_not (length c.endpoints)) [
      | inl z ↦ (UpstreamClusterState.empty, ground (arith, e, z), ground (arith, n, z))
      | inr p ↦
          let total = length c.endpoints in
          let ready = count (is_in_traffic h name) c.endpoints in
          (
            classify total ready,
            ground (
              arith,
              e,
              p,
              count_ready-recorded h name c.endpoints (cluster_recorded h name c v e),
            ),
            classify-Reports total ready n p,
          )
    ]

-- The candidates that the loop keeps of an endpoint.
abbrev pub is_selectable :
    UpstreamHealthRegistry → UpstreamClusterName → Bool → UpstreamEndpoint → Bool
is_selectable h name b e =
    is_ready e.state
    && elim (lookup (name, e.id) h.records) [ none ↦ false | some r ↦ is_allowed b r.status ]

abbrev pub names : List EndpointSelectionCandidate → UpstreamEndpointId → Bool
names ds id = any (λ (d : EndpointSelectionCandidate). same d.endpoint_id id) ds

-- A candidate is a record of the cluster, in a status that may be selected.
pub record IsCandidate (h : UpstreamHealthRegistry) (name : UpstreamClusterName) (b : Bool)
    (d : EndpointSelectionCandidate) : Type 0 where
  pub health_record : EndpointHealthRecord
  pub tracked_as : lookup (name, d.endpoint_id) h.records ≡ some health_record
  pub allowed : is_allowed b health_record.status ≡ true
  pub reports_health : d.health ≡ snapshot health_record h.policy
  pub in_cluster : d.cluster_name ≡ name

collect-recorded :
    (h : UpstreamHealthRegistry) (name : UpstreamClusterName) (b : Bool)
    (es : List UpstreamEndpoint)
    → AllRecorded h.records name es
    → (cs : List EndpointSelectionCandidate) × (collect h name b es ≡ ok cs)
      × All (IsCandidate h name b) cs
      × ((id : UpstreamEndpointId)
          → names cs id ≡ any (λ e. same e.id id && is_selectable h name b e) es)
unfolding collect find_record candidate
collect-recorded h name b [] a = ([], refl, tt, λ id. refl)
collect-recorded h name b (e ∷ es) a =
    let (cs, k, valid, all) = collect-recorded h name b es a.1 in
    elim (Option-cases (lookup (name, e.id) h.records)) [
      | inl n ↦ (cs, ground (arith, a.0, n), valid, λ id. ground (arith, a.0, n))
      | inr (r, q) ↦ elim (Bool-cases (is_ready e.state && is_allowed b r.status)) [
        | inr z ↦ (cs, ground (arith, k, q, z), valid, λ id. ground (arith, q, z, all id))
        | inl z ↦ (
          candidate h name e r ∷ cs,
          ground (arith, k, q, z),
          (
            record {
              health_record = r;
              tracked_as = q;
              allowed = ground (arith, z);
              reports_health = refl;
              in_cluster = refl;
            },
            valid,
          ),
          λ id. ground (arith, q, z, all id),
        )
      ]
    ]

place-All :
    (P : EndpointSelectionCandidate → Type 0) (d : EndpointSelectionCandidate)
    (ds : List EndpointSelectionCandidate)
    → P d
    → All P ds
    → All P (place d ds)
unfolding place
place-All P d [] p a = (p, tt)
place-All P d (x ∷ ds) p a = elim (Bool-cases (below x.endpoint_id d.endpoint_id)) [
  | inl h ↦ rw h (a.0, place-All P d ds p a.1)
  | inr h ↦ rw h (p, a)
]

sort_by_id-All :
    (P : EndpointSelectionCandidate → Type 0) (ds : List EndpointSelectionCandidate)
    → All P ds
    → All P (sort_by_id ds)
unfolding sort_by_id
sort_by_id-All P [] a = tt
sort_by_id-All P (d ∷ ds) a = place-All P d (sort_by_id ds) a.0 (sort_by_id-All P ds a.1)

names-place :
    (id : UpstreamEndpointId) (d : EndpointSelectionCandidate)
    (ds : List EndpointSelectionCandidate)
    → names (place d ds) id ≡ (same d.endpoint_id id || names ds id)
unfolding place
names-place id d [] = refl
names-place id d (x ∷ ds) = ground (arith, names-place id d ds)

names-sort_by_id :
    (id : UpstreamEndpointId) (ds : List EndpointSelectionCandidate)
    → names (sort_by_id ds) id ≡ names ds id
unfolding sort_by_id
names-sort_by_id id [] = refl
names-sort_by_id id (d ∷ ds) =
    ground (arith, names-place id d (sort_by_id ds), names-sort_by_id id ds)

-- While topology and records agree, the candidates of a cluster are exactly its ready endpoints whose
-- health admits traffic: each carries the health of its record, and the endpoints named are those
-- that are ready and available, or unhealthy where the caller includes these.
pub candidates_exact :
    (h : UpstreamHealthRegistry) (name : UpstreamClusterName) (c : UpstreamCluster) (b : Bool)
    → IsAgreed h
    → Registry.cluster h.registry name ≡ some c
    → (cs : List EndpointSelectionCandidate) × (selection_candidates h name b ≡ ok cs)
      × All (IsCandidate h name b) cs
      × ((id : UpstreamEndpointId)
          → names cs id ≡ any (λ e. same e.id id && is_selectable h name b e) c.endpoints)
unfolding selection_candidates find_cluster
candidates_exact h name c b v e =
    let (cs, k, valid, all) =
      collect-recorded h name b c.endpoints (cluster_recorded h name c v e) in
    (
      sort_by_id cs,
      ground (arith, e, k),
      sort_by_id-All (IsCandidate h name b) cs valid,
      λ id. ground (arith, names-sort_by_id id cs, all id),
    )

-- While topology and records agree, the health of every endpoint that the topology has is the
-- snapshot of its record.
pub health_found :
    (h : UpstreamHealthRegistry) (name : UpstreamClusterName) (id : UpstreamEndpointId)
    (e : UpstreamEndpoint)
    → IsAgreed h
    → tracked h.registry name id ≡ some e
    → (r : EndpointHealthRecord) × (lookup (name, id) h.records ≡ some r)
      × (endpoint_health h name id ≡ ok (snapshot r h.policy))
unfolding endpoint_health find_cluster find_record
health_found h name id e v k = elim (Option-cases (lookup (name, id) h.records)) [
  | inl n ↦ ground (arith, n, k, v.recorded name id)
  | inr (r, q) ↦ (r, q, ground (arith, q, k, Option-cases (Registry.cluster h.registry name)))
]
