-- ===== src/Balancer/Eligible/Found.antt =====
-- Which candidates a selection (crates/runtime/src/upstream_balancer.rs) is made from, and why it
-- fails.
use way_balancer.Base.{
  ◌≡◌, refl, ◌⊎◌, inl, inr, Bool, true, false, [], ◌∷◌, is_empty, Result, ok, err, Result-cases,
  Has,
}
use way_balancer.Base.Order.{list_ord, nat_ord}
use way_balancer.Upstream.{UpstreamClusterName}
use way_balancer.Health.Queries.{EndpointSelectionCandidate, selection_candidates}
use way_balancer.Balancer.{
  fail, include_unhealthy, NoHealthyFallback, UpstreamSelectionPolicy, SelectionContext,
}
use way_balancer.Balancer.Locality.{apply_locality_preference}
use way_balancer.Balancer.Eligible.{
  Candidates, SelectionCounters, UpstreamSelectionError, health, no_eligible_endpoints,
  SelectedEndpoint, Views, eligible, fallback_candidates,
}

-- The candidates that a policy offers: those in traffic, or, if there are none and the policy says
-- so, also the unhealthy ones.
abbrev pub IsOffered :
    Views → UpstreamClusterName → UpstreamSelectionPolicy → Candidates → Bool → Type 0
IsOffered v name policy ds false =
    (selection_candidates v.healthy_view name false ≡ ok ds) × (is_empty ds ≡ false)
IsOffered v name policy ds true =
    (selection_candidates v.healthy_view name false ≡ ok [])
    × (policy.no_healthy_fallback ≡ include_unhealthy)
    × (selection_candidates v.fallback_view name true ≡ ok ds)
    × (is_empty ds ≡ false)

-- Why a selection has its result.
abbrev pub IsExplained :
    Views
    → UpstreamClusterName
    → UpstreamSelectionPolicy
    → SelectionContext
    → Result SelectedEndpoint UpstreamSelectionError
    → Type 0
IsExplained v name policy x (ok s) =
    (ds : Candidates) × (b : Bool) × (c : EndpointSelectionCandidate) × IsOffered v name policy ds b
    × Has (apply_locality_preference ds policy x).0 c
    × (s ≡ record {
      cluster_name = c.cluster_name;
      endpoint_id = c.endpoint_id;
      address = c.address;
      effective_weight = c.health.effective_weight;
      health_status = c.health.status;
      locality_matched = (apply_locality_preference ds policy x).1;
    })
IsExplained v name policy x (err (no_eligible_endpoints n)) =
    (n ≡ name)
    × (selection_candidates v.healthy_view name false ≡ ok [])
    × ((policy.no_healthy_fallback ≡ fail)
        ⊎ (selection_candidates v.fallback_view name true ≡ ok []))
IsExplained v name policy x (err (health e)) =
    (selection_candidates v.healthy_view name false ≡ err e)
    ⊎ ((selection_candidates v.fallback_view name true ≡ err e)
        ⊎ (selection_candidates v.affinity_view name true ≡ err e))

-- What the first part finds.
abbrev pub IsFound :
    Views
    → UpstreamClusterName
    → UpstreamSelectionPolicy
    → SelectionContext
    → Result (Candidates × Bool) UpstreamSelectionError
    → Type 0
IsFound v name policy x (ok found) = IsOffered v name policy found.0 found.1
IsFound v name policy x (err e) = IsExplained v name policy x (err e)

module _ (v : Views) (name : UpstreamClusterName) (policy : UpstreamSelectionPolicy)
    (x : SelectionContext) where
  unhealthy-IsFound :
      (ds : Candidates)
      → policy.no_healthy_fallback ≡ include_unhealthy
      → selection_candidates v.healthy_view name false ≡ ok []
      → selection_candidates v.fallback_view name true ≡ ok ds
      → IsFound v name policy x (fallback_candidates v.fallback_view name include_unhealthy)
  unfolding fallback_candidates
  unhealthy-IsFound [] f e k = rw (IsFound, k) (refl, e, inr k)
  unhealthy-IsFound (d ∷ ds) f e k = rw (IsFound, k) (e, f, k, refl)

  fallback-IsFound :
      (fallback : NoHealthyFallback)
      → policy.no_healthy_fallback ≡ fallback
      → selection_candidates v.healthy_view name false ≡ ok []
      → IsFound v name policy x (fallback_candidates v.fallback_view name fallback)
  unfolding fallback_candidates
  fallback-IsFound fail f e = (refl, e, inl f)
  fallback-IsFound include_unhealthy f e =
      elim (Result-cases (selection_candidates v.fallback_view name true)) [
        | inr (d, k) ↦ rw (IsFound, k) (inr (inl k))
        | inl (ds, k) ↦ unhealthy-IsFound ds f e k
      ]

  queried-IsFound :
      (m : SelectionCounters) (ds : Candidates)
      → selection_candidates v.healthy_view name false ≡ ok ds
      → IsFound v name policy x (eligible m v name policy).1
  unfolding eligible
  queried-IsFound m [] k = rw (IsFound, k) (fallback-IsFound policy.no_healthy_fallback refl k)
  queried-IsFound m (d ∷ ds) k = rw (IsFound, k) (k, refl)

  pub eligible-IsFound :
      (m : SelectionCounters) → IsFound v name policy x (eligible m v name policy).1
  unfolding eligible
  eligible-IsFound m = elim (Result-cases (selection_candidates v.healthy_view name false)) [
    | inr (d, k) ↦ rw (IsFound, k) (inl k)
    | inl (ds, k) ↦ queried-IsFound m ds k
  ]
