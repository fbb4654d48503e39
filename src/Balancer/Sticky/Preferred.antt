-- ===== src/Balancer/Sticky/Preferred.antt =====
-- What the affinity of a request (crates/runtime/src/upstream_balancer.rs) selects.
use way_balancer.Base.{
  ◌≡◌, refl, inl, inr, Bool, true, Option, none, some, Result, ok, err, Option-cases, Result-cases,
  All, All-find,
}
use way_balancer.Base.Order.{list_ord, nat_ord}
use way_balancer.Base.Text.{Text}
use way_balancer.Upstream.{UpstreamClusterName}
use way_balancer.Health.Queries.{EndpointSelectionCandidate, selection_candidates}
use way_balancer.Health.Tracking.{UpstreamHealthRegistry}
use way_balancer.Balancer.{
  UpstreamSelectionPolicy, SelectionContext, AffinityPolicy, header_hash, cookie_hash,
  balance_healthy,
}
use way_balancer.Balancer.Affinity.{Score}
use way_balancer.Balancer.Locality.{apply_locality_preference}
use way_balancer.Balancer.Eligible.{Candidates, SelectionCounters, UpstreamSelectionError, health}
use way_balancer.Base.Order.{same}
use way_balancer.Base.{find}
use way_balancer.Health.{UpstreamHealthError}
use way_balancer.Balancer.Affinity.{select_affinity_candidate}
use way_balancer.Balancer.Sticky.{
  after_miss, settle_affinity, select_by_affinity, try_select_affinity_candidate,
}

-- No candidate, one with a property, or the error of the query.
abbrev pub IsSticky :
    (EndpointSelectionCandidate → Type 0)
    → UpstreamHealthRegistry
    → UpstreamClusterName
    → Result (Option EndpointSelectionCandidate) UpstreamSelectionError
    → Type 0
IsSticky P h name (ok none) = Unit {0}
IsSticky P h name (ok (some c)) = P c
IsSticky P h name (err k) =
    (e : UpstreamHealthError) × (k ≡ health e) × (selection_candidates h name true ≡ err e)

module _ (P : EndpointSelectionCandidate → Type 0) (h : UpstreamHealthRegistry)
    (name : UpstreamClusterName) (policy : UpstreamSelectionPolicy) (x : SelectionContext)
    (score : Score) (ds : Candidates) (a : All P ds) where
  miss-IsSticky : (q : AffinityPolicy) → IsSticky P h name (ok (after_miss q))
  unfolding after_miss
  miss-IsSticky (header_hash n balance_healthy) = tt
  miss-IsSticky (cookie_hash n balance_healthy) = tt

  settle-IsSticky :
      (m : SelectionCounters) (q : AffinityPolicy) (preferred : EndpointSelectionCandidate)
      → IsSticky P h name (ok (settle_affinity m q preferred ds).1)
  unfolding settle_affinity
  settle-IsSticky m q preferred =
      let same_id : EndpointSelectionCandidate → Bool =
        λ c. same c.endpoint_id preferred.endpoint_id in
      elim (Option-cases (find same_id ds)) [
        | inl e ↦ rw (IsSticky, e) (miss-IsSticky q)
        | inr (c, e) ↦ rw (IsSticky, e) (All-find P same_id c ds e a)
      ]

  keyed-IsSticky :
      (m : SelectionCounters) (q : AffinityPolicy) (key : Text)
      → IsSticky P h name (select_by_affinity score m h name policy x ds q key).1
  unfolding select_by_affinity
  keyed-IsSticky m q key = elim (Result-cases (selection_candidates h name true)) [
    | inr (e, k) ↦ rw (IsSticky, k) (e, refl, k)
    | inl (all, k) ↦
        elim (Option-cases
          (select_affinity_candidate score (apply_locality_preference all policy x).0 key)) [
            | inl z ↦ rw (IsSticky, k, z) tt
            | inr (c, z) ↦ rw (IsSticky, k, z) (settle-IsSticky m q c)
          ]
  ]

  affine-IsSticky :
      (m : SelectionCounters) (q : AffinityPolicy)
      → policy.affinity ≡ some q
      → IsSticky P h name (try_select_affinity_candidate score m h name policy x ds).1
  unfolding try_select_affinity_candidate
  affine-IsSticky m q e = elim (Option-cases x.affinity_key) [
    | inl z ↦ rw (IsSticky, e, z) tt
    | inr (key, z) ↦ rw (IsSticky, e, z) (keyed-IsSticky m q key)
  ]

  pub affinity-IsSticky :
      (m : SelectionCounters)
      → IsSticky P h name (try_select_affinity_candidate score m h name policy x ds).1
  unfolding try_select_affinity_candidate
  affinity-IsSticky m = elim (Option-cases policy.affinity) [
    | inl z ↦ rw (IsSticky, z) tt
    | inr (q, z) ↦ affine-IsSticky m q z
  ]
