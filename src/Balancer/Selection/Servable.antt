-- ===== src/Balancer/Selection/Servable.antt =====
-- Selections (crates/runtime/src/upstream_balancer.rs) while the topology and the health records
-- agree.
use way_balancer.Base.{
  ◌≡◌, ◌≢◌, sym, ap, ◌∙◌, ok-injective, inl, inr, Bool, true, false, filter, is_empty, some, Result,
  ok, err, arith, Bool-cases, All, All-filter, All-get_elem?,
}
use mathlib.Core.Path.{subst}
use way_balancer.Upstream.{UpstreamClusterName, UpstreamCluster}
use way_balancer.Registry
use way_balancer.Health.{EndpointHealthStatus, ejected}
use way_balancer.Health.Tracking.{UpstreamHealthRegistry}
use way_balancer.Health.Tracking.Agreement.{IsAgreed}
use way_balancer.Health.Queries.{EndpointSelectionCandidate, selection_candidates, is_allowed}
use way_balancer.Health.Queries.Candidates.{IsCandidate, candidates_exact}
use way_balancer.Balancer.{
  include_unhealthy, UpstreamSelectionPolicy, SelectionContext, LocalityRoutingPolicy, disabled,
  prefer_locality, prefer_zone, prefer_locality_then_zone,
}
use way_balancer.Balancer.Affinity.{Score}
use way_balancer.Balancer.Locality.{apply_locality_preference}
use way_balancer.Balancer.Locality.Preference.{is_in, preferred, preference_kept}
use way_balancer.Balancer.Eligible.{Candidates, Views, SelectedEndpoint, UpstreamSelectionError}
use way_balancer.Balancer.Eligible.Found.{IsOffered, IsExplained}
use way_balancer.Balancer.Selection.{UpstreamBalancer, select_endpoint}
use way_balancer.Balancer.Selection.Soundness.{selection-IsExplained}

All-preferred :
    (P : EndpointSelectionCandidate → Type 0) (l : LocalityRoutingPolicy) (ds : Candidates)
    (x : SelectionContext)
    → All P ds
    → All P (preferred l ds x)
All-preferred P disabled ds x a = tt
All-preferred P prefer_locality ds x a =
    All-filter P (λ d. is_in d.metadata.locality x.preferred_locality) ds a
All-preferred P prefer_zone ds x a = All-filter P (λ d. is_in d.metadata.zone x.preferred_zone) ds a
All-preferred P prefer_locality_then_zone ds x a =
    let near =
      filter (λ (d : EndpointSelectionCandidate). is_in d.metadata.locality x.preferred_locality)
        ds in
    elim (Bool-cases (is_empty near)) [
      | inl z ↦ rw z (All-filter P (λ d. is_in d.metadata.zone x.preferred_zone) ds a)
      | inr z ↦ rw z (All-filter P (λ d. is_in d.metadata.locality x.preferred_locality) ds a)
    ]

All-preference :
    (P : EndpointSelectionCandidate → Type 0) (ds : Candidates) (p : UpstreamSelectionPolicy)
    (x : SelectionContext)
    → All P ds
    → All P (apply_locality_preference ds p x).0
All-preference P ds p x a =
    rw (preference_kept ds p x) (elim (Bool-cases (is_empty (preferred p.locality ds x))) [
      | inl z ↦ rw z a
      | inr z ↦ rw z (All-preferred P p.locality ds x a)
    ])

-- The registry at the query that offers the candidates.
abbrev pub view_of : Views → Bool → UpstreamHealthRegistry
view_of v false = v.healthy_view
view_of v true = v.fallback_view

offered-query :
    (v : Views) (name : UpstreamClusterName) (p : UpstreamSelectionPolicy) (ds : Candidates)
    (b : Bool)
    → IsOffered v name p ds b
    → selection_candidates (view_of v b) name b ≡ ok ds
offered-query v name p ds false o = o.0
offered-query v name p ds true o = o.2

offered-fallback :
    (v : Views) (name : UpstreamClusterName) (p : UpstreamSelectionPolicy) (ds : Candidates)
    (b : Bool)
    → IsOffered v name p ds b
    → b ≡ true
    → p.no_healthy_fallback ≡ include_unhealthy
offered-fallback v name p ds false o e = ground (arith, e)
offered-fallback v name p ds true o e = o.1

allowed_in_traffic : (b : Bool) (s : EndpointHealthStatus) → is_allowed b s ≡ true → s ≢ ejected
allowed_in_traffic b s e = ground (arith, e)

-- The endpoint selected is the candidate `candidate`, of the query that includes the unhealthy if
-- `unhealthy` says so.
pub record IsServable (v : Views) (name : UpstreamClusterName) (p : UpstreamSelectionPolicy)
    (s : SelectedEndpoint) : Type 0 where
  pub unhealthy : Bool
  pub candidate : EndpointSelectionCandidate
  pub is_candidate : IsCandidate (view_of v unhealthy) name unhealthy candidate
  pub by_policy : unhealthy ≡ true → p.no_healthy_fallback ≡ include_unhealthy
  pub not_ejected : is_candidate.health_record.status ≢ ejected
  pub same_endpoint : s.endpoint_id ≡ candidate.endpoint_id
  pub same_address : s.address ≡ candidate.address
  pub of_cluster : s.cluster_name ≡ name

module _ (v : Views) (name : UpstreamClusterName) (p : UpstreamSelectionPolicy)
    (x : SelectionContext) where
  explained-IsServable :
      (s : SelectedEndpoint)
      → ((b : Bool) → IsAgreed (view_of v b))
      → ((b : Bool)
          → (c : UpstreamCluster) × (Registry.cluster (view_of v b).registry name ≡ some c))
      → IsExplained v name p x (ok s)
      → IsServable v name p s
  explained-IsServable s agreed known (ds, b, c, o, (i, at_i), is) =
      let (u, found) = known b in
      let (cs, k, valid, all) = candidates_exact (view_of v b) name u b (agreed b) found in
      let same_list : cs ≡ ds = ok-injective cs ds (sym k ∙ offered-query v name p ds b o) in
      let P = IsCandidate (view_of v b) name b in
      let one : P c =
        All-get_elem? P i c (apply_locality_preference ds p x).0 at_i
          (All-preference P ds p x (subst (All P) same_list valid)) in
      record {
        unhealthy = b;
        candidate = c;
        is_candidate = one;
        by_policy = offered-fallback v name p ds b o;
        not_ejected = allowed_in_traffic b one.health_record.status one.allowed;
        same_endpoint = ap (λ t. t.endpoint_id) is;
        same_address = ap (λ t. t.address) is;
        of_cluster = ap (λ t. t.cluster_name) is ∙ one.in_cluster;
      }

-- A servable endpoint, or an error with its reason.
abbrev pub IsOutcome :
    Views
    → UpstreamClusterName
    → UpstreamSelectionPolicy
    → SelectionContext
    → Result SelectedEndpoint UpstreamSelectionError
    → Type 0
IsOutcome v name p x (ok s) = IsServable v name p s
IsOutcome v name p x (err e) = IsExplained v name p x (err e)

explained-IsOutcome :
    (v : Views) (name : UpstreamClusterName) (p : UpstreamSelectionPolicy) (x : SelectionContext)
    (r : Result SelectedEndpoint UpstreamSelectionError)
    → ((u : Bool) → IsAgreed (view_of v u))
    → ((u : Bool) → (c : UpstreamCluster) × (Registry.cluster (view_of v u).registry name ≡ some c))
    → IsExplained v name p x r
    → IsOutcome v name p x r
explained-IsOutcome v name p x (ok s) agreed known why =
    explained-IsServable v name p x s agreed known why
explained-IsOutcome v name p x (err e) agreed known why = why

-- While topology and records agree at the queries for candidates, and have the cluster, a selection
-- either returns an endpoint whose record the cluster tracks, in a status that may be selected,
-- never ejected, and unhealthy only if the policy lets a selection fall back to unhealthy
-- endpoints, or fails for one of the reasons that a selection has.
pub selected-IsServable :
    (score : Score) (b : UpstreamBalancer) (v : Views) (name : UpstreamClusterName)
    (p : UpstreamSelectionPolicy) (x : SelectionContext)
    → ((u : Bool) → IsAgreed (view_of v u))
    → ((u : Bool) → (c : UpstreamCluster) × (Registry.cluster (view_of v u).registry name ≡ some c))
    → (r : Result SelectedEndpoint UpstreamSelectionError) × ((select_endpoint score b v name p x).1
        ≡ some r)
      × IsOutcome v name p x r
selected-IsServable score b v name p x agreed known =
    let (r, is, why) = selection-IsExplained score b v name p x in
    (r, is, explained-IsOutcome v name p x r agreed known why)
