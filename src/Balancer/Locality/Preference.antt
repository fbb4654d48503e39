-- ===== src/Balancer/Locality/Preference.antt =====
-- What the locality preference (crates/runtime/src/upstream_balancer.rs) leaves of the candidates.
use way_balancer.Base.{
  ◌≡◌, refl, inl, inr, Bool, true, false, if◌then◌else◌, [], ◌∷◌, filter, is_empty, Option, none,
  some, arith, Bool-cases,
}
use way_balancer.Base.Text.{Text}
use way_balancer.Health.Queries.{EndpointSelectionCandidate}
use way_balancer.Balancer.{
  LocalityRoutingPolicy, disabled, prefer_locality, prefer_zone, prefer_locality_then_zone,
  UpstreamSelectionPolicy, SelectionContext,
}
use way_balancer.Balancer.Locality.{
  Candidates, prefer_by_field, is_field, prefer_locality_of, prefer_zone_of, route,
  apply_locality_preference,
}

-- Whether a candidate is in the wanted place, if one is wanted.
abbrev pub is_in : Option Text → Option Text → Bool
is_in field none = false
is_in field (some wanted) = is_field field wanted

-- The candidates that a policy prefers, and none where it has no preference that any of them meets.
abbrev pub preferred : LocalityRoutingPolicy → Candidates → SelectionContext → Candidates
preferred disabled ds x = []
preferred prefer_locality ds x = filter (λ d. is_in d.metadata.locality x.preferred_locality) ds
preferred prefer_zone ds x = filter (λ d. is_in d.metadata.zone x.preferred_zone) ds
preferred prefer_locality_then_zone ds x =
    let near = filter (λ d. is_in d.metadata.locality x.preferred_locality) ds in
    if is_empty near then filter (λ d. is_in d.metadata.zone x.preferred_zone) ds else near

filter-none : (ds : Candidates) → filter (λ d. false) ds ≡ []
filter-none [] = refl
filter-none (d ∷ ds) = filter-none ds

-- The list that a preference for `near` leaves of `ds`, and whether it is that preference.
abbrev kept : Candidates → Candidates → Candidates × Bool
kept ds near = if is_empty near then (ds, false) else (near, true)

kept_near : (ds near : Candidates) → is_empty near ≡ false → (near, true) ≡ kept ds near
kept_near ds near e = rw e refl

locality_kept :
    (ds : Candidates) (o : Option Text)
    → prefer_locality_of ds o ≡ kept ds (filter (λ d. is_in d.metadata.locality o) ds)
unfolding prefer_locality_of prefer_by_field
locality_kept ds none = ground (arith, filter-none ds)
locality_kept ds (some t) = refl

zone_kept :
    (ds : Candidates) (o : Option Text)
    → prefer_zone_of ds o ≡ kept ds (filter (λ d. is_in d.metadata.zone o) ds)
unfolding prefer_zone_of prefer_by_field
zone_kept ds none = ground (arith, filter-none ds)
zone_kept ds (some t) = refl

route-kept :
    (ds : Candidates) (l : LocalityRoutingPolicy) (x : SelectionContext)
    → route l ds x ≡ kept ds (preferred l ds x)
unfolding route
route-kept ds disabled x = refl
route-kept ds prefer_locality x = locality_kept ds x.preferred_locality
route-kept ds prefer_zone x = zone_kept ds x.preferred_zone
route-kept ds prefer_locality_then_zone x =
    let near =
      filter (λ (d : EndpointSelectionCandidate). is_in d.metadata.locality x.preferred_locality)
        ds in
    elim (Bool-cases (is_empty near)) [
      | inl e ↦ rw (locality_kept ds x.preferred_locality, e) (zone_kept ds x.preferred_zone)
      | inr e ↦ rw (locality_kept ds x.preferred_locality, e) (kept_near ds near e)
    ]

-- The preference keeps the preferred candidates if there are any, and otherwise all of them; it
-- reports which.
pub preference_kept :
    (ds : Candidates) (p : UpstreamSelectionPolicy) (x : SelectionContext)
    → apply_locality_preference ds p x ≡ (
        if is_empty (preferred p.locality ds x)
        then (ds, false)
        else (preferred p.locality ds x, true))
unfolding apply_locality_preference
preference_kept ds p x = route-kept ds p.locality x
