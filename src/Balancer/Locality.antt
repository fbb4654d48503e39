-- ===== src/Balancer/Locality.antt =====
-- `apply_locality_preference` of crates/runtime/src/upstream_balancer.rs.
pub mod Preference
mod Tests
use way_balancer.Base.{
  ℕ, Bool, true, false, if◌then◌else◌, List, [], ◌∷◌, filter, is_empty, Option, none, some,
}
use way_balancer.Base.Order.{same, list_ord, nat_ord}
use way_balancer.Base.Text.{Text}
use way_balancer.Health.Queries.{EndpointSelectionCandidate}
use way_balancer.Balancer.{
  LocalityRoutingPolicy, disabled, prefer_locality, prefer_zone, prefer_locality_then_zone,
  UpstreamSelectionPolicy, SelectionContext,
}

abbrev Candidates : Type 0
Candidates = List EndpointSelectionCandidate

pub prefer_by_field : Candidates → (EndpointSelectionCandidate → Bool) → Candidates × Bool
prefer_by_field candidates predicate =
    let filtered = filter predicate candidates in
    if is_empty filtered then (candidates, false) else (filtered, true)

-- `value.as_deref() == Some(wanted)`
abbrev pub is_field : Option Text → Text → Bool
is_field none wanted = false
is_field (some value) wanted = same value wanted

pub prefer_locality_of : Candidates → Option Text → Candidates × Bool
prefer_locality_of candidates none = (candidates, false)
prefer_locality_of candidates (some locality) =
    prefer_by_field candidates (λ c. is_field c.metadata.locality locality)

pub prefer_zone_of : Candidates → Option Text → Candidates × Bool
prefer_zone_of candidates none = (candidates, false)
prefer_zone_of candidates (some zone) =
    prefer_by_field candidates (λ c. is_field c.metadata.zone zone)

pub route : LocalityRoutingPolicy → Candidates → SelectionContext → Candidates × Bool
route disabled candidates context = (candidates, false)
route prefer_locality candidates context = prefer_locality_of candidates context.preferred_locality
route prefer_zone candidates context = prefer_zone_of candidates context.preferred_zone
route prefer_locality_then_zone candidates context =
    let (filtered, matched) = prefer_locality_of candidates context.preferred_locality in
    if matched then (filtered, true) else prefer_zone_of candidates context.preferred_zone

pub apply_locality_preference :
    Candidates → UpstreamSelectionPolicy → SelectionContext → Candidates × Bool
apply_locality_preference candidates policy context = route policy.locality candidates context
