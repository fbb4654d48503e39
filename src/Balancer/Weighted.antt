-- ===== src/Balancer/Weighted.antt =====
-- `select_weighted_round_robin` of crates/runtime/src/upstream_balancer.rs: for each cluster and each
-- kind of candidates, what each endpoint has in credit. An i64 is its distance from `i64::MIN`.
pub mod Picks
pub mod Turns
pub mod Most
pub mod Charges
pub mod Fairness
pub mod Balance
pub mod Rounds
mod Tests
use way_balancer.Base.{
  ℕ, ◌+◌, ◌-◌, Bool, true, false, ◌&&◌, ◌||◌, ltb, ◌==◌, if◌then◌else◌, List, [], ◌∷◌, filter, any,
  Option, none, some, unwrap_or, wrap64, max,
}
use way_balancer.Base.Order.{same, below, list_ord, nat_ord, pair_ord}
use way_balancer.Base.Map.{Map, lookup, insert, replace}
use way_balancer.Upstream.{UpstreamClusterName, UpstreamEndpointId}
use way_balancer.Health.Queries.{EndpointSelectionCandidate}
use way_balancer.Balancer.{ClusterCursorKey, flag_ord}

-- The i64 zero.
abbrev pub zero_credit : ℕ
zero_credit = 9223372036854775808

abbrev pub Credits : Type 0
Credits = Map UpstreamEndpointId ℕ

pub record WeightedState : Type 0 where
  pub total_weight : ℕ  -- i64, never negative
  pub current_weights : Credits

abbrev pub WeightedStates : Type 0
WeightedStates = Map ClusterCursorKey WeightedState

abbrev pub credit_of : UpstreamEndpointId → Credits → ℕ
credit_of id m = unwrap_or (lookup id m) zero_credit

-- `i64::from(effective_weight.max(1))`
abbrev pub weight_of : EndpointSelectionCandidate → ℕ
weight_of c = max c.health.effective_weight 1

pub total_of : List EndpointSelectionCandidate → ℕ
total_of [] = 0
total_of (c ∷ cs) = weight_of c + total_of cs

-- `retain` of the endpoints that are candidates.
abbrev pub retain_candidates : List EndpointSelectionCandidate → Credits → Credits
retain_candidates cs m =
    filter
      (λ (x : UpstreamEndpointId × ℕ).
        any (λ (c : EndpointSelectionCandidate). same c.endpoint_id x.0) cs)
      m

abbrev pub Best : Type 0
Best = Option (EndpointSelectionCandidate × ℕ)

-- The best of the loop after a candidate with its credit.
pub heavier : Best → EndpointSelectionCandidate → ℕ → Best
heavier none c current = some (c, current)
heavier (some (b, weight)) c current =
    if ltb weight current || (current == weight && below c.endpoint_id b.endpoint_id)
    then some (c, current)
    else some (b, weight)

-- The loop that gives each candidate its weight.
pub credit_all : List EndpointSelectionCandidate → Credits → Best → Credits × Best
credit_all [] m best = (m, best)
credit_all (c ∷ cs) m best =
    let current = wrap64 (credit_of c.endpoint_id m + weight_of c) in
    credit_all cs (insert c.endpoint_id current m) (heavier best c current)

-- `*current -= total_weight`, which wraps.
pub charge : EndpointSelectionCandidate → ℕ → Credits → Credits
charge c total m = elim (lookup c.endpoint_id m) [
  | none ↦ m
  | some current ↦ replace c.endpoint_id (wrap64 (current + (18446744073709551616 - total))) m
]

-- One turn on the credits.
pub turn : List EndpointSelectionCandidate → Credits → Credits × Option EndpointSelectionCandidate
turn candidates m =
    let (credited, best) = credit_all candidates (retain_candidates candidates m) none in
    elim best [
      | none ↦ (credited, none)
      | some (c, weight) ↦ (charge c (total_of candidates) credited, some c)
    ]

-- The pick is none where the source would index out of range.
pub select_weighted_round_robin :
    WeightedStates
    → UpstreamClusterName
    → List EndpointSelectionCandidate
    → Bool
    → WeightedStates × Option EndpointSelectionCandidate
select_weighted_round_robin states name candidates fallback_used =
    let key : ClusterCursorKey = (name, fallback_used) in
    let fresh : WeightedState = record { total_weight = 0; current_weights = [] } in
    let state = unwrap_or (lookup key states) fresh in
    let (credits, pick) = turn candidates state.current_weights in
    (
      insert key (record { total_weight = total_of candidates; current_weights = credits }) states,
      pick,
    )
