-- ===== src/Balancer/Weighted/Picks.antt =====
-- What weighted round robin (crates/runtime/src/upstream_balancer.rs) picks: one of the candidates.
use way_balancer.Base.{
  ℕ, ◌+◌, ◌<◌, ◌≡◌, refl, ◌⊎◌, inl, inr, Bool, ◌==◌, ltb, ◌&&◌, ◌||◌, List, [], ◌∷◌, length, some,
  unwrap_or, arith, Bool-cases, All, IsSomeWith, wrap64,
}
use way_balancer.Base.Order.{below, list_ord, nat_ord, pair_ord}
use way_balancer.Base.Map.{lookup, insert}
use way_balancer.Upstream.{UpstreamClusterName}
use way_balancer.Health.Queries.{EndpointSelectionCandidate}
use way_balancer.Balancer.{flag_ord}
use way_balancer.Balancer.Weighted.{
  WeightedStates, WeightedState, Credits, credit_of, weight_of, heavier, credit_all, turn,
  retain_candidates, select_weighted_round_robin,
}

heavier_either :
    (b d : EndpointSelectionCandidate) (n k : ℕ)
    → (heavier (some (b, n)) d k ≡ some (d, k)) ⊎ (heavier (some (b, n)) d k ≡ some (b, n))
unfolding heavier
heavier_either b d n k =
    elim (Bool-cases (ltb n k || (k == n && below d.endpoint_id b.endpoint_id))) [
      | inl h ↦ inl (rw h refl)
      | inr h ↦ inr (rw h refl)
    ]

module _ (P : EndpointSelectionCandidate → Type 0) where
  -- The best of the loop, with a best to begin with.
  credit_all_picks :
      (ds : List EndpointSelectionCandidate) (m : Credits) (b : EndpointSelectionCandidate) (n : ℕ)
      → P b
      → All P ds
      → (c : EndpointSelectionCandidate) × (w : ℕ) × ((credit_all ds m (some (b, n))).1
          ≡ some (c, w))
        × P c
  unfolding credit_all
  credit_all_picks [] m b n q a = (b, n, refl, q)
  credit_all_picks (d ∷ ds) m b n q a =
      let k = wrap64 (credit_of d.endpoint_id m + weight_of d) in
      let m' = insert d.endpoint_id k m in
      elim (heavier_either b d n k) [
        | inl e ↦ rw (credit_all, e) (credit_all_picks ds m' d k a.0 a.1)
        | inr e ↦ rw (credit_all, e) (credit_all_picks ds m' b n q a.1)
      ]

  pub turn_picks :
      (ds : List EndpointSelectionCandidate) (m : Credits)
      → 0 < length ds
      → All P ds
      → IsSomeWith P (turn ds m).1
  unfolding turn credit_all heavier
  turn_picks [] m p a = ground (arith, p)
  turn_picks (d ∷ ds) m p a =
      let kept = retain_candidates (d ∷ ds) m in
      let k = wrap64 (credit_of d.endpoint_id kept + weight_of d) in
      let (c, w, e, q) = credit_all_picks ds (insert d.endpoint_id k kept) d k a.0 a.1 in
      (c, ground (arith, e), q)

  pub weighted_picks :
      (states : WeightedStates) (name : UpstreamClusterName) (ds : List EndpointSelectionCandidate)
      (b : Bool)
      → 0 < length ds
      → All P ds
      → IsSomeWith P (select_weighted_round_robin states name ds b).1
  unfolding select_weighted_round_robin
  weighted_picks states name ds b p a =
      let fresh : WeightedState = record { total_weight = 0; current_weights = [] } in
      turn_picks ds (unwrap_or (lookup (name, b) states) fresh).current_weights p a
