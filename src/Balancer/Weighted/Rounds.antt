-- ===== src/Balancer/Weighted/Rounds.antt =====
-- Rounds of weighted round robin (crates/runtime/src/upstream_balancer.rs): as many turns as the
-- weights add up to.
use native.Mathlib.Nat.{mul-suc, lt_of_mul-lt-mul_left}
use way_balancer.Base.{
  ℕ, zero, suc, ◌+◌, ◌*◌, ◌<◌, ◌≡◌, refl, ap, ◌∙◌, Bool, [], ◌∷◌, length, none, some, unwrap_or,
  arith, Each, sum_of-tight, sum_of-zero,
}
use way_balancer.Base.Order.{same_refl, list_ord, nat_ord, pair_ord}
use way_balancer.Base.Map.{lookup, lookup-insert}
use way_balancer.Upstream.{UpstreamClusterName, UpstreamEndpointId}
use way_balancer.Health.Queries.{EndpointSelectionCandidate}
use way_balancer.Balancer.{ClusterCursorKey, flag_ord}
use way_balancer.Balancer.Weighted.{
  Credits, WeightedState, WeightedStates, credit_of, weight_of, total_of, turn,
  select_weighted_round_robin,
}
use way_balancer.Balancer.Weighted.Turns.{Candidates, IsDistinct}
use way_balancer.Balancer.Weighted.Charges.{turn-Serves}
use way_balancer.Balancer.Weighted.Fairness.{hit, IsFair, total_of-sum_of, weight_in}
use way_balancer.Balancer.Weighted.Balance.{turn-IsFair}

-- How often `k` selections from the same candidates pick an endpoint.
pub served : UpstreamEndpointId → ℕ → WeightedStates → UpstreamClusterName → Candidates → Bool → ℕ
served id zero states name ds fallback_used = 0
served id (suc k) states name ds fallback_used =
    let (states', pick) = select_weighted_round_robin states name ds fallback_used in
    hit pick id + served id k states' name ds fallback_used

abbrev no_state : WeightedState
no_state = record { total_weight = 0; current_weights = [] }

abbrev credits_in : ClusterCursorKey → WeightedStates → Credits
credits_in key states = (unwrap_or (lookup key states) no_state).current_weights

-- The picks of a whole round are the weights.
fair_end :
    (ds : Candidates) (n : UpstreamEndpointId → ℕ) (m : Credits)
    → IsFair ds (total_of ds) n m
    → Each ds (λ d. n d.endpoint_id ≡ weight_of d)
fair_end ds n m v =
    sum_of-tight (λ (d : EndpointSelectionCandidate). n d.endpoint_id) weight_of ds
      (λ i d h.
        let short : total_of ds * n d.endpoint_id < total_of ds * (weight_of d + 1) =
          omega (arith, v.balanced i d h, v.above i d h, mul-suc (total_of ds) (weight_of d)) in
        omega (arith, lt_of_mul-lt-mul_left (total_of ds) short))
      (omega (arith, v.counted, total_of-sum_of ds))

module _ (name : UpstreamClusterName) (ds : Candidates) (f : Bool) (u : IsDistinct ds)
    (small : total_of ds < 2147483648) where
  selected :
      (states : WeightedStates)
      → (credits_in (name, f) (select_weighted_round_robin states name ds f).0
          ≡ (turn ds (credits_in (name, f) states)).0)
        × ((select_weighted_round_robin states name ds f).1
            ≡ (turn ds (credits_in (name, f) states)).1)
  unfolding select_weighted_round_robin
  selected states =
      let m = turn ds (credits_in (name, f) states) in
      let next : WeightedState = record { total_weight = total_of ds; current_weights = m.0 } in
      let stored : lookup (name, f) (select_weighted_round_robin states name ds f).0 ≡ some next =
        lookup-insert (name, f) (name, f) next states
        ∙ rw (same_refl {A = ClusterCursorKey} (name, f)) refl in
      (ap (λ o. (unwrap_or o no_state).current_weights) stored, refl)

  filled : (t : ℕ) → t < total_of ds → 0 < length ds
  unfolding total_of
  filled t e = filled_list ds t e
    where
      filled_list : (xs : Candidates) (k : ℕ) → k < total_of xs → 0 < length xs
      filled_list [] k h = omega arith
      filled_list (x ∷ xs) k h = omega arith

  rest_of_round :
      (k t : ℕ) (n : UpstreamEndpointId → ℕ) (states : WeightedStates)
      → t + k ≡ total_of ds
      → IsFair ds t n (credits_in (name, f) states)
      → Each ds (λ d. n d.endpoint_id + served d.endpoint_id k states name ds f ≡ weight_of d)
  unfolding served
  rest_of_round zero t n states e v i d h =
      let done : t ≡ total_of ds = omega arith in
      omega (arith, fair_end ds n (credits_in (name, f) states) (rw (← done) v) i d h)
  rest_of_round (suc k) t n states e v i d h =
      let m = credits_in (name, f) states in
      let (c, o) = turn-Serves ds m u (filled t (omega arith)) in
      let s' = select_weighted_round_robin states name ds f in
      let (after, pick) = selected states in
      let next = turn-IsFair ds t n m u small (omega arith) v c o in
      let rest =
        rest_of_round k (t + 1) (λ id. n id + hit (some c) id) s'.0 (omega arith) (rw after next) i
          d h in
      omega (arith, rest, ap (λ p. hit p d.endpoint_id) (pick ∙ o.picked))

  fresh-IsFair :
      (states : WeightedStates)
      → lookup (name, f) states ≡ none
      → IsFair ds 0 (λ id. 0) (credits_in (name, f) states)
  unfolding lookup
  fresh-IsFair states e =
      let empty : credits_in (name, f) states ≡ [] =
        ap (λ o. (unwrap_or o no_state).current_weights) e in
      let no_credit : (id : UpstreamEndpointId)
          → credit_of id (credits_in (name, f) states) ≡ 9223372036854775808 =
        λ id. ap (λ m. credit_of id m) empty in
      record {
        balanced = λ i d h. omega (arith, no_credit d.endpoint_id);
        above = λ i d h. omega (arith, no_credit d.endpoint_id, weight_in ds i d h);
        counted = sum_of-zero ds;
      }

-- In a round, as many selections as the weights of the candidates add up to, weighted round robin
-- picks each candidate exactly as often as its weight says, if the candidates are different
-- endpoints, do not change, and weigh less than 2^31 together, and the cluster has no state yet.
pub served_by_weight :
    (states : WeightedStates) (name : UpstreamClusterName) (ds : Candidates) (f : Bool)
    → IsDistinct ds
    → total_of ds < 2147483648
    → lookup (name, f) states ≡ none
    → Each ds (λ d. served d.endpoint_id (total_of ds) states name ds f ≡ weight_of d)
served_by_weight states name ds f u small e i d h = omega (
  arith,
  rest_of_round name ds f u small (total_of ds) 0 (λ id. 0) states (omega arith)
      (fresh-IsFair name ds f u small states e) i d h,
)
