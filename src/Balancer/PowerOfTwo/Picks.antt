-- ===== src/Balancer/PowerOfTwo/Picks.antt =====
-- What power of two choices (crates/runtime/src/upstream_balancer.rs) picks: one of the candidates.
use way_balancer.Base.{ℕ, ◌<◌, refl, List, [], ◌∷◌, length, arith, All, All-get_elem?, IsSomeWith}
use way_balancer.Base.Order.{list_ord, nat_ord, pair_ord}
use way_balancer.Health.Queries.{EndpointSelectionCandidate}
use way_balancer.Balancer.{flag_ord}
use way_balancer.Balancer.PowerOfTwo.{select_power_of_two}
use way_balancer.Balancer.PowerOfTwo.Better.{better_of_two}

module _ (P : EndpointSelectionCandidate → Type 0) where
  pub power_of_two_picks :
      (ds : List EndpointSelectionCandidate) (hash : ℕ)
      → 0 < length ds
      → All P ds
      → IsSomeWith P (select_power_of_two ds hash)
  unfolding select_power_of_two
  power_of_two_picks [] hash p a = ground (arith, p)
  power_of_two_picks (d ∷ []) hash p a = (d, refl, a.0)
  power_of_two_picks (d ∷ e ∷ ds) hash p a =
      let (i, j, x, y, differ, at_i, at_j, chosen, best) =
        better_of_two (d ∷ e ∷ ds) hash (omega arith) in
      (x, chosen, All-get_elem? P i x (d ∷ e ∷ ds) at_i a)
