-- ===== src/Balancer/PowerOfTwo/Tests.antt =====
-- Power of two choices at concrete candidates.
use way_balancer.Base.{ℕ, ◌≡◌, ◌≢◌, get_elem?, some, arith}
use way_balancer.Health.Queries.{EndpointSelectionCandidate}
use way_balancer.Balancer.Samples.{two}
use way_balancer.Balancer.PowerOfTwo.{select_power_of_two}
use way_balancer.Balancer.PowerOfTwo.Preferred.{IsPreferred}
use way_balancer.Balancer.PowerOfTwo.Better.{better_of_two}

better_of_two_example :
    (i : ℕ) × (j : ℕ) × (x : EndpointSelectionCandidate) × (y : EndpointSelectionCandidate) × (i
      ≢ j)
    × (get_elem? two i ≡ some x)
    × (get_elem? two j ≡ some y)
    × (select_power_of_two two 7 ≡ some x)
    × (¬ IsPreferred y x)
better_of_two_example = better_of_two two 7 (omega arith)
