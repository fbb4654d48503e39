-- ===== src/Balancer/RoundRobin/Tests.antt =====
-- Round robin at a concrete history.
use way_balancer.Base.{
  ℕ, ◌≡◌, ◌<◌, refl, true, false, List, [], ◌∷◌, length, get_elem?, some, arith,
}
use way_balancer.Balancer.{ClusterCursorKey}
use way_balancer.Balancer.Samples.{two}
use way_balancer.Balancer.RoundRobin.Rounds.{
  Call, picks, calls_with, IsSteady, every_candidate_served,
}

abbrev main : ClusterCursorKey
main = (112 ∷ [], false)

abbrev history : List Call
history =
    record { key = main; candidates = two }
    ∷ record { key = (112 ∷ [], true); candidates = [] }
    ∷ record { key = main; candidates = two }
    ∷ []

steady : IsSteady main two history
unfolding IsSteady
steady = ground arith

every_candidate_served_example :
    (k : ℕ) × (k < length two) × (get_elem? (picks main [] history) k ≡ some (get_elem? two 1))
unfolding calls_with
every_candidate_served_example =
    every_candidate_served main [] two history 1 (omega arith) steady refl
