-- ===== src/Balancer/Samples.antt =====
-- Candidates for the tests of the balancer.
use way_balancer.Base.{ℕ, Option, none, some, List, [], ◌∷◌}
use way_balancer.Base.Text.{Text}
use way_balancer.Address.{v4}
use way_balancer.Health.{healthy}
use way_balancer.Health.Queries.{EndpointSelectionCandidate}

abbrev pub candidate_in : ℕ → Option Text → EndpointSelectionCandidate
candidate_in letter zone = record {
  cluster_name = 112 ∷ [];
  endpoint_id = letter ∷ [];
  address = record { ip = v4 10 0 0 letter; port = 80 };
  metadata = record { zone = zone; locality = none; weight = 1 };
  health = record {
    status = healthy;
    active_failures = 0;
    passive_failures = 0;
    recovery_successes = 0;
    effective_weight = 1;
    remaining_ejection = none;
    remaining_warmup = none;
    passive_failures_by_protocol = [];
  };
}

abbrev pub two : List EndpointSelectionCandidate
two = candidate_in 97 (some (122 ∷ [])) ∷ candidate_in 98 none ∷ []
