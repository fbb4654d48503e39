-- ===== src/Upstream/Samples.antt =====
-- A cluster of two endpoints for the tests.
use way_balancer.Base.{none, [], ◌∷◌, arith}
use way_balancer.Address.{v4, is_unspecified}
use way_balancer.Upstream.{UpstreamCluster, UpstreamEndpoint, EndpointState}
use way_balancer.Upstream.Validation.{IsValidCluster}

abbrev pub first : UpstreamEndpoint
first = record {
  id = 97 ∷ [];
  address = record { ip = v4 10 0 0 1; port = 80 };
  state = EndpointState.ready;
  metadata = record { zone = none; locality = none; weight = 4 };
}

abbrev pub second : UpstreamEndpoint
second = record {
  id = 98 ∷ [];
  address = record { ip = v4 10 0 0 2; port = 80 };
  state = EndpointState.draining;
  metadata = record { zone = none; locality = none; weight = 2 };
}

abbrev pub third : UpstreamEndpoint
third = record {
  id = 99 ∷ [];
  address = record { ip = v4 10 0 0 3; port = 80 };
  state = EndpointState.ready;
  metadata = record { zone = none; locality = none; weight = 1 };
}

abbrev pub pair : UpstreamCluster
pair = record { name = 112 ∷ []; endpoints = first ∷ second ∷ [] }

pub pair-IsValidCluster : IsValidCluster pair
unfolding is_unspecified
pair-IsValidCluster = ground arith
