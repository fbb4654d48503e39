-- ===== src/Balancer/Locality/Tests.antt =====
-- The locality preference at concrete candidates.
use way_balancer.Base.{◌≡◌, true, false, if◌then◌else◌, [], ◌∷◌, is_empty, none, some}
use way_balancer.Balancer.{
  UpstreamSelectionPolicy, SelectionContext, round_robin, prefer_locality_then_zone, fail,
}
use way_balancer.Balancer.Samples.{two}
use way_balancer.Balancer.Locality.{apply_locality_preference}
use way_balancer.Balancer.Locality.Preference.{preferred, preference_kept}

abbrev near : UpstreamSelectionPolicy
near = record {
  algorithm = round_robin;
  locality = prefer_locality_then_zone;
  no_healthy_fallback = fail;
  affinity = none;
}

abbrev caller : SelectionContext
caller = record {
  preferred_locality = none;
  preferred_zone = some (122 ∷ []);
  affinity_key = none;
  request_hash = 0;
}

preference_kept_example : apply_locality_preference two near caller ≡ (
    if is_empty (preferred prefer_locality_then_zone two caller)
    then (two, false)
    else (preferred prefer_locality_then_zone two caller, true))
preference_kept_example = preference_kept two near caller
