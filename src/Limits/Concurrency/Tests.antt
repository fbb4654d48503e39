-- ===== src/Limits/Concurrency/Tests.antt =====
-- The leases of a concrete concurrency limiter.
use way_balancer.Base.{◌≡◌, refl, List, [], ◌∷◌, ok}
use way_balancer.Limits.{listener, global}
use way_balancer.Limits.Keys.{validate_scope_ok}
use way_balancer.Limits.Concurrency.{
  LocalConcurrencyLimitConfig, LocalConcurrencyLimiter, new, validate, acquire_key,
}
use way_balancer.Limits.Concurrency.Leases.{
  Call, acquire, give_back, World, run, Inv, answer, leases_counted,
}

abbrev two_each : LocalConcurrencyLimitConfig
two_each = record {
  scope = listener (97 ∷ []);
  key_kind = global;
  max_concurrent = 2;
  max_tracked_keys = 1;
}

abbrev idle : LocalConcurrencyLimiter
idle = record {
  config = two_each;
  counts = [];
  active_concurrency = 0;
  acquired_count = 0;
  concurrency_rejection_count = 0;
}

idle-new : new two_each ≡ ok idle
unfolding new validate
idle-new = rw (validate_scope_ok (listener (97 ∷ []))) refl

abbrev calls : List Call
calls = acquire (98 ∷ []) ∷ acquire (98 ∷ []) ∷ acquire (99 ∷ []) ∷ give_back 0 ∷ []

abbrev world : World
world = run (record { limiter = idle; held = [] }) calls

leases_counted_example :
    Inv two_each world × ((acquire_key world.limiter (98 ∷ [])).1 ≡ answer two_each world (98 ∷ []))
leases_counted_example = leases_counted two_each idle calls (98 ∷ []) idle-new
