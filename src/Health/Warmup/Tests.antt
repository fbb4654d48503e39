-- ===== src/Health/Warmup/Tests.antt =====
-- The slow-start weight at concrete values.
use way_balancer.Base.{◌≤◌, ◌<◌, ◌≡◌, arith}
use way_balancer.Health.Warmup.{warmup_weight, warmup_weight_bounds}

warmup_weight_bounds_example :
    (0 < warmup_weight 100 2000000000 10000000000 10)
    × (warmup_weight 100 2000000000 10000000000 10 ≤ 100)
    × (10000000000 ≤ 2000000000 → warmup_weight 100 2000000000 10000000000 10 ≡ 100)
warmup_weight_bounds_example =
    warmup_weight_bounds 100 2000000000 10000000000 10 (omega arith) (omega arith) (omega arith)
