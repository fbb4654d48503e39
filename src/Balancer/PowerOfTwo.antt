-- ===== src/Balancer/PowerOfTwo.antt =====
-- `select_power_of_two` of crates/runtime/src/upstream_balancer.rs, with the order on candidates.
pub mod Preferred
pub mod Better
pub mod Picks
mod Tests
use Prim.Native.Nat.{compare, Ordering, bit_xor}
use way_balancer.Base.{
  ℕ, ◌+◌, ◌*◌, ◌/◌, ◌%◌, ◌^◌, ◌==◌, if◌then◌else◌, List, [], ◌∷◌, length, get_elem?, Option, none,
  some, wrap64,
}
use way_balancer.Base.Order.{Ord, is_lt, then_with, list_ord, nat_ord}
use way_balancer.Health.{EndpointHealthStatus, healthy, degraded, unhealthy, ejected, warming}
use way_balancer.Health.Queries.{EndpointSelectionCandidate}

pub health_rank : EndpointHealthStatus → ℕ
health_rank healthy = 4
health_rank warming = 3
health_rank degraded = 2
health_rank unhealthy = 1
health_rank ejected = 0

-- By health, then by effective weight, then by nominal weight, and last the lower identifier.
pub compare_candidates : EndpointSelectionCandidate → EndpointSelectionCandidate → Ordering
compare_candidates l r =
    then_with (compare (health_rank l.health.status) (health_rank r.health.status)) (
      then_with (compare l.health.effective_weight r.health.effective_weight) (
        then_with (compare l.metadata.weight r.metadata.weight)
          (list_ord.cmp r.endpoint_id l.endpoint_id)))

-- `value >> n`
abbrev shifted : ℕ → ℕ → ℕ
shifted value n = value / 2 ^ n

pub mix64 : ℕ → ℕ
mix64 value =
    let a = wrap64 (value + 0x9e3779b97f4a7c15) in
    let b = wrap64 (bit_xor a (shifted a 30) * 0xbf58476d1ce4e5b9) in
    let c = wrap64 (bit_xor b (shifted b 27) * 0x94d049bb133111eb) in bit_xor c (shifted c 31)

-- The two indices, for a list of `n` candidates. A usize has 64 bits.
pub indices : ℕ → ℕ → ℕ × ℕ
indices n request_hash =
    let first = mix64 request_hash % n in
    let second = mix64 (bit_xor request_hash 0x9e3779b97f4a7c15) % n in
    (first, if second == first then (second + 1) % n else second)

-- None where the source would index out of range.
pub better :
    Option EndpointSelectionCandidate
    → Option EndpointSelectionCandidate
    → Option EndpointSelectionCandidate
better none b = none
better (some x) none = none
better (some x) (some y) = if is_lt (compare_candidates x y) then some y else some x

pub select_power_of_two : List EndpointSelectionCandidate → ℕ → Option EndpointSelectionCandidate
select_power_of_two ds request_hash =
    let (first, second) = indices (length ds) request_hash in
    if length ds == 1 then get_elem? ds 0 else better (get_elem? ds first) (get_elem? ds second)
