-- ===== src/Limits/Rate.antt =====
-- `LocalRateLimiter` of crates/runtime/src/local_limits.rs: a fixed window for each key, with a bound
-- on the keys. `check` holds the lock on the state throughout.
pub mod Bounds
pub mod Quota
mod Tests
use way_balancer.Base.{
  ℕ, ◌+◌, ◌-◌, Bool, true, false, not, ◌&&◌, ltb, leb, ◌==◌, if◌then◌else◌, List, [], ◌∷◌, length,
  Option, none, some, unwrap_or, Result, ok, err, reject, ◌>>◌, ◌>>=◌, wrap64,
}
use way_balancer.Base.Order.{list_ord, nat_ord}
use way_balancer.Base.Map.{Map, lookup, contains_key, insert, remove}
use way_balancer.Base.Text.{Text}
use way_balancer.Address.{IpAddr}
use way_balancer.Limits.{
  LocalLimitScope, LocalLimitKeyKind, LimitContext, LocalLimitError, zero_rate_limit,
  zero_rate_window, zero_tracked_keys, state_saturated, validate_scope, normalize_limit_key,
  duration_tick,
}

pub record LocalRateLimitConfig : Type 0 where
  pub scope : LocalLimitScope
  pub key_kind : LocalLimitKeyKind
  pub requests_per_window : ℕ  -- u64
  pub window : ℕ
  pub max_tracked_keys : ℕ  -- usize

pub validate : LocalRateLimitConfig → Result (Unit {0}) LocalLimitError
validate c = do
  validate_scope c.scope
  reject (c.requests_per_window == 0) zero_rate_limit
  reject (c.window == 0) zero_rate_window
  reject (c.max_tracked_keys == 0) zero_tracked_keys
  ok tt

pub record LocalRateLimiterMetrics : Type 0 where
  pub allowed_count : ℕ
  pub rate_limited_count : ℕ
  pub tracked_keys : ℕ

pub record RateLimitDecision : Type 0 where
  pub allowed : Bool
  pub remaining : ℕ
  pub retry_after : Option ℕ

pub record RateWindowState : Type 0 where
  pub window_started : ℕ
  pub count : ℕ  -- u64
  pub last_seen_tick : ℕ

abbrev pub Windows : Type 0
Windows = Map Text RateWindowState

pub record LocalRateLimiter : Type 0 where
  pub config : LocalRateLimitConfig
  pub state : Windows
  pub allowed_count : ℕ
  pub rate_limited_count : ℕ

pub new : LocalRateLimitConfig → Result LocalRateLimiter LocalLimitError
new c = do
  validate c
  ok (record { config = c; state = []; allowed_count = 0; rate_limited_count = 0 })

-- `min_by_key` gives the first of the entries with the least tick.
pub oldest : Windows → Option (Text × ℕ)
oldest [] = none
oldest ((k, w) ∷ m) = elim (oldest m) [
  | none ↦ some (k, w.last_seen_tick)
  | some (j, tick) ↦
      if leb w.last_seen_tick tick then some (k, w.last_seen_tick) else some (j, tick)
]

pub evict_oldest_key : Windows → Windows
evict_oldest_key m = elim (oldest m) [ none ↦ m | some (k, tick) ↦ remove k m ]

-- The entry of the key, in a new window if the old one is over.
pub current_entry : LocalRateLimitConfig → ℕ → Option RateWindowState → RateWindowState
current_entry c now found =
    let fresh : RateWindowState = record {
      window_started = now;
      count = 0;
      last_seen_tick = duration_tick now;
    } in
    let entry = unwrap_or found fresh in
    if leb c.window (now - entry.window_started)
    then fresh
    else record entry { last_seen_tick = duration_tick now }

-- The map after the eviction that a new key may need.
pub make_room : LocalRateLimitConfig → Text → Windows → Windows
make_room c key m =
    if not (contains_key key m) && (length m == c.max_tracked_keys) then evict_oldest_key m else m

-- The decision on an entry, with the counters. The count is below its limit where it is incremented.
pub admit : LocalRateLimiter → Text → ℕ → RateWindowState → LocalRateLimiter × RateLimitDecision
admit l key now e =
    if leb l.config.requests_per_window e.count
    then (
      record l {
        state = insert key e l.state;
        rate_limited_count = wrap64 (l.rate_limited_count + 1);
      },
      record {
        allowed = false;
        remaining = 0;
        retry_after = some (l.config.window - (now - e.window_started));
      },
    )
    else (
      record l {
        state = insert key (record e { count = e.count + 1 }) l.state;
        allowed_count = wrap64 (l.allowed_count + 1);
      },
      record {
        allowed = true;
        remaining = l.config.requests_per_window - (e.count + 1);
        retry_after = none;
      },
    )

pub check_key :
    LocalRateLimiter → ℕ → Text → LocalRateLimiter × Result RateLimitDecision LocalLimitError
check_key l now key =
    let room = make_room l.config key l.state in
    if not (contains_key key room) && (length room == l.config.max_tracked_keys)
    then (
      record l { state = room; rate_limited_count = wrap64 (l.rate_limited_count + 1) },
      err state_saturated,
    )
    else (let (q, d) =
          admit (record l { state = room }) key now
            (current_entry l.config now (lookup key room)) in
        (q, ok d))

pub check :
    (IpAddr → Text)
    → LocalRateLimiter
    → ℕ
    → LimitContext
    → LocalRateLimiter × Result RateLimitDecision LocalLimitError
check show_ip l now x =
    check_key l now (normalize_limit_key show_ip l.config.scope l.config.key_kind x)

pub metrics : LocalRateLimiter → LocalRateLimiterMetrics
metrics l = record {
  allowed_count = l.allowed_count;
  rate_limited_count = l.rate_limited_count;
  tracked_keys = length l.state;
}
