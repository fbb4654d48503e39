-- ===== src/Limits/Concurrency.antt =====
-- `LocalConcurrencyLimiter` of crates/runtime/src/local_limits.rs: counts of the operations in
-- flight, with leases that give them back when they are dropped. A lease that outlives its limiter
-- does nothing; here the limiter is alive.
pub mod Leases
mod Tests
use way_balancer.Base.{
  ℕ, ◌+◌, ◌-◌, Bool, true, false, not, ◌&&◌, ltb, leb, ◌==◌, if◌then◌else◌, List, [], ◌∷◌, length,
  Option, none, some, unwrap_or, Result, ok, err, reject, ◌>>◌, ◌>>=◌, wrap64, u64_max,
}
use way_balancer.Base.Order.{list_ord, nat_ord}
use way_balancer.Base.Map.{Map, lookup, contains_key, insert, replace, remove}
use way_balancer.Base.Text.{Text}
use way_balancer.Address.{IpAddr}
use way_balancer.Limits.{
  LocalLimitScope, LocalLimitKeyKind, LimitContext, LocalLimitError, zero_concurrency_limit,
  zero_tracked_keys, state_saturated, concurrency_limit_exceeded, validate_scope,
  normalize_limit_key,
}

pub record LocalConcurrencyLimitConfig : Type 0 where
  pub scope : LocalLimitScope
  pub key_kind : LocalLimitKeyKind
  pub max_concurrent : ℕ  -- usize
  pub max_tracked_keys : ℕ  -- usize

pub validate : LocalConcurrencyLimitConfig → Result (Unit {0}) LocalLimitError
validate c = do
  validate_scope c.scope
  reject (c.max_concurrent == 0) zero_concurrency_limit
  reject (c.max_tracked_keys == 0) zero_tracked_keys
  ok tt

pub record LocalConcurrencyLimiterMetrics : Type 0 where
  pub acquired_count : ℕ
  pub concurrency_rejection_count : ℕ
  pub active_concurrency : ℕ
  pub tracked_keys : ℕ

pub record LocalConcurrencyLimiter : Type 0 where
  pub config : LocalConcurrencyLimitConfig
  pub counts : Map Text ℕ
  pub active_concurrency : ℕ
  pub acquired_count : ℕ
  pub concurrency_rejection_count : ℕ

pub new : LocalConcurrencyLimitConfig → Result LocalConcurrencyLimiter LocalLimitError
new c = do
  validate c
  ok (record {
    config = c;
    counts = [];
    active_concurrency = 0;
    acquired_count = 0;
    concurrency_rejection_count = 0;
  })

pub record LocalConcurrencyLease : Type 0 where
  pub key : Text

abbrev reject_one : LocalConcurrencyLimiter → LocalConcurrencyLimiter
reject_one l = record l { concurrency_rejection_count = wrap64 (l.concurrency_rejection_count + 1) }

-- `entry(key).or_insert(0)` puts the key before the limit is tested. The count is below its limit
-- where it is incremented.
pub acquire_key :
    LocalConcurrencyLimiter
    → Text
    → LocalConcurrencyLimiter × Result LocalConcurrencyLease LocalLimitError
acquire_key l key =
    let current = unwrap_or (lookup key l.counts) 0 in
    if not (contains_key key l.counts) && (length l.counts == l.config.max_tracked_keys)
    then (reject_one l, err state_saturated)
    else if leb l.config.max_concurrent current
    then (
      record (reject_one l) { counts = insert key current l.counts },
      err concurrency_limit_exceeded,
    )
    else (
      record l {
        counts = insert key (current + 1) l.counts;
        active_concurrency = wrap64 (l.active_concurrency + 1);
        acquired_count = wrap64 (l.acquired_count + 1);
      },
      ok (record { key = key }),
    )

pub try_acquire :
    (IpAddr → Text)
    → LocalConcurrencyLimiter
    → LimitContext
    → LocalConcurrencyLimiter × Result LocalConcurrencyLease LocalLimitError
try_acquire show_ip l x =
    acquire_key l (normalize_limit_key show_ip l.config.scope l.config.key_kind x)

-- `Drop for LocalConcurrencyLease`. `fetch_sub` wraps.
pub drop_lease : LocalConcurrencyLimiter → LocalConcurrencyLease → LocalConcurrencyLimiter
drop_lease l lease = elim (lookup lease.key l.counts) [
  | none ↦ l
  | some n ↦ record l {
    counts = if n - 1 == 0 then remove lease.key l.counts else replace lease.key (n - 1) l.counts;
    active_concurrency = wrap64 (l.active_concurrency + u64_max);
  }
]

pub metrics : LocalConcurrencyLimiter → LocalConcurrencyLimiterMetrics
metrics l = record {
  acquired_count = l.acquired_count;
  concurrency_rejection_count = l.concurrency_rejection_count;
  active_concurrency = l.active_concurrency;
  tracked_keys = length l.counts;
}
