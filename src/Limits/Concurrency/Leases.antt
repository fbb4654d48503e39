-- ===== src/Limits/Concurrency/Leases.antt =====
-- The concurrency limiter (crates/runtime/src/local_limits.rs) with the leases that are held.
use way_balancer.Base.{
  ℕ, ◌+◌, ◌-◌, ◌≤◌, ◌<◌, ◌≡◌, inl, inr, ◌&&◌, ◌==◌, leb, if◌then◌else◌, List, [], ◌∷◌, length,
  count, get_elem?, remove_at, count-remove_at, Option, none, some, unwrap_or, Result, ok, err,
  arith, Option-cases, wrap64,
}
use way_balancer.Base.Order.{same, same_iff, same_refl, list_ord, nat_ord}
use way_balancer.Base.Map.{
  lookup, lookup-insert, lookup-replace_at, lookup-remove, length-insert, length-replace,
  length-remove-le,
}
use way_balancer.Base.Text.{Text}
use way_balancer.Limits.{LocalLimitError, state_saturated, concurrency_limit_exceeded}
use way_balancer.Limits.Concurrency.{
  LocalConcurrencyLimitConfig, LocalConcurrencyLimiter, LocalConcurrencyLease, new, validate,
  acquire_key, drop_lease,
}

-- A limiter and the leases that it has given and that are not dropped.
pub record World : Type 0 where
  pub limiter : LocalConcurrencyLimiter
  pub held : List LocalConcurrencyLease

pub data Call : Type 0 where
  acquire : Text → Call
  give_back : ℕ → Call

-- A lease is dropped once: it is one of those held, and is held no longer.
pub step : World → Call → World
step w (acquire key) =
    let (l, r) = acquire_key w.limiter key in
    record { limiter = l; held = elim r [ ok lease ↦ lease ∷ w.held | err e ↦ w.held ] }
step w (give_back i) = elim (get_elem? w.held i) [
  | none ↦ w
  | some lease ↦ record { limiter = drop_lease w.limiter lease; held = remove_at i w.held }
]

pub run : World → List Call → World
run w [] = w
run w (c ∷ cs) = run (step w c) cs

-- How many of the leases are for the key.
abbrev pub holders : Text → List LocalConcurrencyLease → ℕ
holders k held = count (λ (x : LocalConcurrencyLease). same x.key k) held

-- A count is stored unless it is zero.
abbrev pub stored : ℕ → Option ℕ
stored n = if n == 0 then none else some n

pub record Inv (c : LocalConcurrencyLimitConfig) (w : World) : Type 0 where
  pub configured : w.limiter.config ≡ c
  pub counted : (k : Text) → lookup k w.limiter.counts ≡ stored (holders k w.held)
  pub bounded : (k : Text) → holders k w.held ≤ c.max_concurrent
  pub tracked : length w.limiter.counts ≤ c.max_tracked_keys
  pub all_active : w.limiter.active_concurrency ≡ wrap64 (length w.held)

-- What the limiter should answer, by the leases that are held.
abbrev pub answer :
    LocalConcurrencyLimitConfig → World → Text → Result LocalConcurrencyLease LocalLimitError
answer c w k =
    if holders k w.held == 0 && length w.limiter.counts == c.max_tracked_keys
    then err state_saturated
    else if leb c.max_concurrent (holders k w.held)
    then err concurrency_limit_exceeded
    else ok (record { key = k })

acquire_answer :
    (c : LocalConcurrencyLimitConfig) (w : World) (k : Text)
    → Inv c w
    → (acquire_key w.limiter k).1 ≡ answer c w k
unfolding acquire_key
acquire_answer c w k v = ground (arith, v.configured, v.counted k)

holders-remove_at :
    (k : Text) (i : ℕ) (x : LocalConcurrencyLease) (held : List LocalConcurrencyLease)
    → get_elem? held i ≡ some x
    → (holders k (remove_at i held) + (if same x.key k then 1 else 0) ≡ holders k held)
      × (length (remove_at i held) + 1 ≡ length held)
holders-remove_at k i x held h =
    count-remove_at (λ (y : LocalConcurrencyLease). same y.key k) i x held h

acquire-Inv :
    (c : LocalConcurrencyLimitConfig) (w : World) (key : Text)
    → 0 < c.max_concurrent
    → Inv c w
    → Inv c (step w (acquire key))
unfolding step acquire_key
acquire-Inv c w key p v = record {
  configured = ground (arith, v.configured);
  counted = λ k. ground (
    arith,
    v.configured,
    v.counted k,
    v.counted key,
    same_iff key k,
    p,
    lookup-insert key k (unwrap_or (lookup key w.limiter.counts) 0 + 1) w.limiter.counts,
    lookup-insert key k (unwrap_or (lookup key w.limiter.counts) 0) w.limiter.counts,
  );
  bounded = λ k. ground (arith, v.configured, v.counted key, v.bounded k, same_iff key k);
  tracked = ground (
    arith,
    v.configured,
    v.counted key,
    v.tracked,
    p,
    length-insert key (unwrap_or (lookup key w.limiter.counts) 0 + 1) w.limiter.counts,
    length-insert key (unwrap_or (lookup key w.limiter.counts) 0) w.limiter.counts,
  );
  all_active = ground (arith, v.all_active);
}

give_back-Inv :
    (c : LocalConcurrencyLimitConfig) (w : World) (i : ℕ) → Inv c w → Inv c (step w (give_back i))
unfolding step drop_lease
give_back-Inv c w i v = elim (Option-cases (get_elem? w.held i)) [
  | inl e ↦ rw (e, step) v
  | inr (x, e) ↦
      let m = w.limiter.counts in
      let n = holders x.key w.held in
      rw (e, step)
        (record {
          configured = ground (arith, v.configured, v.counted x.key);
          counted = λ k. ground (
            arith,
            v.counted k,
            v.counted x.key,
            same_iff x.key k,
            same_refl x.key,
            holders-remove_at k i x w.held e,
            holders-remove_at x.key i x w.held e,
            lookup-remove x.key k m,
            lookup-replace_at x.key k (n - 1) n m,
          );
          bounded = λ k. ground (arith, v.bounded k, holders-remove_at k i x w.held e);
          tracked = ground (
            arith,
            v.tracked,
            v.counted x.key,
            length-remove-le x.key m,
            length-replace x.key (n - 1) m,
          );
          all_active = ground (
            arith,
            v.all_active,
            v.counted x.key,
            same_refl x.key,
            holders-remove_at x.key i x w.held e,
          );
        })
]

step-Inv :
    (c : LocalConcurrencyLimitConfig) (w : World) (x : Call)
    → 0 < c.max_concurrent
    → Inv c w
    → Inv c (step w x)
step-Inv c w (acquire key) p v = acquire-Inv c w key p v
step-Inv c w (give_back i) p v = give_back-Inv c w i v

run-Inv :
    (c : LocalConcurrencyLimitConfig) (w : World) (xs : List Call)
    → 0 < c.max_concurrent
    → Inv c w
    → Inv c (run w xs)
unfolding run
run-Inv c w [] p v = v
run-Inv c w (x ∷ xs) p v = run-Inv c (step w x) xs p (step-Inv c w x p v)

new-Inv :
    (c : LocalConcurrencyLimitConfig) (l : LocalConcurrencyLimiter)
    → new c ≡ ok l
    → (0 < c.max_concurrent) × Inv c (record { limiter = l; held = [] })
unfolding new validate lookup
new-Inv c l e = (
  ground (arith, e),
  record {
    configured = ground (arith, e);
    counted = λ k. ground (arith, e);
    bounded = λ k. omega arith;
    tracked = ground (arith, e);
    all_active = ground (arith, e);
  },
)

-- Whatever operations a limiter that `new` accepts has let in and whichever leases were dropped, it
-- counts for each key the leases held, at most as many as configured, and stores no other key; its
-- gauge is the number of all leases, modulo 2^64. The next acquisition of a key is refused, as
-- saturated, if the key has no lease and the keys are at their limit, is refused, as over the
-- limit, if the key has all its leases, and otherwise gives a lease.
pub leases_counted :
    (c : LocalConcurrencyLimitConfig) (l : LocalConcurrencyLimiter) (xs : List Call) (key : Text)
    → new c ≡ ok l
    → let w = run (record { limiter = l; held = [] }) xs in
      Inv c w × ((acquire_key w.limiter key).1 ≡ answer c w key)
leases_counted c l xs key e =
    let (p, v) = new-Inv c l e in
    let w = run (record { limiter = l; held = [] }) xs in
    let u = run-Inv c (record { limiter = l; held = [] }) xs p v in (u, acquire_answer c w key u)
