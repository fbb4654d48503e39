-- ===== src/Guards/Tracker/Leases.antt =====
-- The source quota (crates/runtime/src/source_guards.rs) with the connections that hold a lease.
use way_balancer.Base.{
  ℕ, ◌+◌, ◌-◌, ◌≤◌, ◌≡◌, refl, inl, inr, ◌==◌, leb, if◌then◌else◌, List, [], ◌∷◌, count, get_elem?,
  remove_at, count-remove_at, Option, none, some, Result, ok, err, arith, Option-cases, max,
}
use way_balancer.Base.Order.{same, same_iff, same_refl, list_ord, nat_ord}
use way_balancer.Base.Map.{
  lookup, lookup-insert, lookup-replace_at, lookup-remove, length-insert, length-replace,
  length-remove-le,
}
use way_balancer.Base.Text.{Text}
use way_balancer.Guards.{
  SourceQuotaPolicy, AbuseRejectionReason, source_quota_exceeded, tracked_source_limit_reached,
}
use way_balancer.Guards.Tracker.{
  SourceQuotaTracker, SourceQuotaLease, new, acquire_key, release, drop_lease, tracked_sources,
}

-- A tracker and the leases that are not dropped.
pub record Guarded : Type 0 where
  pub tracker : SourceQuotaTracker
  pub held : List SourceQuotaLease

pub data Visit : Type 0 where
  connect : Text → Visit
  disconnect : ℕ → Visit

-- A connection that is refused has no lease; a lease is dropped once.
pub visit : Guarded → Visit → Guarded
visit g (connect key) =
    let (t, r) = acquire_key g.tracker key in
    record { tracker = t; held = elim r [ ok lease ↦ lease ∷ g.held | err e ↦ g.held ] }
visit g (disconnect i) = elim (get_elem? g.held i) [
  | none ↦ g
  | some lease ↦ record { tracker = drop_lease g.tracker lease; held = remove_at i g.held }
]

pub visits : Guarded → List Visit → Guarded
visits g [] = g
visits g (x ∷ xs) = visits (visit g x) xs

-- How many of the connections are of a source.
abbrev pub connections : Text → List SourceQuotaLease → ℕ
connections k held = count (λ (x : SourceQuotaLease). same x.key k) held

abbrev pub counted_as : ℕ → Option ℕ
counted_as n = if n == 0 then none else some n

pub record IsCounted (p : SourceQuotaPolicy) (g : Guarded) : Type 0 where
  pub configured : g.tracker.policy ≡ p
  pub counted : (k : Text) → lookup k g.tracker.active_by_source ≡ counted_as (connections k g.held)
  pub bounded : (k : Text) → connections k g.held ≤ max 1 p.max_active_per_source
  pub tracked : tracked_sources g.tracker ≤ p.max_tracked_sources

-- What the tracker should answer to a source, by its connections.
abbrev pub verdict : SourceQuotaPolicy → ℕ → ℕ → Text → Result SourceQuotaLease AbuseRejectionReason
verdict p own sources k =
    if own == 0
    then if leb p.max_tracked_sources sources
      then err tracked_source_limit_reached
      else ok (record { key = k })
    else if leb p.max_active_per_source own
    then err source_quota_exceeded
    else ok (record { key = k })

acquire_verdict :
    (p : SourceQuotaPolicy) (g : Guarded) (k : Text)
    → IsCounted p g
    → (acquire_key g.tracker k).1 ≡ verdict p (connections k g.held) (tracked_sources g.tracker) k
unfolding acquire_key tracked_sources
acquire_verdict p g k v = ground (arith, v.configured, v.counted k)

connect-IsCounted :
    (p : SourceQuotaPolicy) (g : Guarded) (key : Text)
    → IsCounted p g
    → IsCounted p (visit g (connect key))
unfolding visit acquire_key tracked_sources
connect-IsCounted p g key v =
    let m = g.tracker.active_by_source in
    let n = connections key g.held in
    record {
      configured = ground (arith, v.configured, v.counted key);
      counted = λ k. ground (
        arith,
        v.configured,
        v.counted k,
        v.counted key,
        same_iff key k,
        lookup-insert key k 1 m,
        lookup-replace_at key k (n + 1) n m,
      );
      bounded = λ k. ground (arith, v.configured, v.counted key, v.bounded k, same_iff key k);
      tracked = ground (
        arith,
        v.configured,
        v.counted key,
        v.tracked,
        length-insert key 1 m,
        length-replace key (n + 1) m,
      );
    }

disconnect-IsCounted :
    (p : SourceQuotaPolicy) (g : Guarded) (i : ℕ)
    → IsCounted p g
    → IsCounted p (visit g (disconnect i))
unfolding visit drop_lease release tracked_sources
disconnect-IsCounted p g i v = elim (Option-cases (get_elem? g.held i)) [
  | inl e ↦ rw (e, visit) v
  | inr (x, e) ↦
      let m = g.tracker.active_by_source in
      let n = connections x.key g.held in
      let rest =
        λ (k : Text). count-remove_at (λ (y : SourceQuotaLease). same y.key k) i x g.held e in
      rw (e, visit)
        (record {
          configured = ground (arith, v.configured, v.counted x.key);
          counted = λ k. ground (
            arith,
            v.counted k,
            v.counted x.key,
            same_iff x.key k,
            same_refl x.key,
            rest k,
            rest x.key,
            lookup-remove x.key k m,
            lookup-replace_at x.key k (n - 1) n m,
          );
          bounded = λ k. ground (arith, v.bounded k, rest k);
          tracked = ground (
            arith,
            v.tracked,
            v.counted x.key,
            length-remove-le x.key m,
            length-replace x.key (n - 1) m,
          );
        })
]

visit-IsCounted :
    (p : SourceQuotaPolicy) (g : Guarded) (x : Visit) → IsCounted p g → IsCounted p (visit g x)
visit-IsCounted p g (connect key) v = connect-IsCounted p g key v
visit-IsCounted p g (disconnect i) v = disconnect-IsCounted p g i v

visits-IsCounted :
    (p : SourceQuotaPolicy) (g : Guarded) (xs : List Visit)
    → IsCounted p g
    → IsCounted p (visits g xs)
unfolding visits
visits-IsCounted p g [] v = v
visits-IsCounted p g (x ∷ xs) v = visits-IsCounted p (visit g x) xs (visit-IsCounted p g x v)

new-IsCounted : (p : SourceQuotaPolicy) → IsCounted p (record { tracker = new p; held = [] })
unfolding new lookup tracked_sources
new-IsCounted p = record {
  configured = refl;
  counted = λ k. refl;
  bounded = λ k. omega arith;
  tracked = omega arith;
}

-- Whatever connections a new tracker has admitted and whichever of them are closed, it counts for
-- each source the open ones, and only sources with an open one are tracked, at most as many as
-- configured. A source never has more connections than its quota, or than one where the quota is
-- zero. The next connection of a source is refused exactly if the source has none and the tracked
-- sources are at their limit, or if it has some and they are at the quota.
pub connections-IsCounted :
    (p : SourceQuotaPolicy) (xs : List Visit) (key : Text)
    → let g = visits (record { tracker = new p; held = [] }) xs in
      IsCounted p g
      × ((acquire_key g.tracker key).1
          ≡ verdict p (connections key g.held) (tracked_sources g.tracker) key)
connections-IsCounted p xs key =
    let g = visits (record { tracker = new p; held = [] }) xs in
    let v = visits-IsCounted p (record { tracker = new p; held = [] }) xs (new-IsCounted p) in
    (v, acquire_verdict p g key v)
