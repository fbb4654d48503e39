-- ===== src/Overload/Manager/Window.antt =====
-- The window of an overload manager (crates/runtime/src/overload_management.rs), and the signals that
-- it counts.
use way_balancer.Base.{
  ℕ, ◌+◌, ◌-◌, ◌≤◌, ◌<◌, ◌≡◌, refl, Bool, true, ltb, List, [], ◌∷◌, length, filter, All, filter-All,
  All-filter, unwrap_or, wrap64, u64_max, arith, Bool-cases, Option-cases, inl, inr,
}
use way_balancer.Base.Order.{nat_ord}
use way_balancer.Base.Map.{lookup, sum_by, sum_by-insert, value_or-le}
use way_balancer.Overload.{
  OverloadPolicy, OverloadSignal, OverloadSignalKind, active_count, active_kinds,
}
use way_balancer.Overload.Manager.{
  SignalSample, SignalCounts, kind_ord, evict_old_samples, count_kind, count_kinds, count_samples,
  aggregate_signal_counts, sum_counts,
}

-- In the order of their times.
abbrev pub Ascending : List SignalSample → Type 0
Ascending [] = Unit {0}
Ascending (x ∷ xs) = All (λ (y : SignalSample). x.observed_at ≤ y.observed_at) xs × Ascending xs

abbrev pub is_recent : OverloadPolicy → ℕ → SignalSample → Bool
is_recent p now x = ltb (now - x.observed_at) p.signal_window

abbrev pub recent : OverloadPolicy → ℕ → List SignalSample → List SignalSample
recent p now xs = filter (is_recent p now) xs

later_recent :
    (p : OverloadPolicy) (now at : ℕ) (xs : List SignalSample)
    → All (λ (y : SignalSample). at ≤ y.observed_at) xs
    → ltb (now - at) p.signal_window ≡ true
    → All (λ x. is_recent p now x ≡ true) xs
later_recent p now at [] a h = tt
later_recent p now at (x ∷ xs) a h = (ground (arith, a.0, h), later_recent p now at xs a.1 h)

-- Of samples in the order of their times, the loop that drops old ones from the front keeps exactly
-- those within the window.
pub evict-filter :
    (p : OverloadPolicy) (now : ℕ) (xs : List SignalSample)
    → Ascending xs
    → evict_old_samples p now xs ≡ recent p now xs
unfolding evict_old_samples
evict-filter p now [] a = refl
evict-filter p now (x ∷ xs) a = elim (Bool-cases (is_recent p now x)) [
  | inl h ↦
      ground (arith, h, filter-All (is_recent p now) xs (later_recent p now x.observed_at xs a.0 h))
  | inr h ↦ ground (arith, h, evict-filter p now xs a.1)
]

-- What is within the window at a later time was so before.
pub recent_twice :
    (p : OverloadPolicy) (now later : ℕ) (xs : List SignalSample)
    → now ≤ later
    → recent p later (recent p now xs) ≡ recent p later xs
recent_twice p now later [] h = refl
recent_twice p now later (x ∷ xs) h = ground (arith, h, recent_twice p now later xs h)

pub recent-Ascending :
    (p : OverloadPolicy) (now : ℕ) (xs : List SignalSample)
    → Ascending xs
    → Ascending (recent p now xs)
recent-Ascending p now [] a = tt
recent-Ascending p now (x ∷ xs) a = elim (Bool-cases (is_recent p now x)) [
  | inl h ↦ rw h (All-filter _ (is_recent p now) xs a.0, recent-Ascending p now xs a.1)
  | inr h ↦ rw h (recent-Ascending p now xs a.1)
]

-- The signals that the samples hold.
unfoldable pub active : List SignalSample → ℕ
active [] = 0
active (x ∷ xs) = active_count x.signal + active xs

total : SignalCounts → ℕ
total m = sum_by (λ n. n) m

total-count_kind :
    (k : OverloadSignalKind) (m : SignalCounts)
    → total m < u64_max
    → total (count_kind k m) ≡ total m + 1
unfolding count_kind total
total-count_kind k m h =
    let n = unwrap_or (lookup k m) 0 in
    ground (
      arith,
      Option-cases (lookup k m),
      value_or-le (λ n. n) k m,
      sum_by-insert (λ n. n) k (wrap64 (n + 1)) m,
    )

total-count_kinds :
    (ks : List OverloadSignalKind) (m : SignalCounts)
    → total m + length ks ≤ u64_max
    → total (count_kinds ks m) ≡ total m + length ks
unfolding count_kinds
total-count_kinds [] m h = omega arith
total-count_kinds (k ∷ ks) m h = omega (
  arith,
  total-count_kind k m (omega arith),
  total-count_kinds ks (count_kind k m) (omega (arith, total-count_kind k m (omega arith))),
)

length-active_kinds : (s : OverloadSignal) → length (active_kinds s) ≡ active_count s
unfolding active_kinds active_count
length-active_kinds s = ground arith

total-count_samples :
    (xs : List SignalSample) (m : SignalCounts)
    → total m + active xs ≤ u64_max
    → total (count_samples xs m) ≡ total m + active xs
unfolding count_samples active
total-count_samples [] m h = omega arith
total-count_samples (x ∷ xs) m h =
    let l = length-active_kinds x.signal in
    let t = total-count_kinds (active_kinds x.signal) m (omega (arith, l)) in
    omega (
      arith,
      l,
      t,
      total-count_samples xs (count_kinds (active_kinds x.signal) m) (omega (arith, l, t)),
    )

sum_counts-total : (m : SignalCounts) → total m ≤ u64_max → sum_counts m ≡ total m
unfolding sum_counts total
sum_counts-total [] h = refl
sum_counts-total ((k, n) ∷ m) h = omega (arith, sum_counts-total m (omega arith))

-- The counts add up to the signals of the samples.
pub sum_counts-aggregate :
    (xs : List SignalSample)
    → active xs ≤ u64_max
    → sum_counts (aggregate_signal_counts xs) ≡ active xs
unfolding aggregate_signal_counts total
sum_counts-aggregate xs h =
    let t = total-count_samples xs [] (omega arith) in
    omega (arith, t, sum_counts-total (count_samples xs []) (omega (arith, t)))
