-- ===== src/Failure/Breaker/Threshold.antt =====
-- When a circuit breaker (crates/runtime/src/failure_management.rs) opens and when it closes again.
use way_balancer.Base.{
  ◌==◌, ℕ, suc, ◌+◌, ◌≤◌, ◌<◌, ◌≡◌, true, false, inl, inr, Bool-cases, if◌then◌else◌, count, List,
  [], ◌∷◌, arith, u32_max, zero,
}
use native.Mathlib.Nat.{add-zero}
use way_balancer.Failure.{UpstreamFailureClass, counts_toward_breaker}
use way_balancer.Failure.Breaker.{
  CircuitBreaker, closed, opened, half_open, record_success, record_failure, success_in, failure_in,
  transition_breaker_state,
}

-- Failures at the given times, and nothing between them.
pub fail_all : CircuitBreaker → List (ℕ × UpstreamFailureClass) → CircuitBreaker
fail_all b [] = b
fail_all b ((now, class) ∷ fs) = fail_all (record_failure b now class) fs

-- `n` successes in a row.
pub succeed_times : CircuitBreaker → ℕ → CircuitBreaker
succeed_times b zero = b
succeed_times b (suc n) = succeed_times (record_success b) n

-- How many of the failures are of a class that counts.
abbrev pub counting : List (ℕ × UpstreamFailureClass) → ℕ
counting fs = count (λ (f : ℕ × UpstreamFailureClass). counts_toward_breaker f.1) fs

-- A closed breaker that has counted `n` failures and opens at the threshold `k`.
pub record IsCounting (b : CircuitBreaker) (n k : ℕ) : Type 0 where
  pub still_closed : b.breaker_record.state ≡ closed
  pub counted : b.breaker_record.consecutive_failures ≡ n
  pub opens_at : b.policy.open_failure_threshold ≡ k

count_step :
    (b : CircuitBreaker) (n k now : ℕ) (class : UpstreamFailureClass)
    → k ≤ u32_max
    → IsCounting b n k
    → counts_toward_breaker class ≡ true
    → n + 1 < k
    → IsCounting (record_failure b now class) (n + 1) k
unfolding record_failure failure_in
count_step b n k now class r v c h = ground arith

open_step :
    (b : CircuitBreaker) (n k now : ℕ) (class : UpstreamFailureClass)
    → k ≤ u32_max
    → IsCounting b n k
    → counts_toward_breaker class ≡ true
    → n + 1 ≡ k
    → ((record_failure b now class).breaker_record.state ≡ opened)
      × ((record_failure b now class).breaker_record.opened_at ≡ now)
unfolding record_failure failure_in transition_breaker_state
open_step b n k now class r v c h = (ground arith, ground arith)

skip_step :
    (b : CircuitBreaker) (now : ℕ) (class : UpstreamFailureClass)
    → counts_toward_breaker class ≡ false
    → record_failure b now class ≡ b
unfolding record_failure
skip_step b now class c = ground (arith, c)

-- A series of failures of which fewer count than the threshold leaves.
fail_all-IsCounting :
    (b : CircuitBreaker) (n k : ℕ) (fs : List (ℕ × UpstreamFailureClass))
    → k ≤ u32_max
    → IsCounting b n k
    → n + counting fs < k
    → IsCounting (fail_all b fs) (n + counting fs) k
unfolding fail_all
fail_all-IsCounting b n k [] r v h = rw add-zero v
fail_all-IsCounting b n k ((t, d) ∷ fs) r v h = elim (Bool-cases (counts_toward_breaker d)) [
  | inr c ↦
      let e : n + (0 + counting fs) ≡ n + counting fs = omega arith in
      rw (c, fail_all, skip_step b t d c, e)
        (fail_all-IsCounting b n k fs r v (ground (arith, c, h)))
  | inl c ↦
      let low : n + 1 + counting fs < k = ground (arith, c, h) in
      let ih =
        fail_all-IsCounting (record_failure b t d) (n + 1) k fs r
          (count_step b n k t d r v c (omega arith)) low in
      let e : n + 1 + counting fs ≡ n + (1 + counting fs) = omega arith in rw (c, ← e) ih
]

-- What the next failure does to a closed breaker that has counted `n` failures: one that counts
-- opens it, at its own time, if it is the last to the threshold, and is counted otherwise; one that
-- does not count changes nothing.
abbrev pub IsNextFailure :
    CircuitBreaker → ℕ → ℕ → ℕ → UpstreamFailureClass → CircuitBreaker → Type 0
IsNextFailure before n k now class after =
    if counts_toward_breaker class
    then (if n + 1 == k
        then (after.breaker_record.state ≡ opened) × (after.breaker_record.opened_at ≡ now)
        else IsCounting after (n + 1) k)
    else after ≡ before

next_failure :
    (b : CircuitBreaker) (n k now : ℕ) (class : UpstreamFailureClass)
    → k ≤ u32_max
    → IsCounting b n k
    → n < k
    → IsNextFailure b n k now class (record_failure b now class)
next_failure b n k now class r v h = elim (Bool-cases (counts_toward_breaker class)) [
  | inr c ↦ rw c (skip_step b now class c)
  | inl c ↦ elim (Bool-cases (n + 1 == k)) [
    | inl e ↦ rw (c, e) (open_step b n k now class r v c (ground (arith, e)))
    | inr d ↦ rw (c, d) (count_step b n k now class r v c (ground (arith, d, h)))
  ]
]

-- A closed breaker stays closed through a series of failures as long as fewer of them count than are
-- left to its threshold, and it has then counted just these. The next failure opens it, at its own
-- time, if it counts and reaches the threshold, is counted if it counts and does not reach it, and
-- changes nothing if it is permanent. The threshold is in the range of u32.
pub opens_at_threshold :
    (b : CircuitBreaker) (n k : ℕ) (fs : List (ℕ × UpstreamFailureClass)) (now : ℕ)
    (class : UpstreamFailureClass)
    → k ≤ u32_max
    → IsCounting b n k
    → n + counting fs < k
    → let before = fail_all b fs in
      IsCounting before (n + counting fs) k
      × IsNextFailure before (n + counting fs) k now class (record_failure before now class)
opens_at_threshold b n k fs now class r v h =
    let before = fail_all-IsCounting b n k fs r v h in
    (before, next_failure (fail_all b fs) (n + counting fs) k now class r before h)

-- A half-open breaker that has counted `n` successes and closes at the threshold `k`.
pub record IsRecovering (b : CircuitBreaker) (n k : ℕ) : Type 0 where
  pub probing : b.breaker_record.state ≡ half_open
  pub counted : b.breaker_record.half_open_successes ≡ n
  pub closes_at : b.policy.half_open_success_threshold ≡ k

recover_step :
    (b : CircuitBreaker) (n k : ℕ)
    → k ≤ u32_max
    → IsRecovering b n k
    → n + 1 < k
    → IsRecovering (record_success b) (n + 1) k
unfolding record_success success_in
recover_step b n k r v h = ground arith

close_step :
    (b : CircuitBreaker) (n k : ℕ)
    → k ≤ u32_max
    → IsRecovering b n k
    → n + 1 ≡ k
    → ((record_success b).breaker_record.state ≡ closed)
      × ((record_success b).breaker_record.consecutive_failures ≡ 0)
      × ((record_success b).breaker_record.half_open_successes ≡ 0)
unfolding record_success success_in transition_breaker_state
close_step b n k r v h = (ground arith, ground arith, ground arith)

-- A half-open breaker closes with the success that reaches the threshold, with both counters reset,
-- and not before it; this for a threshold in the range of u32.
pub closes_at_threshold :
    (b : CircuitBreaker) (n k m : ℕ)
    → k ≤ u32_max
    → IsRecovering b n k
    → n + m + 1 ≡ k
    → IsRecovering (succeed_times b m) (n + m) k
      × ((succeed_times b (suc m)).breaker_record.state ≡ closed)
      × ((succeed_times b (suc m)).breaker_record.consecutive_failures ≡ 0)
      × ((succeed_times b (suc m)).breaker_record.half_open_successes ≡ 0)
unfolding succeed_times
closes_at_threshold b n k zero r v h =
    let last = close_step b n k r v (omega arith) in (rw add-zero v, last.0, last.1, last.2)
closes_at_threshold b n k (suc m) r v h =
    let ih =
      closes_at_threshold (record_success b) (n + 1) k m r (recover_step b n k r v (omega arith))
        (omega arith) in
    let e : n + 1 + m ≡ n + suc m = omega arith in (rw (← e) (ih.0), ih.1, ih.2, ih.3)
