-- ===== src/Health/Record/Signals.antt =====
-- Series of signals on one health record (crates/runtime/src/upstream_health.rs).
use way_balancer.Base.{
  ℕ, zero, suc, ◌+◌, ◌-◌, ap, ◌≤◌, ◌<◌, ◌≡◌, refl, inl, inr, true, false, ◌==◌, if◌then◌else◌,
  arith, u32_max, leb, Bool-cases, ◌∙◌,
}
use way_balancer.Health.{
  EndpointHealthPolicy, EndpointHealthStatus, healthy, unhealthy, warming, ejected, is_ejected,
}
use way_balancer.Health.Record.Time.{still_ejected}
use way_balancer.Health.Record.{
  EndpointHealthRecord, HealthSignal, active_success, active_failure, receive, combined_failures,
  transition_on_failures, transition_on_success, advance,
}

-- The same signal `n` times.
pub receive_times :
    ℕ → HealthSignal → EndpointHealthRecord → EndpointHealthPolicy → EndpointHealthRecord
receive_times zero s r p = r
receive_times (suc n) s r p = receive_times n s (receive s r p) p

fail_step :
    (r : EndpointHealthRecord) (p : EndpointHealthPolicy)
    → is_ejected r.status ≡ false
    → r.active_failures + r.passive_failures < u32_max
    → let q = receive active_failure r p in
      (q.active_failures ≡ r.active_failures + 1)
      × (q.passive_failures ≡ r.passive_failures)
      × (is_ejected q.status
          ≡ leb p.ejection_failure_threshold (r.active_failures + r.passive_failures + 1))
      × (is_ejected q.status ≡ true → q.remaining_ejection ≡ p.ejection_duration)
unfolding receive transition_on_failures combined_failures
fail_step r p e h = (ground arith, ground arith, ground arith, λ d. ground arith)

ejected_step :
    (r : EndpointHealthRecord) (p : EndpointHealthPolicy)
    → is_ejected r.status ≡ true
    → ((receive active_failure r p).status ≡ r.status)
      × ((receive active_failure r p).remaining_ejection ≡ r.remaining_ejection)
unfolding receive transition_on_failures
ejected_step r p e = (ground arith, ground arith)

ejected_times :
    (n : ℕ) (r : EndpointHealthRecord) (p : EndpointHealthPolicy)
    → is_ejected r.status ≡ true
    → (is_ejected (receive_times n active_failure r p).status ≡ true)
      × ((receive_times n active_failure r p).remaining_ejection ≡ r.remaining_ejection)
unfolding receive_times
ejected_times zero r p e = (e, refl)
ejected_times (suc n) r p e =
    let (s, t) = ejected_step r p e in
    let (is, same) = ejected_times n (receive active_failure r p) p (rw s e) in (is, same ∙ t)

-- The failures up to the threshold, with no time between them.
threshold_reached :
    (n : ℕ) (r : EndpointHealthRecord) (p : EndpointHealthPolicy)
    → is_ejected r.status ≡ false
    → r.active_failures + r.passive_failures + suc n ≤ u32_max
    → let q = receive_times (suc n) active_failure r p in
      (is_ejected q.status
        ≡ leb p.ejection_failure_threshold (r.active_failures + r.passive_failures + suc n))
      × (is_ejected q.status ≡ true → q.remaining_ejection ≡ p.ejection_duration)
unfolding receive_times
threshold_reached zero r p e h =
    let (a, b, c, d) = fail_step r p e (omega arith) in (ground (arith, c), d)
threshold_reached (suc n) r p e h =
    let (a, b, c, d) = fail_step r p e (omega arith) in
    let q = receive active_failure r p in
    elim (Bool-cases (is_ejected q.status)) [
      | inl out ↦
          let (is, same) = ejected_times (suc n) q p out in
          (ground (arith, is, out, c), λ _. same ∙ d out)
      | inr still ↦
          let ih = threshold_reached n q p still (omega (arith, a, b)) in
          (ground (arith, ih.0, a, b), ih.1)
    ]

is_ejected-ejected : (s : EndpointHealthStatus) → is_ejected s ≡ true → s ≡ ejected
is_ejected-ejected s e = ground (arith, e)

still_out :
    (r : EndpointHealthRecord) (p : EndpointHealthPolicy) (elapsed m : ℕ)
    → is_ejected r.status ≡ true
    → elapsed < r.remaining_ejection
    → let late = receive_times m active_failure (advance p elapsed r).0 p in
      (is_ejected late.status ≡ true) × (late.remaining_ejection ≡ r.remaining_ejection - elapsed)
still_out r p elapsed m e lt =
    let (out, left) = still_ejected p elapsed r (is_ejected-ejected r.status e) lt in
    let q = (advance p elapsed r).0 in
    let (is, same) = ejected_times m q p (rw out refl) in (is, same ∙ left)

-- In a series of active failures an endpoint that is not ejected becomes ejected exactly when its
-- active and passive failures together reach the ejection threshold, and then has the whole ejection
-- duration left. After a tick that leaves some of it, any number of further active failures leave the
-- endpoint ejected and do not prolong the ejection: what is left is the duration less the tick. This
-- for sums of failures in the range of u32.
pub ejected_iff_threshold :
    (n : ℕ) (r : EndpointHealthRecord) (p : EndpointHealthPolicy) (elapsed m : ℕ)
    → is_ejected r.status ≡ false
    → r.active_failures + r.passive_failures + suc n ≤ u32_max
    → elapsed < p.ejection_duration
    → let q = receive_times (suc n) active_failure r p in
      let late = receive_times m active_failure (advance p elapsed q).0 p in
      (is_ejected q.status
        ≡ leb p.ejection_failure_threshold (r.active_failures + r.passive_failures + suc n))
      × (is_ejected q.status ≡ true → q.remaining_ejection ≡ p.ejection_duration)
      × (is_ejected q.status ≡ true
          → (is_ejected late.status ≡ true)
            × (late.remaining_ejection ≡ p.ejection_duration - elapsed))
ejected_iff_threshold n r p elapsed m e h lt =
    let (reached, whole) = threshold_reached n r p e h in
    let q = receive_times (suc n) active_failure r p in
    (
      reached,
      whole,
      λ out.
          let (is, left) = still_out q p elapsed m out (omega (arith, whole out, lt)) in
          (is, left ∙ ap (λ k. k - elapsed) (whole out)),
    )

-- An endpoint that has counted `n` of the `k` successes it needs to return to traffic.
pub record IsRecovering (r : EndpointHealthRecord) (p : EndpointHealthPolicy) (n k : ℕ)
    : Type 0 where
  pub out : r.status ≡ unhealthy
  pub counted : r.recovery_successes ≡ n
  pub needed : p.recovery_success_threshold ≡ k

recover_step :
    (r : EndpointHealthRecord) (p : EndpointHealthPolicy) (n k : ℕ)
    → k ≤ u32_max
    → IsRecovering r p n k
    → n + 1 < k
    → IsRecovering (receive active_success r p) p (n + 1) k
unfolding receive transition_on_success
recover_step r p n k h v lt = ground arith

return_step :
    (r : EndpointHealthRecord) (p : EndpointHealthPolicy) (n k : ℕ)
    → k ≤ u32_max
    → IsRecovering r p n k
    → n + 1 ≡ k
    → let q = receive active_success r p in
      (q.status ≡ (if p.warmup_duration == 0 then healthy else warming))
      × (q.active_failures ≡ 0)
      × (q.passive_failures ≡ 0)
      × (q.recovery_successes ≡ 0)
unfolding receive transition_on_success
return_step r p n k h v e = (ground arith, ground arith, ground arith, ground arith)

-- An unhealthy endpoint stays out of traffic until the active success that reaches the recovery
-- threshold, which readmits it, warming if the policy has a warm-up, with its failures forgotten;
-- this for a threshold in the range of u32.
pub returns_at_threshold :
    (m : ℕ) (r : EndpointHealthRecord) (p : EndpointHealthPolicy) (n k : ℕ)
    → k ≤ u32_max
    → IsRecovering r p n k
    → n + m + 1 ≡ k
    → let before = receive_times m active_success r p in
      let after = receive active_success before p in
      (before.status ≡ unhealthy)
      × (after.status ≡ (if p.warmup_duration == 0 then healthy else warming))
      × (after.active_failures ≡ 0)
      × (after.passive_failures ≡ 0)
unfolding receive_times
returns_at_threshold zero r p n k h v e =
    let (s, a, b, c) = return_step r p n k h v (omega arith) in (v.out, s, a, b)
returns_at_threshold (suc m) r p n k h v e =
    returns_at_threshold m (receive active_success r p) p (n + 1) k h
      (recover_step r p n k h v (omega arith)) (omega arith)
