-- ===== src/Failure/Breaker/Cooldown.antt =====
-- An open circuit breaker (crates/runtime/src/failure_management.rs) under a series of requests.
use way_balancer.Base.{
  ℕ, ◌+◌, ◌-◌, ◌≤◌, ◌<◌, ◌≡◌, refl, ap, ◌∙◌, Bool, true, false, List, [], ◌∷◌, All, arith,
  if◌then◌else◌,
}
use way_balancer.Failure.Breaker.{
  CircuitBreaker, CircuitBreakerPolicy, CircuitBreakerRecord, opened, half_open, allow_request,
  half_open_if_due, decide, rearm_if_due, admit_probe, transition_breaker_state,
}
use way_balancer.Failure.Breaker.Invariant.{Inv}

-- Requests at the given times, and nothing reported between them.
pub requests : CircuitBreaker → List ℕ → CircuitBreaker
requests b [] = b
requests b (now ∷ ts) = requests (allow_request b now).0 ts

-- How many of them are admitted.
unfoldable pub admissions : CircuitBreaker → List ℕ → ℕ
admissions b [] = 0
admissions b (now ∷ ts) =
    (if (allow_request b now).1 then 1 else 0) + admissions (allow_request b now).0 ts

reject_open :
    (b : CircuitBreaker) (now : ℕ)
    → b.breaker_record.state ≡ opened
    → now - b.breaker_record.opened_at < b.policy.open_duration
    → ((allow_request b now).1 ≡ false)
      × ((allow_request b now).0.breaker_record ≡ b.breaker_record)
      × ((allow_request b now).0.policy ≡ b.policy)
unfolding allow_request half_open_if_due decide
reject_open b now o h = (ground arith, ground arith, ground arith)

requests_rejected :
    (b : CircuitBreaker) (r : CircuitBreakerRecord) (duration : ℕ) (ts : List ℕ)
    → b.breaker_record ≡ r
    → b.policy.open_duration ≡ duration
    → r.state ≡ opened
    → All (λ t. t - r.opened_at < duration) ts
    → (admissions b ts ≡ 0)
      × ((requests b ts).breaker_record ≡ r)
      × ((requests b ts).policy ≡ b.policy)
unfolding requests admissions
requests_rejected b r d [] e f o h = (refl, e, refl)
requests_rejected b r d (now ∷ ts) e f o h =
    let (refused, same, kept) = reject_open b now (ground arith) (ground arith) in
    let ih =
      requests_rejected (allow_request b now).0 r d ts (same ∙ e)
        (ap (λ (p : CircuitBreakerPolicy). p.open_duration) kept ∙ f) o h.1 in
    (omega (arith, ih.0, if_false refused), ih.1, ih.2 ∙ kept)
  where
    if_false : {x : Bool} → x ≡ false → (if x then 1 else 0) ≡ ◌+◌ 0 0
    if_false e = rw e

admit_due :
    (b : CircuitBreaker) (now : ℕ)
    → b.breaker_record.state ≡ opened
    → b.policy.open_duration ≤ now - b.breaker_record.opened_at
    → b.breaker_record.half_open_successes < b.policy.half_open_success_threshold
    → ((allow_request b now).1 ≡ true)
      × ((allow_request b now).0.breaker_record.state ≡ half_open)
      × ((allow_request b now).0.breaker_record.half_open_admitted ≡ 1)
unfolding allow_request half_open_if_due decide rearm_if_due admit_probe transition_breaker_state
admit_due b now o h s = (ground arith, ground arith, ground arith)

-- While the cool-down of an open breaker that keeps the invariant runs, no request passes and the
-- record stays as it is; the first request after it is admitted as the first probe of a half-open
-- breaker.
pub cooldown_then_probe :
    (b : CircuitBreaker) (ts : List ℕ) (now : ℕ)
    → Inv b
    → b.breaker_record.state ≡ opened
    → All (λ t. t - b.breaker_record.opened_at < b.policy.open_duration) ts
    → b.policy.open_duration ≤ now - b.breaker_record.opened_at
    → (admissions b ts ≡ 0)
      × ((requests b ts).breaker_record ≡ b.breaker_record)
      × ((allow_request (requests b ts) now).1 ≡ true)
      × ((allow_request (requests b ts) now).0.breaker_record.state ≡ half_open)
      × ((allow_request (requests b ts) now).0.breaker_record.half_open_admitted ≡ 1)
cooldown_then_probe b ts now v o h due =
    let (none_in, same, kept) =
      requests_rejected b b.breaker_record b.policy.open_duration ts refl refl o h in
    let c = requests b ts in
    let first = admit_due c now (ground arith) (ground arith) (ground (arith, v.still_probing)) in
    (none_in, same, first.0, first.1, first.2)
