-- ===== src/Failure/Breaker/Probes.antt =====
-- How many probes a half-open circuit breaker (crates/runtime/src/failure_management.rs) admits.
use way_balancer.Base.{ℕ, ◌-◌, ◌<◌, ◌≡◌, List, [], ◌∷◌, All, length, min, arith, if◌then◌else◌}
use way_balancer.Failure.Breaker.{
  CircuitBreaker, half_open, allow_request, half_open_if_due, decide, rearm_if_due, admit_probe,
}
use way_balancer.Failure.Breaker.Cooldown.{admissions}

-- Probes still to be admitted in the window.
pub probes_left : CircuitBreaker → ℕ
probes_left b =
    b.policy.half_open_success_threshold - b.breaker_record.half_open_successes
    - b.breaker_record.half_open_admitted

-- The breaker probes, in a window that started at the given time and lasts as long as given.
pub record IsProbing (b : CircuitBreaker) (start duration : ℕ) : Type 0 where
  pub probing : b.breaker_record.state ≡ half_open
  pub started : b.breaker_record.half_open_window_started ≡ start
  pub lasts : b.policy.open_duration ≡ duration

probe_step :
    (b : CircuitBreaker) (start duration now : ℕ)
    → IsProbing b start duration
    → now - start < duration
    → IsProbing (allow_request b now).0 start duration
      × ((if (allow_request b now).1 then 1 else 0) ≡ min 1 (probes_left b))
      × (probes_left (allow_request b now).0 ≡ probes_left b - 1)
unfolding allow_request half_open_if_due decide rearm_if_due admit_probe probes_left
probe_step b start duration now v h = (ground arith, ground arith, ground arith)

-- Of the requests made within one half-open window, with no outcome reported between them, exactly
-- as many pass as there are requests and probes left.
pub admissions-probing :
    (b : CircuitBreaker) (start duration : ℕ) (ts : List ℕ)
    → IsProbing b start duration
    → All (λ t. t - start < duration) ts
    → admissions b ts ≡ min (length ts) (probes_left b)
unfolding admissions
admissions-probing b start duration [] v h = omega arith
admissions-probing b start duration (now ∷ ts) v h =
    let (w, one, left) = probe_step b start duration now v h.0 in
    omega (arith, one, left, admissions-probing (allow_request b now).0 start duration ts w h.1)
