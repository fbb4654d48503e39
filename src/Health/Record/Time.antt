-- ===== src/Health/Record/Time.antt =====
-- Time on one health record (crates/runtime/src/upstream_health.rs): how ejections and warm-ups end.
use way_balancer.Base.{ℕ, ◌+◌, ◌-◌, ◌≤◌, ◌<◌, ◌≡◌, List, [], ◌∷◌, arith, ◌∙◌, duration_max}
use way_balancer.Health.{EndpointHealthPolicy, healthy, unhealthy, ejected, warming}
use way_balancer.Health.Warmup.{warmup_weight}
use way_balancer.Health.Record.{EndpointHealthRecord, advance}

pub advance_all : EndpointHealthPolicy → List ℕ → EndpointHealthRecord → EndpointHealthRecord
advance_all p [] r = r
advance_all p (t ∷ ts) r = advance_all p ts (advance p t r).0

abbrev pub sum : List ℕ → ℕ
sum [] = 0
sum (t ∷ ts) = t + sum ts

pub still_ejected :
    (p : EndpointHealthPolicy) (t : ℕ) (r : EndpointHealthRecord)
    → r.status ≡ ejected
    → t < r.remaining_ejection
    → ((advance p t r).0.status ≡ ejected)
      × ((advance p t r).0.remaining_ejection ≡ r.remaining_ejection - t)
unfolding advance
still_ejected p t r e h = (ground arith, ground arith)

expires :
    (p : EndpointHealthPolicy) (t : ℕ) (r : EndpointHealthRecord)
    → r.status ≡ ejected
    → r.remaining_ejection ≤ t
    → ((advance p t r).0.status ≡ unhealthy) × ((advance p t r).0.remaining_ejection ≡ 0)
unfolding advance
expires p t r e h = (ground arith, ground arith)

-- An ejection lasts as long as the ticks stay short of its remaining time, and the tick that reaches
-- it makes the endpoint unhealthy: it does not return to traffic before it has recovered.
pub ejection_expires :
    (p : EndpointHealthPolicy) (ts : List ℕ) (t : ℕ) (r : EndpointHealthRecord)
    → r.status ≡ ejected
    → sum ts < r.remaining_ejection
    → r.remaining_ejection ≤ sum ts + t
    → ((advance_all p ts r).status ≡ ejected)
      × ((advance_all p ts r).remaining_ejection ≡ r.remaining_ejection - sum ts)
      × ((advance p t (advance_all p ts r)).0.status ≡ unhealthy)
      × ((advance p t (advance_all p ts r)).0.remaining_ejection ≡ 0)
unfolding advance_all
ejection_expires p [] t r e h k =
    let (s, z) = expires p t r e (omega arith) in (e, omega arith, s, z)
ejection_expires p (d ∷ ts) t r e h k =
    let (s, left) = still_ejected p d r e (omega arith) in
    let ih =
      ejection_expires p ts t (advance p d r).0 s (omega (arith, left)) (omega (arith, left)) in
    (ih.0, omega (arith, ih.1, left), ih.2, ih.3)

still_warming :
    (p : EndpointHealthPolicy) (t : ℕ) (r : EndpointHealthRecord)
    → r.status ≡ warming
    → r.warmup_elapsed + t < p.warmup_duration
    → p.warmup_duration ≤ duration_max
    → ((advance p t r).0.status ≡ warming)
      × ((advance p t r).0.warmup_elapsed ≡ r.warmup_elapsed + t)
      × ((advance p t r).0.nominal_weight ≡ r.nominal_weight)
      × ((advance p t r).0.effective_weight
          ≡ warmup_weight r.nominal_weight
              (r.warmup_elapsed + t)
              p.warmup_duration
              p.slow_start_min_weight_percent)
unfolding advance
still_warming p t r e h m = (ground arith, ground arith, ground arith, ground arith)

completes :
    (p : EndpointHealthPolicy) (t : ℕ) (r : EndpointHealthRecord)
    → r.status ≡ warming
    → p.warmup_duration ≤ r.warmup_elapsed + t
    → p.warmup_duration ≤ duration_max
    → ((advance p t r).0.status ≡ healthy) × ((advance p t r).0.effective_weight ≡ r.nominal_weight)
unfolding advance
completes p t r e h m = (ground arith, ground arith)

-- A warm-up goes on while the ticks stay short of its duration, and the tick that reaches it makes
-- the endpoint healthy at its nominal weight; this for a duration in the range of its type.
pub warmup_completes :
    (p : EndpointHealthPolicy) (ts : List ℕ) (t : ℕ) (r : EndpointHealthRecord)
    → p.warmup_duration ≤ duration_max
    → r.status ≡ warming
    → r.warmup_elapsed + sum ts < p.warmup_duration
    → p.warmup_duration ≤ r.warmup_elapsed + sum ts + t
    → ((advance_all p ts r).status ≡ warming)
      × ((advance_all p ts r).warmup_elapsed ≡ r.warmup_elapsed + sum ts)
      × ((advance p t (advance_all p ts r)).0.status ≡ healthy)
      × ((advance p t (advance_all p ts r)).0.effective_weight ≡ r.nominal_weight)
unfolding advance_all
warmup_completes p [] t r m e h k =
    let (s, w) = completes p t r e (omega arith) m in (e, omega arith, s, w)
warmup_completes p (d ∷ ts) t r m e h k =
    let (s, past, same, weight) = still_warming p d r e (omega arith) m in
    let ih =
      warmup_completes p ts t (advance p d r).0 m s (omega (arith, past)) (omega (arith, past)) in
    (ih.0, omega (arith, ih.1, past), ih.2, ih.3 ∙ same)
