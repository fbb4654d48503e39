-- ===== src/Guards/Handshakes/Inflight.antt =====
-- The handshakes in flight (crates/runtime/src/source_guards.rs) over histories of permits.
use way_balancer.Base.{
  ℕ, ◌+◌, ◌≤◌, ◌≡◌, refl, inl, inr, Bool, true, false, ltb, if◌then◌else◌, List, [], ◌∷◌, count,
  get_elem?, set_at, count-set_at, none, some, ok, err, arith, Option-cases, Bool-cases,
}
use way_balancer.Guards.{HandshakeGuardPolicy, handshake_limit_reached}
use way_balancer.Guards.Handshakes.{
  SemaphoreOps, IsSemaphore, HandshakeGuard, HandshakePermit, new, try_acquire, active_handshakes,
  release,
}

pub data HandshakeCall : Type 0 where
  start : HandshakeCall
  finish : ℕ → HandshakeCall

-- How many of the permits are still held.
abbrev pub in_flight : List HandshakePermit → ℕ
in_flight permits = count (λ (p : HandshakePermit). p.permit) permits

module _ {S : Type 0} (ops : SemaphoreOps S) where
  -- One call, with the permits that were given out: a permit may be released again.
  pub step :
      HandshakeGuard S × List HandshakePermit
      → HandshakeCall
      → HandshakeGuard S × List HandshakePermit
  step (g, permits) start =
      let (g', r) = try_acquire ops g in (g', elim r [ ok p ↦ p ∷ permits | err e ↦ permits ])
  step (g, permits) (finish i) = elim (get_elem? permits i) [
    | none ↦ (g, permits)
    | some p ↦ let (g', p') = release ops g p in (g', set_at i p' permits)
  ]

  pub run :
      HandshakeGuard S × List HandshakePermit
      → List HandshakeCall
      → HandshakeGuard S × List HandshakePermit
  run w [] = w
  run w (x ∷ xs) = run (step w x) xs

  -- The permits that are held and those that are available are all there are.
  abbrev IsBalanced : ℕ → HandshakeGuard S × List HandshakePermit → Type 0
  IsBalanced n w =
      (w.0.max_inflight ≡ n) × (ops.available_permits w.0.semaphore + in_flight w.1 ≡ n)

  module _ (laws : IsSemaphore ops) where
    start-IsBalanced :
        (n : ℕ) (g : HandshakeGuard S) (permits : List HandshakePermit)
        → IsBalanced n (g, permits)
        → IsBalanced n (step (g, permits) start)
    unfolding step try_acquire
    start-IsBalanced n g permits (a, b) = elim (Option-cases (ops.take g.semaphore)) [
      | inl e ↦ rw (step, try_acquire, e) (a, b)
      | inr (s, e) ↦
          rw (step, try_acquire, e) (a, ground (arith, b, laws.take_some g.semaphore s e))
    ]

    release-IsBalanced :
        (n i : ℕ) (g : HandshakeGuard S) (p : HandshakePermit) (permits : List HandshakePermit)
        → get_elem? permits i ≡ some p
        → IsBalanced n (g, permits)
        → let (g', p') = release ops g p in IsBalanced n (g', set_at i p' permits)
    unfolding release
    release-IsBalanced n i g p permits e (a, b) =
        let held : HandshakePermit → Bool = λ q. q.permit in
        elim (Bool-cases p.permit) [
          | inr z ↦ rw z (a, ground (arith, b, z, count-set_at held i p p permits e))
          | inl z ↦ rw z (
            a,
            ground (
              arith,
              b,
              z,
              laws.give_back_adds g.semaphore,
              count-set_at held i p (record { permit = false }) permits e,
            ),
          )
        ]

    step-IsBalanced :
        (n : ℕ) (w : HandshakeGuard S × List HandshakePermit) (x : HandshakeCall)
        → IsBalanced n w
        → IsBalanced n (step w x)
    unfolding step
    step-IsBalanced n (g, permits) start v = start-IsBalanced n g permits v
    step-IsBalanced n (g, permits) (finish i) v = elim (Option-cases (get_elem? permits i)) [
      | inl e ↦ rw (step, e) v
      | inr (p, e) ↦ rw (step, e) (release-IsBalanced n i g p permits e v)
    ]

    run-IsBalanced :
        (n : ℕ) (w : HandshakeGuard S × List HandshakePermit) (xs : List HandshakeCall)
        → IsBalanced n w
        → IsBalanced n (run w xs)
    unfolding run
    run-IsBalanced n w [] v = v
    run-IsBalanced n w (x ∷ xs) v = run-IsBalanced n (step w x) xs (step-IsBalanced n w x v)

    -- With a semaphore that gives a permit exactly if one is available, the active handshakes of a
    -- guard are, after any calls, repeated releases among them, the permits that are held, at most
    -- as many as configured, and the next handshake is admitted exactly if they are fewer.
    pub handshakes_bounded :
        (p : HandshakeGuardPolicy) (xs : List HandshakeCall)
        → let w = run (new ops p, []) xs in
          (active_handshakes ops w.0 ≡ in_flight w.1)
          × (in_flight w.1 ≤ p.max_inflight)
          × ((try_acquire ops w.0).1 ≡ (
              if ltb (in_flight w.1) p.max_inflight
              then ok (record { permit = true })
              else err handshake_limit_reached))
    unfolding active_handshakes try_acquire new
    handshakes_bounded p xs =
        let w = run (new ops p, []) xs in
        let (a, b) =
          run-IsBalanced p.max_inflight (new ops p, []) xs
            (refl, ground (arith, laws.new_available p.max_inflight)) in
        (
          ground (arith, a, b),
          omega arith,
          elim (Option-cases (ops.take w.0.semaphore)) [
            | inl e ↦ ground (arith, e, b, laws.take_none w.0.semaphore e)
            | inr (s, e) ↦ ground (arith, e, b, laws.take_some w.0.semaphore s e)
          ],
        )
