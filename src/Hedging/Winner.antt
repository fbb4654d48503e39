-- ===== src/Hedging/Winner.antt =====
-- Whose answer a hedged execution (crates/runtime/src/hedging.rs) returns.
use way_balancer.Base.{
  ◌≡◌, ◌≢◌, refl, ◌⊎◌, inl, inr, Bool, true, false, not, ◌&&◌, if◌then◌else◌, none, some, Result,
  ok, err, Bool-cases, arith,
}
use way_balancer.Hedging.{
  RequestHedgingPolicy, Timing, Execution, enabled, primary_only, await_other, select_attempt,
  execute_with_hedge,
}

-- Whether the hedge is launched.
abbrev pub launches : RequestHedgingPolicy → Bool → Timing → Bool
launches p allow timing = enabled p && allow && not timing.finished_in_delay

module _ {T E : Type 0} where
  -- Why an execution has its result: the winner succeeded with this value and is not cancelled, or
  -- every attempt made failed, the one that was seen first with this error, and none is cancelled.
  abbrev pub IsWon : Bool → Bool → Result T E → Result T E → Execution T E → Type 0
  IsWon launched primary_first primary hedge x = elim x.result [
    | ok (value, o) ↦
        (o.hedge_launched ≡ launched)
        × (((o.winner_attempt ≡ 1) × (primary ≡ ok value) × (x.cancelled ≢ some 1))
            ⊎ ((o.winner_attempt ≡ 2)
                × (launched ≡ true)
                × (hedge ≡ ok value)
                × (x.cancelled ≢ some 2)))
    | err e ↦
        (x.cancelled ≡ none)
        × ((launched ≡ false) × (primary ≡ err e)
            ⊎ ((f : E) × (launched ≡ true)
                × (if primary_first
                    then (primary ≡ err e) × (hedge ≡ err f)
                    else (hedge ≡ err e) × (primary ≡ err f))))
  ]

  primary-IsWon :
      (b : Bool) (primary hedge : Result T E) → IsWon false b primary hedge (primary_only primary)
  unfolding primary_only
  primary-IsWon b (ok value) hedge = (refl, inl (refl, refl, λ e. ground (arith, e)))
  primary-IsWon b (err e) hedge = (refl, inl (refl, refl))

  selected-IsWon :
      (b : Bool) (primary hedge : Result T E)
      → IsWon true b primary hedge (select_attempt b primary hedge)
  unfolding select_attempt await_other
  selected-IsWon true (ok value) hedge = (refl, inl (refl, refl, λ e. ground (arith, e)))
  selected-IsWon true (err e) (ok value) = (refl, inr (refl, refl, refl, λ k. ground (arith, k)))
  selected-IsWon true (err e) (err f) = (refl, inr (f, refl, (refl, refl)))
  selected-IsWon false primary (ok value) = (refl, inr (refl, refl, refl, λ e. ground (arith, e)))
  selected-IsWon false (ok value) (err e) = (refl, inl (refl, refl, λ k. ground (arith, k)))
  selected-IsWon false (err f) (err e) = (refl, inr (f, refl, (refl, refl)))

  -- An execution launches the hedge exactly if the policy and the caller allow it and the primary
  -- attempt is not finished after the delay. A value that it returns is that of the attempt it
  -- names as the winner, which it does not cancel. It fails only if all the attempts made fail,
  -- with the error of the one seen first, and then cancels none.
  pub execution-IsWon :
      (policy : RequestHedgingPolicy) (allow : Bool) (timing : Timing) (primary hedge : Result T E)
      → IsWon
          (launches policy allow timing)
          timing.primary_first
          primary
          hedge
          (execute_with_hedge policy allow timing primary hedge)
  unfolding execute_with_hedge
  execution-IsWon policy allow timing primary hedge = elim (Bool-cases (enabled policy)) [
    | inr z ↦ rw (execute_with_hedge, z) (primary-IsWon timing.primary_first primary hedge)
    | inl z ↦ elim (Bool-cases allow) [
      | inr a ↦ rw (execute_with_hedge, z, a) (primary-IsWon timing.primary_first primary hedge)
      | inl a ↦ elim (Bool-cases timing.finished_in_delay) [
        | inl f ↦
            rw (execute_with_hedge, z, a, f) (primary-IsWon timing.primary_first primary hedge)
        | inr f ↦
            rw (execute_with_hedge, z, a, f) (selected-IsWon timing.primary_first primary hedge)
      ]
    ]
  ]
