-- ===== src/Hedging.antt =====
-- crates/runtime/src/hedging.rs: a second attempt at a request whose first attempt is slow.
pub mod Winner
mod Tests
use way_balancer.Base.{
  ℕ, leb, Bool, true, false, not, ◌&&◌, ◌||◌, if◌then◌else◌, Option, none, some, unwrap_or, Result,
  ok, err,
}

pub record RequestHedgingPolicy : Type 0 where
  pub hedge_delay : ℕ
  pub max_attempts : ℕ  -- u8

pub enabled : RequestHedgingPolicy → Bool
enabled p = leb 2 p.max_attempts

pub record HedgeOutcome : Type 0 where
  pub hedge_launched : Bool
  pub winner_attempt : ℕ  -- u8

-- What the runtime decides: whether the primary attempt has finished after the delay, and, of two
-- attempts in flight, whether the primary one is seen to finish first.
pub record Timing : Type 0 where
  pub finished_in_delay : Bool
  pub primary_first : Bool

-- What a hedged execution returns, and the attempt, if any, that it cancels where it still runs.
pub record Execution (T E : Type 0) : Type 0 where
  pub result : Result (T × HedgeOutcome) E
  pub cancelled : Option ℕ

module _ {T E : Type 0} where
  abbrev pub won : T → Bool → ℕ → Result (T × HedgeOutcome) E
  won value launched attempt =
      ok (value, record { hedge_launched = launched; winner_attempt = attempt })

  -- The answer of the primary attempt alone.
  pub primary_only : Result T E → Execution T E
  primary_only (ok value) = record { result = won value false 1; cancelled = none }
  primary_only (err e) = record { result = err e; cancelled = none }

  -- The attempt that is awaited after the other one failed.
  pub await_other : ℕ → Result T E → Option E → Result (T × HedgeOutcome) E
  await_other attempt (ok value) first_error = won value true attempt
  await_other attempt (err e) first_error = err (unwrap_or first_error e)

  -- The `select!` with what follows it.
  pub select_attempt : Bool → Result T E → Result T E → Execution T E
  select_attempt true (ok value) hedge = record { result = won value true 1; cancelled = some 2 }
  select_attempt true (err e) hedge = record {
    result = await_other 2 hedge (some e);
    cancelled = none;
  }
  select_attempt false primary (ok value) = record { result = won value true 2; cancelled = some 1 }
  select_attempt false primary (err e) = record {
    result = await_other 1 primary (some e);
    cancelled = none;
  }

  -- The results are those that the attempts have if they run to their ends.
  pub execute_with_hedge :
      RequestHedgingPolicy → Bool → Timing → Result T E → Result T E → Execution T E
  execute_with_hedge policy allow_hedge timing primary hedge =
      if not (enabled policy) || not allow_hedge
      then primary_only primary
      else if timing.finished_in_delay
      then primary_only primary
      else select_attempt timing.primary_first primary hedge
