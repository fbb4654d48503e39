-- ===== src/Hedging/Tests.antt =====
-- A hedge that wins after the primary attempt failed.
use way_balancer.Base.{ℕ, true, false, Result, ok, err}
use way_balancer.Hedging.{RequestHedgingPolicy, Timing, execute_with_hedge}
use way_balancer.Hedging.Winner.{launches, IsWon, execution-IsWon}

abbrev twice : RequestHedgingPolicy
twice = record { hedge_delay = 20; max_attempts = 2 }

abbrev slow : Timing
slow = record { finished_in_delay = false; primary_first = true }

abbrev failed : Result ℕ ℕ
failed = err 5

abbrev answered : Result ℕ ℕ
answered = ok 200

execution-IsWon_example :
    IsWon
      (launches twice true slow)
      true
      failed
      answered
      (execute_with_hedge twice true slow failed answered)
execution-IsWon_example = execution-IsWon twice true slow failed answered
