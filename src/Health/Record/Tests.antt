-- ===== src/Health/Record/Tests.antt =====
-- The laws of one health record at concrete ones.
use way_balancer.Base.{◌+◌, ◌-◌, ◌≡◌, refl, true, leb, [], ◌∷◌, arith}
use way_balancer.Health.{is_ejected, unhealthy, ejected, warming}
use way_balancer.Health.Record.{
  EndpointHealthRecord, active_success, active_failure, receive, advance,
}
use way_balancer.Health.Record.Signals.{receive_times, ejected_iff_threshold, returns_at_threshold}
use way_balancer.Health.Record.Time.{advance_all, sum, ejection_expires}
use way_balancer.Health.Samples.{policy, in_traffic, recovering, out}

abbrev thrice_failed : EndpointHealthRecord
thrice_failed = receive_times 3 active_failure in_traffic policy

abbrev failing_on : EndpointHealthRecord
failing_on = receive_times 2 active_failure (advance policy 10 thrice_failed).0 policy

ejected_iff_threshold_example :
    (is_ejected thrice_failed.status ≡ leb 3 (0 + 0 + 3))
    × (is_ejected thrice_failed.status ≡ true → thrice_failed.remaining_ejection ≡ 30)
    × (is_ejected thrice_failed.status ≡ true
        → (is_ejected failing_on.status ≡ true) × (failing_on.remaining_ejection ≡ 30 - 10))
ejected_iff_threshold_example =
    ejected_iff_threshold 2 in_traffic policy 10 2 refl (omega arith) (omega arith)

returns_at_threshold_example :
    ((receive_times 1 active_success recovering policy).status ≡ unhealthy)
    × ((receive active_success (receive_times 1 active_success recovering policy) policy).status
        ≡ warming)
    × ((receive active_success
          (receive_times 1 active_success recovering policy)
          policy).active_failures
        ≡ 0)
    × ((receive active_success
          (receive_times 1 active_success recovering policy)
          policy).passive_failures
        ≡ 0)
returns_at_threshold_example =
    returns_at_threshold 1 recovering policy 0 2 (omega arith)
      (record { out = refl; counted = refl; needed = refl }) refl

ejection_expires_example :
    ((advance_all policy (10 ∷ 15 ∷ []) out).status ≡ ejected)
    × ((advance_all policy (10 ∷ 15 ∷ []) out).remaining_ejection ≡ 30 - sum (10 ∷ 15 ∷ []))
    × ((advance policy 5 (advance_all policy (10 ∷ 15 ∷ []) out)).0.status ≡ unhealthy)
    × ((advance policy 5 (advance_all policy (10 ∷ 15 ∷ []) out)).0.remaining_ejection ≡ 0)
ejection_expires_example =
    ejection_expires policy (10 ∷ 15 ∷ []) 5 out refl (omega arith) (omega arith)
