-- ===== src/Health/Tracking/Tests.antt =====
-- The laws of the health registry at concrete ones.
use way_balancer.Base.{ℕ, List, [], ◌∷◌, arith}
use way_balancer.Base.Order.{list_ord, nat_ord}
use way_balancer.Upstream.Samples.{first, second, third, pair, pair-IsValidCluster}
use way_balancer.Registry
use way_balancer.Health.Record.{active_failure}
use way_balancer.Health.Samples.{policy, in_traffic, out}
use way_balancer.Health.Tracking.{UpstreamHealthRegistry, new, note}
use way_balancer.Health.Tracking.Ejections.{IsBudgeted, note-IsBudgeted}
use way_balancer.Health.Tracking.Runs.{
  Call, add_cluster, add_endpoint, drop_endpoint, signal, tick, run, Inv, health_stays_valid,
}

abbrev name : List ℕ
name = 112 ∷ []

abbrev two_records : UpstreamHealthRegistry
two_records = record {
  registry = Registry.new;
  policy = policy;
  records =
      ((name, first.id), record in_traffic { active_failures = 2 }) ∷ ((name, second.id), out) ∷ [];
  events = [];
  counters = record {
    active_success_count = 0;
    active_failure_count = 0;
    passive_success_count = 0;
    passive_failure_count = 0;
    state_change_count = 0;
    ejection_count = 0;
  };
}

abbrev after_failure : UpstreamHealthRegistry
after_failure = (note two_records name first.id active_failure).0

note-IsBudgeted_example : IsBudgeted two_records after_failure name name
note-IsBudgeted_example =
    note-IsBudgeted two_records name name first.id active_failure (omega arith) (omega arith)

abbrev calls : List Call
calls =
    add_cluster pair
    ∷ add_endpoint name third
    ∷ signal name first.id active_failure
    ∷ tick 5
    ∷ drop_endpoint name second.id
    ∷ []

health_stays_valid_example : Inv (run (new policy) calls)
health_stays_valid_example =
    health_stays_valid policy calls (omega arith)
      ((pair-IsValidCluster, (omega arith, (omega arith, tt))), (omega arith, (tt, (tt, (tt, tt)))))
