-- ===== src/Lifecycle.antt =====
-- crates/runtime/src/lifecycle.rs: the state machine of endpoints and clients. An operation takes
-- the machine and returns the new one with its result; the error names the state and the action.
pub mod Progress
mod Tests
use way_balancer.Base.{Result, ok, err, List, [], ◌∷◌}

pub data LifecycleState : Type 0 where
  warming active draining drained removed : LifecycleState

-- The four actions, as the `&'static str` that an error carries.
pub data Action : Type 0 where
  activates drains marks_drained marks_removed : Action

pub record LifecycleTransitionError : Type 0 where
  pub from : LifecycleState
  pub action : Action

pub record LifecycleStateMachine : Type 0 where
  pub state : LifecycleState

abbrev pub Outcome : Type 0
Outcome = LifecycleStateMachine × Result (Unit {0}) LifecycleTransitionError

abbrev pub new_warming : LifecycleStateMachine
new_warming = record { state = LifecycleState.warming }

abbrev pub new_active : LifecycleStateMachine
new_active = record { state = LifecycleState.active }

abbrev stay : LifecycleState → Outcome
stay s = (record { state = s }, ok tt)

abbrev refuse : LifecycleState → Action → Outcome
refuse s a = (record { state = s }, err (record { from = s; action = a }))

activate_from : LifecycleState → Outcome
activate_from LifecycleState.warming = stay LifecycleState.active
activate_from LifecycleState.active = stay LifecycleState.active
activate_from s = refuse s activates

start_draining_from : LifecycleState → Outcome
start_draining_from LifecycleState.warming = stay LifecycleState.draining
start_draining_from LifecycleState.active = stay LifecycleState.draining
start_draining_from LifecycleState.draining = stay LifecycleState.draining
start_draining_from s = refuse s drains

mark_drained_from : LifecycleState → Outcome
mark_drained_from LifecycleState.draining = stay LifecycleState.drained
mark_drained_from LifecycleState.drained = stay LifecycleState.drained
mark_drained_from s = refuse s marks_drained

mark_removed_from : LifecycleState → Outcome
mark_removed_from LifecycleState.drained = stay LifecycleState.removed
mark_removed_from LifecycleState.removed = stay LifecycleState.removed
mark_removed_from s = refuse s marks_removed

pub activate : LifecycleStateMachine → Outcome
unfolding activate_from
activate m = activate_from m.state

pub start_draining : LifecycleStateMachine → Outcome
unfolding start_draining_from
start_draining m = start_draining_from m.state

pub mark_drained : LifecycleStateMachine → Outcome
unfolding mark_drained_from
mark_drained m = mark_drained_from m.state

pub mark_removed : LifecycleStateMachine → Outcome
unfolding mark_removed_from
mark_removed m = mark_removed_from m.state

pub force_remove : LifecycleStateMachine → LifecycleStateMachine
force_remove m = record { state = LifecycleState.removed }

-- A caller's sequence of actions, each result dropped.
pub perform : Action → LifecycleStateMachine → Outcome
unfolding activate start_draining mark_drained mark_removed
perform activates m = activate m
perform drains m = start_draining m
perform marks_drained m = mark_drained m
perform marks_removed m = mark_removed m

pub perform_all : List Action → LifecycleStateMachine → LifecycleStateMachine
perform_all [] m = m
perform_all (a ∷ as') m = perform_all as' (perform a m).0
