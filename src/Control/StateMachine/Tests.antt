-- ===== src/Control/StateMachine/Tests.antt =====
-- Examples for the state machine.
use most_sprite.Prelude.{◌≢◌, refl, arith}
use most_sprite.Domain.InstrumentState.{offline, initializing, ready, preparing}
use most_sprite.Control.StateMachine.{assert_transition}
use most_sprite.Control.StateMachine.Reach.{◌⟶*◌, Unprepared, IsIdle, reachable, Unprepared-IsIdle}

reachable_example : offline ⟶* ready
reachable_example = reachable offline ready

initializing_other : initializing ≢ preparing
initializing_other h = ground arith

switched_on : Unprepared offline initializing
unfolding assert_transition
switched_on = Unprepared.step initializing Unprepared.start refl initializing_other

Unprepared-IsIdle_example : IsIdle initializing
Unprepared-IsIdle_example = Unprepared-IsIdle switched_on IsIdle.offline_idle
