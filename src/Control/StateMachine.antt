-- ===== src/Control/StateMachine.antt =====
-- backend/src/most_sprite/control/state_machine.py: the table of allowed transitions and its check.
pub mod Reach
mod Tests
use most_sprite.Prelude.{Bool, false, ◌||◌, List, [], ◌∷◌, if◌then◌else◌}
use most_sprite.Domain.{InstrumentState, same_state}
use most_sprite.Domain.InstrumentState.{
  offline, initializing, standby, preparing, ready, exposing, reading, calibrating, maintenance,
  safe_fault,
}
use most_sprite.Domain.Errors.{Result, ok, raise, invalid_instrument_transition}

-- ALLOWED_TRANSITIONS; a set is the list of its elements.
unfoldable pub allowed_transitions : InstrumentState → List InstrumentState
allowed_transitions offline = initializing ∷ []
allowed_transitions initializing = standby ∷ safe_fault ∷ []
allowed_transitions standby = preparing ∷ calibrating ∷ maintenance ∷ offline ∷ []
allowed_transitions preparing = ready ∷ safe_fault ∷ []
allowed_transitions ready = exposing ∷ standby ∷ safe_fault ∷ []
allowed_transitions exposing = reading ∷ standby ∷ safe_fault ∷ []
allowed_transitions reading = ready ∷ standby ∷ safe_fault ∷ []
allowed_transitions calibrating = standby ∷ safe_fault ∷ []
allowed_transitions maintenance = standby ∷ safe_fault ∷ []
allowed_transitions safe_fault = initializing ∷ offline ∷ []

-- `target in states`
contains : List InstrumentState → InstrumentState → Bool
unfolding same_state
contains [] t = false
contains (s ∷ ss) t = same_state s t || contains ss t

-- `target in ALLOWED_TRANSITIONS[current]`
unfoldable pub is_allowed : InstrumentState → InstrumentState → Bool
unfolding allowed_transitions contains
is_allowed current target = contains (allowed_transitions current) target

unfoldable pub assert_transition : InstrumentState → InstrumentState → Result (Unit {0})
unfolding is_allowed
assert_transition current target =
    if is_allowed current target then ok tt else raise invalid_instrument_transition
