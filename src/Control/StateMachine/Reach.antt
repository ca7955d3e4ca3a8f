-- ===== src/Control/StateMachine/Reach.antt =====
-- The transitions of state_machine.py as a step relation, and what a history of them can do.
use most_sprite.Prelude.{◌≡◌, ◌≢◌, refl, ◌↔◌, true, arith}
use most_sprite.Domain.{InstrumentState}
use most_sprite.Domain.InstrumentState.{
  offline, initializing, standby, preparing, ready, exposing, reading, calibrating, maintenance,
  safe_fault,
}
use most_sprite.Domain.Errors.{ok}
use most_sprite.Control.StateMachine.{is_allowed, assert_transition}

-- The pairs that the table allows, as edges.
infix 40 ◌⟶◌
pub data ◌⟶◌ : InstrumentState → InstrumentState → Type 0 where
  switch_on : offline ⟶ initializing
  initialized : initializing ⟶ standby
  prepare : standby ⟶ preparing
  calibrate : standby ⟶ calibrating
  maintain : standby ⟶ maintenance
  switch_off : standby ⟶ offline
  prepared : preparing ⟶ ready
  open_shutter : ready ⟶ exposing
  stand_down : ready ⟶ standby
  read_out : exposing ⟶ reading
  stop_exposure : exposing ⟶ standby
  next_exposure : reading ⟶ ready
  last_exposure : reading ⟶ standby
  calibrated : calibrating ⟶ standby
  maintained : maintenance ⟶ standby
  restart : safe_fault ⟶ initializing
  recover : safe_fault ⟶ offline
  fail_initializing : initializing ⟶ safe_fault
  fail_preparing : preparing ⟶ safe_fault
  fail_ready : ready ⟶ safe_fault
  fail_exposing : exposing ⟶ safe_fault
  fail_reading : reading ⟶ safe_fault
  fail_calibrating : calibrating ⟶ safe_fault
  fail_maintenance : maintenance ⟶ safe_fault

ruleset edges = (
  switch_on, initialized, prepare, calibrate, maintain, switch_off, prepared, open_shutter,
  stand_down, read_out, stop_exposure, next_exposure, last_exposure, calibrated, maintained,
  restart, recover, fail_initializing, fail_preparing, fail_ready, fail_exposing, fail_reading,
  fail_calibrating, fail_maintenance,
)

edge_of : (s t : InstrumentState) → is_allowed s t ≡ true → s ⟶ t
unfolding is_allowed
edge_of offline initializing h = switch_on
edge_of initializing standby h = initialized
edge_of standby preparing h = prepare
edge_of preparing ready h = prepared
edge_of ready exposing h = open_shutter
edge_of exposing reading h = read_out
edge_of reading ready h = next_exposure
edge_of calibrating standby h = calibrated
edge_of maintenance standby h = maintained
edge_of safe_fault offline h = recover
edge_of _ _ h = first_of (search edges, ground arith)

edge_allowed : {s t : InstrumentState} → s ⟶ t → assert_transition s t ≡ ok tt
unfolding assert_transition
edge_allowed switch_on = refl
edge_allowed _ = refl

-- `assert_transition` accepts a pair of states exactly when it is one of these edges.
pub assert_transition-iff-edge : (s t : InstrumentState) → (assert_transition s t ≡ ok tt) ↔ (s ⟶ t)
unfolding assert_transition
assert_transition-iff-edge s t = (λ h. edge_of s t (ground arith), edge_allowed)

infix 40 ◌⟶*◌
pub data ◌⟶*◌ (s : InstrumentState) : InstrumentState → Type 0 where
  here : s ⟶* s
  next : {t u : InstrumentState} → s ⟶* t → t ⟶ u → s ⟶* u

⟶*-trans : {s t u : InstrumentState} → s ⟶* t → t ⟶* u → s ⟶* u
⟶*-trans p here = p
⟶*-trans p (next q e) = next (⟶*-trans p q) e

⟶*-offline : (s : InstrumentState) → s ⟶* offline
⟶*-offline offline = here
⟶*-offline _ = search (here, next, edges)

to_standby : offline ⟶* standby
to_standby = next (next here switch_on) initialized

to_ready : offline ⟶* ready
to_ready = next (next to_standby prepare) prepared

offline-⟶* : (s : InstrumentState) → offline ⟶* s
offline-⟶* offline = here
offline-⟶* initializing = next here switch_on
offline-⟶* standby = to_standby
offline-⟶* preparing = next to_standby prepare
offline-⟶* ready = to_ready
offline-⟶* exposing = next to_ready open_shutter
offline-⟶* reading = next (next to_ready open_shutter) read_out
offline-⟶* calibrating = next to_standby calibrate
offline-⟶* maintenance = next to_standby maintain
offline-⟶* safe_fault = next to_ready fail_ready

-- No state is a dead end: allowed transitions lead from every state to every other.
pub reachable : (s t : InstrumentState) → s ⟶* t
reachable s t = ⟶*-trans (⟶*-offline s) (offline-⟶* t)

-- The states in which no exposure is under way or about to start.
pub data IsIdle : InstrumentState → Type 0 where
  offline_idle : IsIdle offline
  initializing_idle : IsIdle initializing
  standby_idle : IsIdle standby
  calibrating_idle : IsIdle calibrating
  maintenance_idle : IsIdle maintenance
  safe_fault_idle : IsIdle safe_fault

ruleset idle_states = (
  offline_idle, initializing_idle, standby_idle, calibrating_idle, maintenance_idle,
  safe_fault_idle,
)

-- A history in which each step passed the check and none entered PREPARING.
pub data Unprepared (s : InstrumentState) : InstrumentState → Type 0 where
  start : Unprepared s s
  step :
      {t : InstrumentState} (u : InstrumentState)
      → Unprepared s t
      → assert_transition t u ≡ ok tt
      → u ≢ preparing
      → Unprepared s u

edge-IsIdle : {s t : InstrumentState} → s ⟶ t → t ≢ preparing → IsIdle s → IsIdle t
edge-IsIdle prepare n h = absurd (n refl)
edge-IsIdle stand_down n h = standby_idle
edge-IsIdle prepared n h = elim h [ ]
edge-IsIdle open_shutter n h = elim h [ ]
edge-IsIdle next_exposure n h = elim h [ ]
edge-IsIdle read_out n h = elim h [ ]
edge-IsIdle _ n h = search idle_states

-- From an idle state, a history that does not pass PREPARING stays among the idle states: it
-- reaches neither READY nor EXPOSING nor READING.
pub Unprepared-IsIdle : {s t : InstrumentState} → Unprepared s t → IsIdle s → IsIdle t
Unprepared-IsIdle start h = h
Unprepared-IsIdle (step {t} u p e n) h =
    edge-IsIdle ((assert_transition-iff-edge t u).0 e) n (Unprepared-IsIdle p h)
