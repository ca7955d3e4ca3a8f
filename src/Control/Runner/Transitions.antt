-- ===== src/Control/Runner/Transitions.antt =====
-- `_transition`, `_mark_paused`, `_mark_aborted` and `_prepare_instrument` of runner.py.
pub mod Leads
pub mod Ready
use most_sprite.Prelude.{ℕ, ◌-◌, Bool, true, not, ◌&&◌, Option, none, some, ltb, if◌then◌else◌}
use most_sprite.Domain.{InstrumentState, SequenceStatus, same_state}
use most_sprite.Domain.Errors.{
  err, safe_fault_latched, device_restart, device_state_stale, interlock_unsafe,
}
use most_sprite.Devices.Contracts.{Order, Suffix}
use most_sprite.Devices.Simulator.{DeviceState, state}
use most_sprite.Store.{Settings, Sequence, OutboxEvent, set_sequence_status, emit}
use most_sprite.Control.StateMachine.{assert_transition}
use most_sprite.Control.World.{
  World, Run, the, pure, fail, fail_retryable, gets, write, lift, ◌>>=◌, ◌>>◌,
}
use most_sprite.Control.Runner.Commands.{
  execute_command, complete_action_command, only_pause, only_abort,
}

-- What a call of `state` reads: nothing where the device agent is not reached, or where it raises.
unfoldable pub device_reading : World → Option DeviceState
unfolding state
device_reading w = if w.is_reachable then state w.now w.device else none

-- `self.device.state()`
unfoldable pub device_state : Run DeviceState
unfolding device_reading
device_state = gets device_reading >>= the

unfoldable pub current_state : Run InstrumentState
current_state = gets (λ w. w.db.instrument.state)

-- The writes of `_transition` once the check has passed.
unfoldable pub enter : InstrumentState → InstrumentState → ℕ → Run (Unit {0})
unfolding device_state emit
enter current target token = do
  now ← gets (λ w. w.now)
  devices ← device_state
  write λ db. emit (OutboxEvent.device_state_changed current target) (record db {
    instrument = record {
      state = target;
      target_state = none;
      observed_at = now;
      fencing_token = token;
      devices = some devices;
    };
  })

unfoldable pub change : InstrumentState → ℕ → InstrumentState → Run (Unit {0})
change target token current =
    if same_state current target
    then pure tt
    else (do lift (assert_transition current target); enter current target token)

unfoldable pub transition : InstrumentState → ℕ → Run (Unit {0})
unfolding change current_state
transition target token = do current ← current_state; change target token current

-- `sequence.status = status`, and the event of the change.
unfoldable pub announce_status : ℕ → SequenceStatus → Run (Unit {0})
unfolding set_sequence_status emit
announce_status id status =
    write
      (λ db. emit (OutboxEvent.sequence_state_changed id status) (set_sequence_status id status db))

unfoldable pub when : Bool → Run (Unit {0}) → Run (Unit {0})
when b m = if b then m else pure tt

unfoldable pub mark_paused : ℕ → Run (Unit {0})
unfolding when
mark_paused id = do
  current ← current_state
  token ← gets (λ w. w.db.instrument.fencing_token)
  when (same_state current InstrumentState.ready) (transition InstrumentState.standby token)
  write (set_sequence_status id SequenceStatus.paused)
  complete_action_command id only_pause
  write (emit (OutboxEvent.sequence_state_changed id SequenceStatus.paused))

unfoldable pub mark_aborted : ℕ → ℕ → Run (Unit {0})
unfolding when
mark_aborted id token = do
  current ← current_state
  when (not (same_state current InstrumentState.standby)) (transition InstrumentState.standby token)
  write (set_sequence_status id SequenceStatus.aborted)
  complete_action_command id only_abort
  write (emit (OutboxEvent.sequence_state_changed id SequenceStatus.aborted))

-- The device agent has restarted: only an idle instrument is reconciled.
unfoldable pub reconcile : ℕ → InstrumentState → Run InstrumentState
reconcile token InstrumentState.ready = do
  transition InstrumentState.standby token
  transition InstrumentState.offline token
  pure InstrumentState.offline
reconcile token InstrumentState.standby = do
  transition InstrumentState.offline token
  pure InstrumentState.offline
reconcile token _ = fail_retryable device_restart

module _ (st : Settings) where
  initialize : Sequence → ℕ → Run (Unit {0})
  initialize s token = do
    transition InstrumentState.initializing token
    execute_command st s Order.initialize token Suffix.initialize
    transition InstrumentState.standby token

  -- The two checks of the state of the device before a sequence starts.
  check_device : ℕ → DeviceState → Run (Unit {0})
  check_device now d =
      if ltb st.stale_state_ms (now - d.observed_at)
      then fail device_state_stale
      else if not d.values.interlock_safe
      then fail interlock_unsafe
      else pure tt

  configure : Sequence → ℕ → InstrumentState → Run (Unit {0})
  unfolding check_device initialize when
  configure s token current = do
    when (same_state current InstrumentState.offline) (initialize s token)
    transition InstrumentState.preparing token
    d ← device_state
    now ← gets (λ w. w.now)
    check_device now d
    execute_command st s (Order.set_optics s.mode) token (Suffix.optics s.mode)
    transition InstrumentState.ready token

  after_reading : Sequence → ℕ → InstrumentState → DeviceState → Run (Unit {0})
  unfolding reconcile configure
  after_reading s token current d =
      if not d.values.initialized && not (same_state current InstrumentState.offline)
      then (do reconciled ← reconcile token current; configure s token reconciled)
      else configure s token current

  prepare_from : Sequence → ℕ → InstrumentState → Run (Unit {0})
  unfolding after_reading
  prepare_from s token current =
      if same_state current InstrumentState.safe_fault
      then fail safe_fault_latched
      else (do d ← device_state; after_reading s token current d)

  unfoldable pub prepare_instrument : Sequence → ℕ → Run (Unit {0})
  unfolding prepare_from
  prepare_instrument s token = do current ← current_state; prepare_from s token current
