-- ===== src/Control/Runner/Exposures.antt =====
-- `_take_exposure` and `_wait_exposure` of runner.py.
pub mod Waiting
pub mod Leads
use most_sprite.Prelude.{
  ℕ, zero, suc, ◌+◌, ◌-◌, Bool, true, false, not, ◌&&◌, ◌||◌, ◌==◌, leb, Option, none, some, List,
  [], ◌∷◌, find_if, ltb, if◌then◌else◌, min,
}
use most_sprite.Prelude.Int.{ℤ, pos, ◌-ℤ◌, abs}
use most_sprite.Domain.{DataMode, InstrumentState, SequenceStatus, ExposureStatus, is_polarimetric}
use most_sprite.Domain.Errors.{err, modulator_position, guider_lock_lost}
use most_sprite.Devices.Contracts.{FeedbackResult, Order, Suffix}
use most_sprite.Devices.Simulator.{DeviceState, is_active, Fault}
use most_sprite.Store.{
  Settings, Db, Sequence, Exposure, get_sequence, get_exposure, update_sequence, update_exposure,
  set_exposure_status,
}
use most_sprite.Acquisition.{commit_l0}
use most_sprite.Control.World.{
  Run, pure, fail, fail_retryable, gets, the, write, fresh_id, session, sleep, ◌>>=◌, ◌>>◌,
}
use most_sprite.Control.Runner.Commands.{load_sequence, execute_command}
use most_sprite.Control.Runner.Transitions.{device_state, transition, mark_paused, mark_aborted}

-- `MODULATION_ANGLES[mode][index]`; out of range it raises.
angle_at : List (ℤ × ℤ) → ℕ → Option (ℤ × ℤ)
angle_at [] n = none
angle_at (a ∷ as') zero = some a
angle_at (a ∷ as') (suc n) = angle_at as' n

-- `feedback.result["fr1_measured"]` and `["fr3_measured"]`; a missing key raises.
measured : FeedbackResult → Option (ℤ × ℤ)
measured (FeedbackResult.moved a b) = some (a, b)
measured (FeedbackResult.exposed _ a b _ _) = some (a, b)
measured _ = none

unfoldable pub is_committed : ExposureStatus → Bool
is_committed ExposureStatus.committed = true
is_committed _ = false

-- The newest exposure of this ordinal that is not committed.
open_exposure : ℕ → ℕ → Db → Option Exposure
unfolding is_committed
open_exposure seq ordinal db =
    find_if (λ e. (e.sequence_id == seq) && (e.sub_index == ordinal) && not (is_committed e.status))
      db.exposures

-- `Exposure(sequence_id=..., sub_index=...)`
new_exposure : ℕ → ℕ → ℕ → Exposure
new_exposure id seq ordinal = record {
  id = id;
  sequence_id = seq;
  group_id = none;
  command_id = none;
  sub_index = ordinal;
  status = ExposureStatus.pending;
  fr1_commanded = none;
  fr1_measured = none;
  fr3_commanded = none;
  fr3_measured = none;
  raw_file_id = none;
  started_at = none;
  committed_at = none;
}

-- The row to work on: the open one, or a new one.
open_or_create : ℕ → ℕ → Option Exposure → Run ℕ
unfolding new_exposure
open_or_create seq ordinal (some e) = pure e.id
open_or_create seq ordinal none = do
  id ← fresh_id
  write (λ db. record db { exposures = new_exposure id seq ordinal ∷ db.exposures })
  pure id

-- What a call of `_take_exposure` is given.
pub record Slot : Type 0 where
  pub sequence_id : ℕ
  pub group_id : Option ℕ
  pub mode : DataMode
  pub ordinal : ℕ
  pub group_sub_index : ℕ
  pub token : ℕ

-- `sequence.completed_exposures += 1`
count_completed : Sequence → Sequence
count_completed q = record q { completed_exposures = q.completed_exposures + 1 }

module _ (st : Settings) where
  out_of_tolerance : ℤ × ℤ → ℤ × ℤ → Bool
  out_of_tolerance (fr1, fr3) (m1, m3) =
      ltb st.angle_tolerance (abs (m1 -ℤ fr1)) || ltb st.angle_tolerance (abs (m3 -ℤ fr3))

  -- NONPOL moves to 0; the others to the angles of the sub-exposure, counted from 1.
  commanded : DataMode → ℕ → Option (ℤ × ℤ)
  unfolding angle_at
  commanded mode sub =
      if is_polarimetric mode then angle_at (st.angles mode) (sub - 1) else some (pos 0, pos 0)

  -- The rest of the first transaction, once the retarders have been measured.
  expose_row : Slot → Sequence → ℤ × ℤ → ℤ × ℤ → Run (Option (ℕ × ℕ))
  unfolding open_exposure open_or_create out_of_tolerance
  expose_row slot s (fr1, fr3) (m1, m3) = do
    found ← gets (λ w. open_exposure slot.sequence_id slot.ordinal w.db)
    id ← open_or_create slot.sequence_id slot.ordinal found
    write (
        update_exposure id (λ e. record e {
          group_id = slot.group_id;
          status = ExposureStatus.pending;
          fr1_commanded = some fr1;
          fr3_commanded = some fr3;
          fr1_measured = some m1;
          fr3_measured = some m3;
        }))
    if out_of_tolerance (fr1, fr3) (m1, m3) then fail modulator_position else do
      transition InstrumentState.exposing slot.token
      now ← gets (λ w. w.now)
      write (
          update_exposure id
            (λ e. record e { status = ExposureStatus.exposing; started_at = some now }))
      pure (some (id, s.exposure_time))

  start_running : Slot → Sequence → Run (Option (ℕ × ℕ))
  unfolding commanded measured expose_row
  start_running slot s = do
    angles ← the (commanded slot.mode slot.group_sub_index)
    move ←
        execute_command st s (Order.move_fr angles.0 angles.1) slot.token (Suffix.move slot.ordinal)
    position ← the (measured move.result)
    expose_row slot s angles position

  start_with : Slot → Sequence → SequenceStatus → Run (Option (ℕ × ℕ))
  unfolding start_running
  start_with slot s SequenceStatus.aborting = do mark_aborted s.id slot.token; pure none
  start_with slot s SequenceStatus.pausing = do mark_paused s.id; pure none
  start_with slot s _ = start_running slot s

  -- The first transaction: the id of the exposure that has begun and its time, or nothing where the
  -- sequence was being stopped.
  pub start_exposure : Slot → Run (Option (ℕ × ℕ))
  unfolding start_with
  start_exposure slot = session (do s ← load_sequence slot.sequence_id; start_with slot s s.status)

  is_aborting : SequenceStatus → Bool
  is_aborting SequenceStatus.aborting = true
  is_aborting _ = false

  asks_abort : Option Sequence → Bool
  unfolding is_aborting
  asks_abort none = false
  asks_abort (some s) = is_aborting s.status

  -- The loop of `_wait_exposure`, on fuel.
  unfoldable pub wait_loop : ℕ → ℕ → ℕ → ℕ → Run (Unit {0})
  unfolding asks_abort
  wait_loop zero id elapsed duration = pure tt
  wait_loop (suc fuel) id elapsed duration =
      let chunk = min 100 (duration - elapsed) in
      let round = (do
        sleep chunk
        aborting ← session (gets (λ w. asks_abort (get_sequence id w.db)))
        let rest = wait_loop fuel id (elapsed + chunk) duration
        if aborting then pure tt else rest) in
      if ltb elapsed duration then round else pure tt

  -- The fuel is the duration: each round but the last sleeps at least a millisecond.
  pub wait_exposure : ℕ → ℕ → Run (Unit {0})
  wait_exposure id exposure_time =
      let duration =
        (if leb 10 (st.simulated_ms exposure_time) then st.simulated_ms exposure_time else 10) in
      wait_loop duration id 0 duration

  -- An abort that came during the wait.
  abort_exposure : Slot → Sequence → ℕ → Run (Unit {0})
  abort_exposure slot s id = do
    execute_command st s Order.abort slot.token (Suffix.abort slot.ordinal)
    write (set_exposure_status id ExposureStatus.failed)
    mark_aborted s.id slot.token

  -- STANDBY after the last exposure, READY before the next.
  target_after : Sequence → InstrumentState
  target_after s =
      if leb s.expected_exposures s.completed_exposures
      then InstrumentState.standby
      else InstrumentState.ready

  storage_fault : DeviceState → Bool
  storage_fault d = is_active Fault.disk_full d.faults || is_active Fault.nas_unavailable d.faults

  -- The commit of the frame, its count, and the next state of the instrument.
  store_frame : Slot → Sequence → ℕ → ℕ → DeviceState → Run (Unit {0})
  unfolding storage_fault target_after count_completed
  store_frame slot s id ended d = do
    commit_l0 st (storage_fault d) ended id
    write (update_sequence s.id count_completed)
    counted ← load_sequence s.id
    transition (target_after counted) slot.token

  commit_frame : Slot → Sequence → ℕ → Run (Unit {0})
  commit_frame slot s id = do
    ended ← gets (λ w. w.now)
    d ← device_state
    if not d.values.guider_locked
        then fail_retryable guider_lock_lost
        else store_frame slot s id ended d

  read_frame : Slot → Sequence → ℕ → Run (Unit {0})
  unfolding measured
  read_frame slot s id = do
    feedback ←
        execute_command st s (Order.expose slot.mode slot.group_sub_index id) slot.token
          (Suffix.expose slot.ordinal)
    position ← the (measured feedback.result)
    write (
        update_exposure id (λ e. record e {
          command_id = some feedback.command_id;
          fr1_measured = some position.0;
          fr3_measured = some position.1;
          status = ExposureStatus.reading;
        }))
    transition InstrumentState.reading slot.token
    commit_frame slot s id

  -- The second transaction.
  pub finish_exposure : Slot → ℕ → Run (Unit {0})
  unfolding is_aborting
  finish_exposure slot id = session (do
    s ← load_sequence slot.sequence_id
    e ← gets (λ w. get_exposure id w.db)
    the e
    if is_aborting s.status then abort_exposure slot s id else read_frame slot s id)

  take_rest : Slot → Option (ℕ × ℕ) → Run (Unit {0})
  take_rest slot none = pure tt
  take_rest slot (some (id, exposure_time)) = do
    wait_exposure slot.sequence_id exposure_time
    finish_exposure slot id

  pub take_exposure : Slot → Run (Unit {0})
  take_exposure slot = do begun ← start_exposure slot; take_rest slot begun
