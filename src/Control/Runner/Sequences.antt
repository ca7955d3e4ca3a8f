-- ===== src/Control/Runner/Sequences.antt =====
-- `_run_sequence` and `_fail_sequence` of runner.py.
pub mod FailSafe
pub mod Leads
use most_sprite.Prelude.{
  ℕ, zero, suc, ◌+◌, ◌-◌, ◌*◌, Bool, true, false, ◌&&◌, ◌==◌, Option, none, some, ◌∷◌, find_if,
  update_if, if◌then◌else◌,
}
use most_sprite.Domain.{
  DataMode, InstrumentState, SequenceStatus, ExposureStatus, AlarmSeverity, is_polarimetric,
  same_state,
}
use most_sprite.Domain.Errors.{Code, SpriteError}
use most_sprite.Devices.Contracts.{Order, Suffix}
use most_sprite.Control.StateMachine.{is_allowed}
use most_sprite.Store.{
  Settings, Db, Sequence, ModulationGroup, Exposure, OutboxEvent, get_sequence, update_sequence,
  emit,
}
use most_sprite.Control.World.{Run, pure, gets, write, fresh_id, session, suppress, ◌>>=◌, ◌>>◌}
use most_sprite.Control.Runner.Commands.{load_sequence, execute_command}
use most_sprite.Control.Runner.Transitions.{
  transition, mark_paused, mark_aborted, prepare_instrument, current_state,
}
use most_sprite.Control.Runner.Exposures.{Slot, take_exposure, is_committed}

-- Whether the loop goes on, or `_run_sequence` returns.
pub data Flow : Type 0 where
  go stop : Flow

-- A run: the sequence, its mode and the token of the leader.
pub record Job : Type 0 where
  pub sequence_id : ℕ
  pub mode : DataMode
  pub token : ℕ

abbrev pub subexposures : DataMode → ℕ
subexposures mode = if is_polarimetric mode then 4 else 1

-- A pause or an abort that was asked for ends the run.
pub heed_stop : Job → SequenceStatus → Run Flow
heed_stop j SequenceStatus.aborting = do mark_aborted j.sequence_id j.token; pure Flow.stop
heed_stop j SequenceStatus.pausing = do mark_paused j.sequence_id; pure Flow.stop
heed_stop j _ = pure Flow.go

-- After an exposure the run also ends where it was stopped on the way.
pub heed_end : Job → SequenceStatus → Run Flow
unfolding heed_stop
heed_end j SequenceStatus.aborted = pure Flow.stop
heed_end j SequenceStatus.paused = pure Flow.stop
heed_end j SequenceStatus.failed = pure Flow.stop
heed_end j st = heed_stop j st

-- What the loop finds before an exposure.
pub data Before : Type 0 where
  done_already take leave : Before

committed_exposure : ℕ → ℕ → Db → Option Exposure
unfolding is_committed
committed_exposure seq ordinal db =
    find_if (λ e. (e.sequence_id == seq) && (e.sub_index == ordinal) && is_committed e.status)
      db.exposures

before_of : Flow → Before
before_of Flow.go = take
before_of Flow.stop = leave

look : Job → ℕ → Option Exposure → Sequence → Run Before
unfolding heed_stop before_of
look j ordinal (some e) s = pure done_already
look j ordinal none s = do flow ← heed_stop j s.status; pure (before_of flow)

-- The transaction before an exposure.
unfoldable pub before_exposure : Job → ℕ → Run Before
unfolding committed_exposure look
before_exposure j ordinal = session (do
  s ← load_sequence j.sequence_id
  existing ← gets (λ w. committed_exposure j.sequence_id ordinal w.db)
  look j ordinal existing s)

-- The transaction after an exposure.
unfoldable pub after_exposure : Job → Run Flow
unfolding heed_end
after_exposure j = session (do s ← load_sequence j.sequence_id; heed_end j s.status)

find_group : ℕ → ℕ → Db → Option ModulationGroup
find_group seq index db =
    find_if (λ g. (g.sequence_id == seq) && (g.group_index == index)) db.groups

found_or_new : Job → ℕ → Option ModulationGroup → Run (Option ℕ)
found_or_new j index (some g) = pure (some g.id)
found_or_new j index none = do
  id ← fresh_id
  write (λ db. record db {
    groups =
        record { id = id; sequence_id = j.sequence_id; group_index = index; stokes = j.mode }
        ∷ db.groups;
  })
  pure (some id)

-- The modulation group of a polarimetric cycle.
unfoldable pub ensure_group : Job → ℕ → Run (Option ℕ)
unfolding find_group found_or_new
ensure_group j index =
    if is_polarimetric j.mode
    then session (do g ← gets (λ w. find_group j.sequence_id index w.db); found_or_new j index g)
    else pure none

module _ (st : Settings) where
  slot_of : Job → Option ℕ → ℕ → ℕ → Slot
  slot_of j group index sub = record {
    sequence_id = j.sequence_id;
    group_id = group;
    mode = j.mode;
    ordinal = (index - 1) * subexposures j.mode + sub;
    group_sub_index = sub;
    token = j.token;
  }

  act : Job → Slot → Before → Run Flow
  act j slot done_already = pure Flow.go
  act j slot leave = pure Flow.stop
  act j slot take = do take_exposure st slot; after_exposure j

  -- One round of the inner loop.
  unfoldable pub one_exposure : Job → Slot → Run Flow
  unfolding act
  one_exposure j slot = do seen ← before_exposure j slot.ordinal; act j slot seen

  -- `for sub_index in range(1, subexposures + 1)`, with this many rounds left.
  unfoldable pub exposures_loop : Job → Option ℕ → ℕ → ℕ → ℕ → Run Flow
  unfolding slot_of
  exposures_loop j group index sub zero = pure Flow.go
  exposures_loop j group index sub (suc left) = do
    flow ← one_exposure j (slot_of j group index sub)
    elim flow [ Flow.stop ↦ pure Flow.stop | Flow.go ↦ exposures_loop j group index (sub + 1) left ]

  -- `for group_index in range(1, repeats + 1)`, with this many rounds left.
  unfoldable pub groups_loop : Job → ℕ → ℕ → Run Flow
  groups_loop j index zero = pure Flow.go
  groups_loop j index (suc left) = do
    group ← ensure_group j index
    flow ← exposures_loop j group index 1 (subexposures j.mode)
    elim flow [ Flow.stop ↦ pure Flow.stop | Flow.go ↦ groups_loop j (index + 1) left ]

  succeed : Job → SequenceStatus → Run (Unit {0})
  succeed j SequenceStatus.running = do
    write (update_sequence j.sequence_id (λ s. record s { status = SequenceStatus.succeeded }))
    transition InstrumentState.standby j.token
    write (emit (OutboxEvent.sequence_state_changed j.sequence_id SequenceStatus.succeeded))
  succeed j SequenceStatus.aborting = mark_aborted j.sequence_id j.token
  succeed j SequenceStatus.pausing = mark_paused j.sequence_id
  succeed j _ = pure tt

  -- The last transaction.
  unfoldable pub finish_sequence : Job → Run (Unit {0})
  unfolding succeed
  finish_sequence j = session (do s ← load_sequence j.sequence_id; succeed j s.status)

  prepare : ℕ → ℕ → Run Sequence
  prepare id token = session (do s ← load_sequence id; prepare_instrument st s token; pure s)

  run_prepared : ℕ → Sequence → Run (Unit {0})
  run_prepared token s =
      let j : Job = record { sequence_id = s.id; mode = s.mode; token = token } in
      (do
        flow ← groups_loop j 1 s.repeats
        elim flow [ Flow.stop ↦ pure tt | Flow.go ↦ finish_sequence j ])

  -- `_run_sequence`
  unfoldable pub run_sequence : ℕ → ℕ → Run (Unit {0})
  unfolding prepare run_prepared
  run_sequence id token = do s ← prepare id token; run_prepared token s

  is_unfinished : ExposureStatus → Bool
  is_unfinished ExposureStatus.pending = true
  is_unfinished ExposureStatus.exposing = true
  is_unfinished ExposureStatus.reading = true
  is_unfinished _ = false

  -- `update(Exposure)...values(status=FAILED)`
  fail_exposures : ℕ → Db → Db
  unfolding is_unfinished
  fail_exposures id db = record db {
    exposures =
        update_if (λ e. (e.sequence_id == id) && is_unfinished e.status)
          (λ e. record e { status = ExposureStatus.failed }) db.exposures;
  }

  -- SAFE_FAULT by a transition where the table has it, and by a plain write where not.
  force_fault : ℕ → InstrumentState → Run (Unit {0})
  force_fault token current =
      if same_state current InstrumentState.safe_fault
      then pure tt
      else if is_allowed current InstrumentState.safe_fault
      then transition InstrumentState.safe_fault token
      else (do
        now ← gets (λ w. w.now)
        write (λ db. record db {
          instrument = record (db.instrument) {
            state = InstrumentState.safe_fault;
            observed_at = now;
          };
        }))

  raise_alarm : ℕ → Code → Db → Db
  raise_alarm id code db = emit (OutboxEvent.alarm_raised id code) (record db {
    alarms =
        record { sequence_id = id; severity = AlarmSeverity.serious; reason_code = code }
        ∷ db.alarms;
  })

  fail_found : ℕ → Code → Option Sequence → Run (Unit {0})
  unfolding fail_exposures force_fault raise_alarm current_state
  fail_found token code none = pure tt
  fail_found token code (some s) = do
    write (
        update_sequence s.id
          (λ q. record q { status = SequenceStatus.failed; last_error_code = some code }))
    write (fail_exposures s.id)
    current ← current_state
    force_fault token current
    write (raise_alarm s.id code)
    suppress (execute_command st s Order.safe token Suffix.safe_fault)

  -- `_fail_sequence`
  unfoldable pub fail_sequence : ℕ → ℕ → SpriteError → Run (Unit {0})
  unfolding fail_found
  fail_sequence id token e =
      session (do found ← gets (λ w. get_sequence id w.db); fail_found token e.code found)
