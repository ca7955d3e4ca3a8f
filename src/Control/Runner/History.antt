-- ===== src/Control/Runner/History.antt =====
-- The interface between the code of the runner and the relations that its histories follow: the
-- writes that the runner makes to the database, one field for each. A relation that has them holds
-- between the database before and after any method, whatever else happens in between.
use most_sprite.Prelude.{ℕ, ◌≡◌, refl, List, Option}
use most_sprite.Domain.{InstrumentState, SequenceStatus}
use most_sprite.Domain.Errors.{Code, ok}
use most_sprite.Control.Lease.{ControlLease}
use most_sprite.Control.StateMachine.{assert_transition}
use most_sprite.Store.{
  Db, Sequence, ModulationGroup, Command, Exposure, RawFile, L0Product, InstrumentStateRecord,
  Alarm, OutboxEvent, update_sequence, emit,
}
use most_sprite.Control.World.Relates.{IsHistory}

-- The events that announce no change of the instrument's state.
pub data IsPlain : OutboxEvent → Type 0 where
  of_sequence : {id : ℕ} {st : SequenceStatus} → IsPlain (OutboxEvent.sequence_state_changed id st)
  of_heartbeat : {s : InstrumentState} → IsPlain (OutboxEvent.heartbeat s)
  of_raw_file : {s e r : ℕ} → IsPlain (OutboxEvent.raw_file_committed s e r)
  of_alarm : {s : ℕ} {c : Code} → IsPlain (OutboxEvent.alarm_raised s c)

-- What was asked for is the same.
pub record SameRequest (s t : Sequence) : Type 0 where
  pub id : t.id ≡ s.id
  pub idempotency_key : t.idempotency_key ≡ s.idempotency_key
  pub target_name : t.target_name ≡ s.target_name
  pub created_by : t.created_by ≡ s.created_by
  pub mode : t.mode ≡ s.mode
  pub exposure_time : t.exposure_time ≡ s.exposure_time
  pub repeats : t.repeats ≡ s.repeats
  pub expected_exposures : t.expected_exposures ≡ s.expected_exposures
  pub config_snapshot_id : t.config_snapshot_id ≡ s.config_snapshot_id

-- The columns that the runner and the API write are none of these.
pub SameRequest-written :
    (s : Sequence) (st : SequenceStatus) (completed attempt : ℕ) (c : Option Code)
    → SameRequest s (record s {
      status = st;
      completed_exposures = completed;
      attempt = attempt;
      last_error_code = c;
    })
SameRequest-written s st completed attempt c = record {
  id = refl;
  idempotency_key = refl;
  target_name = refl;
  created_by = refl;
  mode = refl;
  exposure_time = refl;
  repeats = refl;
  expected_exposures = refl;
  config_snapshot_id = refl;
}

pub record IsRunnerHistory (Q : Db → Db → Type 0) : Type 0 where
  pub history : IsHistory Q
  pub commands : (d : Db) (cs : List Command) → Q d (record d { commands = cs })
  pub exposures : (d : Db) (es : List Exposure) → Q d (record d { exposures = es })
  pub groups : (d : Db) (gs : List ModulationGroup) → Q d (record d { groups = gs })
  pub files :
      (d : Db) (rs : List RawFile) (ps : List L0Product)
      → Q d (record d { raw_files = rs; products = ps })
  pub alarms : (d : Db) (as' : List Alarm) → Q d (record d { alarms = as' })
  pub leads : (d : Db) (l : Option ControlLease) → Q d (record d { lease = l })
  pub sequences :
      (d : Db) (id : ℕ) (f : Sequence → Sequence)
      → ((s : Sequence) → SameRequest s (f s))
      → Q d (update_sequence id f d)
  pub announces : (d : Db) (e : OutboxEvent) → IsPlain e → Q d (emit e d)
  pub refreshes :
      (d : Db) (i : InstrumentStateRecord)
      → i.state ≡ d.instrument.state
      → Q d (record d { instrument = i })
  pub moves :
      (d : Db) (i : InstrumentStateRecord)
      → assert_transition d.instrument.state i.state ≡ ok tt
      → Q d (
          emit
            (OutboxEvent.device_state_changed d.instrument.state i.state)
            (record d { instrument = i }))
  -- A fall that the table does not have is written with its alarm.
  pub faults :
      (d : Db) (i : InstrumentStateRecord) (as' : List Alarm) (s : ℕ) (c : Code)
      → i.state ≡ InstrumentState.safe_fault
      → Q d (emit (OutboxEvent.alarm_raised s c) (record d { instrument = i; alarms = as' }))
