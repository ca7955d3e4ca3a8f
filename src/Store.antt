-- ===== src/Store.antt =====
-- backend/src/most_sprite/db/models.py, events/outbox.py, config.py and configuration.py: the tables
-- of the authority database that the control process and the API share, the events in its outbox,
-- and the settings that both read. A table is the list of its rows, newest first. Columns that no
-- modelled code reads (URIs, sizes, checksums, free text) are left out.
use most_sprite.Prelude.{ℕ, ◌==◌, Option, List, [], ◌∷◌, find_if, update_if}
use most_sprite.Prelude.Int.{ℤ, pos}
use most_sprite.Domain.{
  DataMode, InstrumentState, SequenceStatus, ExposureStatus, CommandStatus, AlarmSeverity,
}
use most_sprite.Domain.Errors.{Code}
use most_sprite.Devices.Contracts.{Action, CommandKey, FeedbackResult, Order}
use most_sprite.Devices.Simulator.{DeviceState}
use most_sprite.Control.Lease.{ControlLease}

pub record Sequence : Type 0 where
  pub id : ℕ
  pub idempotency_key : ℕ
  pub target_name : ℕ
  pub mode : DataMode
  pub exposure_time : ℕ
  pub repeats : ℕ
  pub attempt : ℕ
  pub expected_exposures : ℕ
  pub completed_exposures : ℕ
  pub status : SequenceStatus
  pub config_snapshot_id : ℕ
  pub created_by : ℕ
  pub last_error_code : Option Code

pub record ModulationGroup : Type 0 where
  pub id : ℕ
  pub sequence_id : ℕ
  pub group_index : ℕ
  pub stokes : DataMode

-- `command_type` of a row of the table `commands`.
pub data CommandKind : Type 0 where
  create_sequence recover recovered_expose : CommandKind
  action : Action → CommandKind
  device : Order → CommandKind

pub record Command : Type 0 where
  pub id : ℕ
  pub idempotency_key : CommandKey
  pub sequence_id : Option ℕ
  pub kind : CommandKind
  pub status : CommandStatus
  pub completed_at : Option ℕ
  pub fencing_token : ℕ
  pub error_code : Option Code
  pub result : Option FeedbackResult

pub record Exposure : Type 0 where
  pub id : ℕ
  pub sequence_id : ℕ
  pub group_id : Option ℕ
  pub command_id : Option ℕ
  pub sub_index : ℕ
  pub status : ExposureStatus
  pub fr1_commanded : Option ℤ
  pub fr1_measured : Option ℤ
  pub fr3_commanded : Option ℤ
  pub fr3_measured : Option ℤ
  pub raw_file_id : Option ℕ
  pub started_at : Option ℕ
  pub committed_at : Option ℕ

pub record RawFile : Type 0 where
  pub id : ℕ
  pub exposure_id : ℕ

-- The row of `products` for an L0 file.
pub record L0Product : Type 0 where
  pub sequence_id : ℕ
  pub exposure_id : ℕ
  pub raw_file_id : ℕ

pub record InstrumentStateRecord : Type 0 where
  pub state : InstrumentState
  pub target_state : Option InstrumentState
  pub observed_at : ℕ
  pub fencing_token : ℕ
  pub devices : Option DeviceState

pub record Alarm : Type 0 where
  pub sequence_id : ℕ
  pub severity : AlarmSeverity
  pub reason_code : Code

-- The payloads of the outbox events that the control process and the API emit.
pub data OutboxEvent : Type 0 where
  sequence_state_changed : ℕ → SequenceStatus → OutboxEvent
  device_state_changed : InstrumentState → InstrumentState → OutboxEvent
  heartbeat : InstrumentState → OutboxEvent
  raw_file_committed : ℕ → ℕ → ℕ → OutboxEvent
  alarm_raised : ℕ → Code → OutboxEvent

pub record Db : Type 0 where
  pub sequences : List Sequence
  pub groups : List ModulationGroup
  pub commands : List Command
  pub exposures : List Exposure
  pub raw_files : List RawFile
  pub products : List L0Product
  pub instrument : InstrumentStateRecord
  pub alarms : List Alarm
  pub outbox : List OutboxEvent
  pub lease : Option ControlLease

-- The values of `Settings` and of the versioned configuration that the control process reads.
-- `seed` is the number that the SHA-256 digest of a command id begins with; `angles` is the table
-- MODULATION_ANGLES; `simulated_ms` is the exposure time scaled by `simulation_exposure_scale`.
pub record Settings : Type 0 where
  pub seed : ℕ → ℕ
  pub angles : DataMode → List (ℤ × ℤ)
  pub angle_tolerance : ℕ
  pub stale_state_ms : ℕ
  pub minimum_free_bytes : ℕ
  pub simulated_ms : ℕ → ℕ

-- configs/modulation/most-v1.yaml
unfoldable pub most_v1 : DataMode → List (ℤ × ℤ)
most_v1 DataMode.pol_q =
    (pos 0, pos 0)
    ∷ (pos 450000, pos 900000)
    ∷ (pos 900000, pos 450000)
    ∷ (pos 1350000, pos 1350000)
    ∷ []
most_v1 DataMode.pol_u =
    (pos 225000, pos 0)
    ∷ (pos 675000, pos 900000)
    ∷ (pos 1125000, pos 450000)
    ∷ (pos 1575000, pos 1350000)
    ∷ []
most_v1 DataMode.pol_v =
    (pos 0, pos 675000)
    ∷ (pos 450000, pos 225000)
    ∷ (pos 900000, pos 225000)
    ∷ (pos 1350000, pos 675000)
    ∷ []
most_v1 DataMode.nonpol = []

-- `session.get(Sequence, id)`
unfoldable pub get_sequence : ℕ → Db → Option Sequence
get_sequence id db = find_if (λ s. s.id == id) db.sequences

-- Writes to the columns of one row, by its primary key.
unfoldable pub update_sequence : ℕ → (Sequence → Sequence) → Db → Db
update_sequence id f db = record db { sequences = update_if (λ s. s.id == id) f db.sequences }

unfoldable pub get_exposure : ℕ → Db → Option Exposure
get_exposure id db = find_if (λ e. e.id == id) db.exposures

unfoldable pub update_exposure : ℕ → (Exposure → Exposure) → Db → Db
update_exposure id f db = record db { exposures = update_if (λ e. e.id == id) f db.exposures }

unfoldable pub update_command : ℕ → (Command → Command) → Db → Db
update_command id f db = record db { commands = update_if (λ c. c.id == id) f db.commands }

unfoldable pub set_sequence_status : ℕ → SequenceStatus → Db → Db
unfolding update_sequence
set_sequence_status id st = update_sequence id (λ s. record s { status = st })

unfoldable pub set_exposure_status : ℕ → ExposureStatus → Db → Db
unfolding update_exposure
set_exposure_status id st = update_exposure id (λ e. record e { status = st })

-- `emit_event`
unfoldable pub emit : OutboxEvent → Db → Db
emit e db = record db { outbox = e ∷ db.outbox }
