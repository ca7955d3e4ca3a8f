-- ===== src/Api/Sequences/Tests.antt =====
-- Examples for the requests of clients: one queued sequence, which is paused.
use most_sprite.Prelude.{ℕ, arith, ◌≡◌, ◌≢◌, refl, none, List, [], ◌∷◌, find_if}
use most_sprite.Domain.{
  DataMode, ConfigurationStatus, same_state, InstrumentState, SequenceStatus, CommandStatus,
}
use most_sprite.Domain.Errors.{ok, raise, recovery_not_required}
use most_sprite.Devices.Contracts.{Action}
use most_sprite.Store.{Db, Sequence, get_sequence}
use most_sprite.Api.Sequences.{
  ActionRequest, CommandAccepted, accepted, sequence_action, recover_instrument, apply_action,
  find_command, is_action_allowed, is_retry, command_result,
}
use most_sprite.Control.Validation.{ConfigSnapshot, validate_sequence_request}
use most_sprite.Api.Sequences.Create.{CreateRequest, add_created}
use most_sprite.Api.Sequences.Create.Retry.{Creation}
use most_sprite.Api.Sequences.Retry.{later_requests, sequence_action_retry}
use most_sprite.Api.Sequences.Lifecycle.{Change, sequence_action-Change, sequence_action_apart}

abbrev pub queued_sequence : Sequence
queued_sequence = record {
  id = 7;
  idempotency_key = 70;
  target_name = 0;
  mode = DataMode.pol_q;
  exposure_time = 150;
  repeats = 1;
  attempt = 0;
  expected_exposures = 4;
  completed_exposures = 0;
  status = SequenceStatus.queued;
  config_snapshot_id = 1;
  created_by = 0;
  last_error_code = none;
}

abbrev pub start_db : Db
start_db = record {
  sequences = queued_sequence ∷ [];
  groups = [];
  commands = [];
  exposures = [];
  raw_files = [];
  products = [];
  instrument = record {
    state = InstrumentState.offline;
    target_state = none;
    observed_at = 0;
    fencing_token = 0;
    devices = none;
  };
  alarms = [];
  outbox = [];
  lease = none;
}

abbrev pause_request : ActionRequest
pause_request = record { sequence_id = 7; action = Action.pause; key = 5; command_id = 9 }

abbrev paused_db : Db
paused_db = apply_action pause_request queued_sequence 20 start_db

abbrev pause_answer : CommandAccepted
pause_answer = record { command_id = 9; resource_id = 7; status = CommandStatus.accepted }

start_db-pause : sequence_action pause_request 20 start_db ≡ ok (pause_answer, paused_db)
unfolding sequence_action get_sequence find_if find_command is_action_allowed is_retry
    command_result accepted
start_db-pause = refl

sequence_action-Change_example :
    Change pause_request start_db queued_sequence pause_answer paused_db
unfolding get_sequence find_if
sequence_action-Change_example =
    sequence_action-Change pause_request 20 start_db queued_sequence {a = (pause_answer, paused_db)}
      refl start_db-pause

-- The same client aborts, and asks for the pause again.
abbrev abort_request : ActionRequest
abort_request = record { sequence_id = 7; action = Action.abort; key = 6; command_id = 11 }

abbrev between : List (ActionRequest × ℕ)
between = (abort_request, 25) ∷ []

sequence_action_retry_example :
    sequence_action (record pause_request { command_id = 10 }) 30 (later_requests between paused_db)
    ≡ ok (pause_answer, later_requests between paused_db)
unfolding get_sequence find_if
sequence_action_retry_example =
    sequence_action_retry pause_request 20 30 10 start_db queued_sequence (pause_answer, paused_db)
      between refl start_db-pause

eight_apart : ◌≢◌ {A = ℕ} 8 7
eight_apart h = ground arith

sequence_action_apart_example : get_sequence 8 paused_db ≡ get_sequence 8 start_db
sequence_action_apart_example =
    sequence_action_apart pause_request 20 start_db 8 eight_apart start_db-pause

abbrev faulted_db : Db
faulted_db = record start_db {
  instrument = record (start_db.instrument) { state = InstrumentState.safe_fault };
}

abbrev recovered_db : Db
recovered_db = record start_db {
  instrument = record (start_db.instrument) { state = InstrumentState.offline; observed_at = 20 };
}

faulted_db-recovery : recover_instrument 20 faulted_db ≡ ok recovered_db
unfolding recover_instrument
faulted_db-recovery = refl

second_recovery : recover_instrument 30 recovered_db ≡ raise recovery_not_required
unfolding recover_instrument same_state
second_recovery = refl

abbrev create_request : CreateRequest
create_request = record {
  payload = record { target_name = 3; mode = DataMode.pol_v; exposure_time = 10; repeats = 2 };
  idempotency_key = 71;
  subject = 1;
  command_id = 12;
  sequence_id = 8;
}

abbrev other_request : CreateRequest
other_request = record {
  payload = record { target_name = 4; mode = DataMode.nonpol; exposure_time = 10; repeats = 1 };
  idempotency_key = 72;
  subject = 2;
  command_id = 13;
  sequence_id = 9;
}

abbrev active_snapshot : ConfigSnapshot
active_snapshot = record { id = 1; status = ConfigurationStatus.unverified }

abbrev created : CommandAccepted × Db
created = (
  record { command_id = 12; resource_id = 8; status = CommandStatus.succeeded },
  add_created create_request active_snapshot
      (validate_sequence_request 100 500 create_request.payload active_snapshot) 20 start_db,
)

-- Another client's creation comes in between.
abbrev other_creation : Creation
other_creation = record {
  minimum_free_bytes = 100;
  free_bytes = 400;
  snapshot = active_snapshot;
  now = 25;
  request = other_request;
}
