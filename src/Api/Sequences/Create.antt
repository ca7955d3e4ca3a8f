-- ===== src/Api/Sequences/Create.antt =====
-- `create_sequence` of backend/src/most_sprite/api/routes.py. The audit record is left out. The key
-- of the client is that of the sequence, whatever else the request has.
pub mod Retry
use most_sprite.Prelude.{
  ℕ, ◌==◌, Option, none, some, ◌∷◌, find_if, not, ◌≡◌, refl, arith, Bool, true, false,
}
use most_sprite.Domain.{SequenceStatus, CommandStatus}
use most_sprite.Domain.Errors.{Result, ok, raise, ◌>>=◌, ◌>>◌, refuse_if, found_or, Code}
use most_sprite.Devices.Contracts.{Action, CommandKey, same_key, same_key_refl}
use most_sprite.Store.{Db, Sequence, Command, CommandKind, get_sequence}
use most_sprite.Control.Validation.{
  SequenceRequest, ConfigSnapshot, SequenceValidation, validate_sequence_request, exposures_of,
}
use most_sprite.Api.Sequences.{CommandAccepted, find_command}

-- What a client sends, with the user, and the ids that the two new rows get.
pub record CreateRequest : Type 0 where
  pub payload : SequenceRequest
  pub idempotency_key : ℕ
  pub subject : ℕ
  pub command_id : ℕ
  pub sequence_id : ℕ

pub find_created : ℕ → Db → Option Sequence
find_created key db = find_if (λ s. s.idempotency_key == key) db.sequences

create_command : CreateRequest → ℕ → Command
create_command r now = record {
  id = r.command_id;
  idempotency_key = CommandKey.api_create r.idempotency_key;
  sequence_id = none;
  kind = CommandKind.create_sequence;
  status = CommandStatus.succeeded;
  completed_at = some now;
  fencing_token = 0;
  error_code = none;
  result = none;
}

new_sequence : CreateRequest → ConfigSnapshot → SequenceValidation → Sequence
new_sequence r snapshot validation = record {
  id = r.sequence_id;
  idempotency_key = r.idempotency_key;
  target_name = r.payload.target_name;
  mode = r.payload.mode;
  exposure_time = r.payload.exposure_time;
  repeats = r.payload.repeats;
  attempt = 0;
  expected_exposures = validation.estimated_exposures;
  completed_exposures = 0;
  status = SequenceStatus.validated;
  config_snapshot_id = snapshot.id;
  created_by = r.subject;
  last_error_code = none;
}

unfoldable pub add_created : CreateRequest → ConfigSnapshot → SequenceValidation → ℕ → Db → Db
unfolding create_command new_sequence
add_created r snapshot validation now db = record db {
  commands = create_command r now ∷ db.commands;
  sequences = new_sequence r snapshot validation ∷ db.sequences;
}

-- The answer of the request that made the sequence.
first_answer : ℕ → Sequence → Db → Result (CommandAccepted × Db)
unfolding find_command
first_answer key s db =
    found_or Code.control_failure (find_command (CommandKey.api_create key) db) >>= λ c.
    ok (record { command_id = c.id; resource_id = s.id; status = c.status }, db)

create_new : ℕ → ℕ → ConfigSnapshot → ℕ → CreateRequest → Db → Result (CommandAccepted × Db)
unfolding validate_sequence_request add_created
create_new minimum_free_bytes free_bytes snapshot now r db = do
  let validation = validate_sequence_request minimum_free_bytes free_bytes r.payload snapshot
  refuse_if (not validation.valid) Code.sequence_validation_failed
  ok (
    record {
      command_id = r.command_id;
      resource_id = r.sequence_id;
      status = CommandStatus.succeeded;
    },
    add_created r snapshot validation now db,
  )

answer_or_create :
    ℕ
    → ℕ
    → ConfigSnapshot
    → ℕ
    → CreateRequest
    → Db
    → Option Sequence
    → Result (CommandAccepted × Db)
unfolding first_answer create_new
answer_or_create minimum_free_bytes free_bytes snapshot now r db (some s) =
    first_answer r.idempotency_key s db
answer_or_create minimum_free_bytes free_bytes snapshot now r db none =
    create_new minimum_free_bytes free_bytes snapshot now r db

-- `snapshot` is the active configuration.
unfoldable pub create_sequence :
    ℕ → ℕ → ConfigSnapshot → ℕ → CreateRequest → Db → Result (CommandAccepted × Db)
unfolding answer_or_create find_created
create_sequence minimum_free_bytes free_bytes snapshot now r db =
    answer_or_create minimum_free_bytes free_bytes snapshot now r db
      (find_created r.idempotency_key db)
