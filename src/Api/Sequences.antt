-- ===== src/Api/Sequences.antt =====
-- `sequence_action` of backend/src/most_sprite/api/routes.py and `recover_instrument` of
-- backend/src/most_sprite/control/runner.py: what a client may ask of a sequence and of the
-- instrument. The audit record is left out. A request is one transaction: one that raises changes
-- nothing.
pub mod Actions
pub mod Create
pub mod Recover
pub mod Lifecycle
pub mod Retry
pub mod Tests
use most_sprite.Prelude.{
  ℕ, ◌+◌, Bool, true, false, ◌&&◌, Option, none, some, ◌∷◌, find_if, if◌then◌else◌,
}
use most_sprite.Domain.{InstrumentState, SequenceStatus, CommandStatus, same_state}
use most_sprite.Domain.Errors.{
  Result, ok, raise, ◌>>=◌, ◌>>◌, refuse_if, sequence_not_found, invalid_sequence_transition,
  safe_fault_latched, recovery_not_required,
}
use most_sprite.Devices.Contracts.{Action, CommandKey, same_key}
use most_sprite.Control.StateMachine.{assert_transition}
use most_sprite.Store.{
  Db, Sequence, Command, CommandKind, OutboxEvent, get_sequence, update_sequence, emit,
}

-- The table `transitions`: the states in which an action is allowed, and the state that it asks for.
unfoldable pub is_action_allowed : Action → SequenceStatus → Bool
is_action_allowed Action.start SequenceStatus.validated = true
is_action_allowed Action.pause SequenceStatus.queued = true
is_action_allowed Action.pause SequenceStatus.running = true
is_action_allowed Action.resume SequenceStatus.paused = true
is_action_allowed Action.resume SequenceStatus.failed = true
is_action_allowed Action.abort SequenceStatus.queued = true
is_action_allowed Action.abort SequenceStatus.running = true
is_action_allowed Action.abort SequenceStatus.pausing = true
is_action_allowed Action.abort SequenceStatus.paused = true
is_action_allowed _ _ = false

unfoldable pub action_target : Action → SequenceStatus
action_target Action.start = SequenceStatus.queued
action_target Action.pause = SequenceStatus.pausing
action_target Action.resume = SequenceStatus.queued
action_target Action.abort = SequenceStatus.aborting

-- The state that the action leaves: an abort of a paused sequence is done at once.
unfoldable pub action_result : Action → SequenceStatus → SequenceStatus
unfolding action_target
action_result Action.abort SequenceStatus.paused = SequenceStatus.aborted
action_result a _ = action_target a

unfoldable pub command_result : Action → SequenceStatus → CommandStatus
command_result Action.abort SequenceStatus.paused = CommandStatus.succeeded
command_result _ _ = CommandStatus.accepted

unfoldable pub is_retry : Action → SequenceStatus → Bool
is_retry Action.resume SequenceStatus.failed = true
is_retry _ _ = false

-- The answer to a request: its command and the sequence.
pub record CommandAccepted : Type 0 where
  pub command_id : ℕ
  pub resource_id : ℕ
  pub status : CommandStatus

-- What a client sends: the sequence, the action, its Idempotency-Key, and the id of the new command.
pub record ActionRequest : Type 0 where
  pub sequence_id : ℕ
  pub action : Action
  pub key : ℕ
  pub command_id : ℕ

-- The row that the action adds to `commands`.
action_command : ActionRequest → SequenceStatus → ℕ → Command
unfolding command_result
action_command r current now = record {
  id = r.command_id;
  idempotency_key = CommandKey.api_sequence r.sequence_id r.action r.key;
  sequence_id = some r.sequence_id;
  kind = CommandKind.action r.action;
  status = command_result r.action current;
  completed_at = at (command_result r.action current);
  fencing_token = 0;
  error_code = none;
  result = none;
}
  where
    at : CommandStatus → Option ℕ
    at CommandStatus.succeeded = some now
    at _ = none

unfoldable pub find_command : CommandKey → Db → Option Command
find_command k db = find_if (λ c. same_key c.idempotency_key k) db.commands

-- The writes of an action that passed its guards.
unfoldable pub apply_action : ActionRequest → Sequence → ℕ → Db → Db
unfolding action_command action_result is_retry update_sequence emit
apply_action r s now db =
    emit (OutboxEvent.sequence_state_changed s.id (action_result r.action s.status)) (
      update_sequence r.sequence_id
        (λ q. record q {
          attempt = if is_retry r.action s.status then q.attempt + 1 else q.attempt;
          status = action_result r.action s.status;
        })
        (record db { commands = action_command r s.status now ∷ db.commands }))

unfoldable pub accepted : ActionRequest → Command → CommandAccepted
accepted r c = record { command_id = c.id; resource_id = r.sequence_id; status = c.status }

pub guarded_action : ActionRequest → ℕ → Db → Sequence → Result (CommandAccepted × Db)
unfolding is_action_allowed is_retry apply_action accepted action_command same_state
guarded_action r now db s =
    if is_action_allowed r.action s.status
    then (if is_retry r.action s.status && same_state db.instrument.state InstrumentState.safe_fault
        then raise safe_fault_latched
        else ok (accepted r (action_command r s.status now), apply_action r s now db))
    else raise invalid_sequence_transition

-- The answer of an earlier request with the same key, or the action.
answer_or_act : ActionRequest → ℕ → Db → Sequence → Option Command → Result (CommandAccepted × Db)
unfolding guarded_action accepted
answer_or_act r now db s (some c) = ok (accepted r c, db)
answer_or_act r now db s none = guarded_action r now db s

on_sequence : ActionRequest → ℕ → Db → Option Sequence → Result (CommandAccepted × Db)
unfolding answer_or_act find_command
on_sequence r now db none = raise sequence_not_found
on_sequence r now db (some s) =
    answer_or_act r now db s
      (find_command (CommandKey.api_sequence r.sequence_id r.action r.key) db)

unfoldable pub sequence_action : ActionRequest → ℕ → Db → Result (CommandAccepted × Db)
unfolding on_sequence get_sequence
sequence_action r now db = on_sequence r now db (get_sequence r.sequence_id db)

-- `recover_instrument`
unfoldable pub recover_instrument : ℕ → Db → Result Db
unfolding assert_transition same_state
recover_instrument now db =
    if same_state db.instrument.state InstrumentState.safe_fault
    then (do
      assert_transition InstrumentState.safe_fault InstrumentState.offline
      ok (record db {
        instrument = record (db.instrument) { state = InstrumentState.offline; observed_at = now };
      }))
    else raise recovery_not_required
