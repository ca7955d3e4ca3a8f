-- ===== src/Control/Runner/Commands.antt =====
-- `_execute_command` and `_complete_action_command` of runner.py.
pub mod Effects
pub mod Leads
use most_sprite.Prelude.{
  ℕ, ◌+◌, Bool, true, false, Option, none, some, ◌&&◌, ◌==◌, ◌∷◌, update_first, if◌then◌else◌,
}
use most_sprite.Domain.{CommandStatus}
use most_sprite.Domain.Errors.{Code, Result, ok, err, device_command_failed}
use most_sprite.Devices.Contracts.{
  Action, CommandKey, DeviceCommand, DeviceFeedback, FeedbackResult, Order, Suffix,
}
use most_sprite.Devices.Simulator.{execute}
use most_sprite.Store.{Settings, Db, Sequence, Command, CommandKind, get_sequence, update_command}
use most_sprite.Api.Sequences.{find_command}
use most_sprite.Control.World.{Run, fail, gets, the, write, fresh_id, lift, ◌>>=◌, ◌>>◌}

-- `session.get(Sequence, id)` with its assertion.
unfoldable pub load_sequence : ℕ → Run Sequence
load_sequence id w = the (get_sequence id w.db) w

pub is_succeeded : CommandStatus → Bool
is_succeeded CommandStatus.succeeded = true
is_succeeded _ = false

-- `retryable=feedback.status in {TIMED_OUT, FAILED}`
is_retryable : CommandStatus → Bool
is_retryable CommandStatus.timed_out = true
is_retryable CommandStatus.failed = true
is_retryable _ = false

or_default : Option Code → Code
or_default none = device_command_failed
or_default (some c) = c

result_or_empty : Option FeedbackResult → FeedbackResult
result_or_empty none = FeedbackResult.empty
result_or_empty (some r) = r

-- The feedback that is made up from the row of a command that has succeeded before.
recorded_feedback : Command → ℕ → DeviceFeedback
unfolding result_or_empty
recorded_feedback c now = record {
  command_id = c.id;
  status = CommandStatus.succeeded;
  completed_at = now;
  result = result_or_empty c.result;
  error_code = none;
}

-- `Command(id=command_id, ...)`
new_command : ℕ → CommandKey → ℕ → Order → ℕ → Command
new_command id key seq order token = record {
  id = id;
  idempotency_key = key;
  sequence_id = some seq;
  kind = CommandKind.device order;
  status = CommandStatus.accepted;
  completed_at = none;
  fencing_token = token;
  error_code = none;
  result = none;
}

-- `session.add(record)` of a new row; a row that was found is there already.
add_command : Option Command → Command → Db → Db
add_command none c db = record db { commands = c ∷ db.commands }
add_command (some _) c db = db

or_new : Option Command → Command → Command
or_new none c = c
or_new (some r) c = r

complete : DeviceFeedback → Command → Command
complete f c = record c {
  status = f.status;
  completed_at = some f.completed_at;
  error_code = f.error_code;
  result = some f.result;
}

-- A feedback that is not SUCCEEDED is raised.
pub check_feedback : DeviceFeedback → Result DeviceFeedback
unfolding is_succeeded is_retryable or_default
check_feedback f = elim (is_succeeded f.status) [
  | true ↦ ok f
  | false ↦ err (record { code = or_default f.error_code; retryable = is_retryable f.status })
]

module _ (st : Settings) where
  deliver : DeviceCommand → Run DeviceFeedback
  deliver c w =
      let (f, d) = execute (st.seed c.command_id) c w.now w.device in
      (ok f, record w { device = d })

  -- `self.device.execute(command)`, which raises where the device agent is not reached.
  unfoldable pub device_execute : DeviceCommand → Run DeviceFeedback
  unfolding deliver
  device_execute c w = if w.is_reachable then deliver c w else fail Code.control_failure w

  unfoldable pub send : Sequence → CommandKey → Order → ℕ → ℕ → Option Command → Run DeviceFeedback
  unfolding new_command add_command or_new complete check_feedback device_execute
  send s key order token id found = do
    let row = or_new found (new_command id key s.id order token)
    write (add_command found row)
    now ← gets (λ w. w.now)
    feedback ← device_execute (record {
      command_id = row.id;
      idempotency_key = key;
      order = order;
      deadline = now + 30000;
      fencing_token = token;
    })
    write (update_command row.id (complete feedback))
    lift (check_feedback feedback)

  -- The row of the key answers if it has succeeded; else the command goes to the device.
  unfoldable pub answer_or_send :
      Sequence → CommandKey → Order → ℕ → ℕ → Option Command → Run DeviceFeedback
  unfolding send recorded_feedback is_succeeded
  answer_or_send s key order token id none = send s key order token id none
  answer_or_send s key order token id (some c) = elim (is_succeeded c.status) [
    | true ↦ gets (λ w. recorded_feedback c w.now)
    | false ↦ send s key order token id (some c)
  ]

  unfoldable pub execute_command : Sequence → Order → ℕ → Suffix → Run DeviceFeedback
  unfolding answer_or_send find_command
  execute_command s order token suffix = do
    id ← fresh_id
    let key = CommandKey.run s.id s.attempt suffix
    found ← gets (λ w. find_command key w.db)
    answer_or_send s key order token id found

pub data ActionKinds : Type 0 where
  start_or_resume only_pause only_abort : ActionKinds

-- `Command.command_type.in_(command_types)` for the three sets that the code passes.
is_kind : ActionKinds → CommandKind → Bool
is_kind start_or_resume (CommandKind.action Action.start) = true
is_kind start_or_resume (CommandKind.action Action.resume) = true
is_kind only_pause (CommandKind.action Action.pause) = true
is_kind only_abort (CommandKind.action Action.abort) = true
is_kind _ _ = false

is_accepted : CommandStatus → Bool
is_accepted CommandStatus.accepted = true
is_accepted _ = false

is_of : Option ℕ → ℕ → Bool
is_of none id = false
is_of (some s) id = s == id

-- `_complete_action_command`: the newest accepted command of the sequence and of these types.
unfoldable pub complete_action_command : ℕ → ActionKinds → Run (Unit {0})
unfolding is_kind is_accepted is_of
complete_action_command id kinds = do
  now ← gets (λ w. w.now)
  write λ db. record db {
    commands =
        update_first (λ c. is_of c.sequence_id id && is_kind kinds c.kind && is_accepted c.status)
          (λ c. record c { status = CommandStatus.succeeded; completed_at = some now }) db.commands;
  }
