-- ===== src/Api/Sequences/Recover.antt =====
-- `instrument_recover` of backend/src/most_sprite/api/routes.py. The audit record is left out.
use most_sprite.Prelude.{ℕ, ◌≡◌, refl, Option, none, some, Option-cases, inl, inr, ◌∷◌, find_if}
use most_sprite.Domain.{CommandStatus}
use most_sprite.Domain.Errors.{Result, ok, ◌>>=◌, first_line-ok, ok_injective}
use most_sprite.Devices.Contracts.{CommandKey, same_key_refl}
use most_sprite.Store.{Db, Command, CommandKind}
use most_sprite.Api.Sequences.{find_command, recover_instrument}

-- The Idempotency-Key of the client, and the id of the new command.
pub record RecoverRequest : Type 0 where
  pub idempotency_key : ℕ
  pub command_id : ℕ

recover_command : RecoverRequest → ℕ → Command
recover_command r now = record {
  id = r.command_id;
  idempotency_key = CommandKey.api_recover r.idempotency_key;
  sequence_id = none;
  kind = CommandKind.recover;
  status = CommandStatus.succeeded;
  completed_at = some now;
  fencing_token = 0;
  error_code = none;
  result = none;
}

add_recovery : RecoverRequest → ℕ → Db → Db
unfolding recover_command
add_recovery r now db = record db { commands = recover_command r now ∷ db.commands }

answer_or_recover : RecoverRequest → ℕ → Db → Option Command → Result ((ℕ × CommandStatus) × Db)
unfolding recover_instrument add_recovery
answer_or_recover r now db (some c) = ok ((c.id, c.status), db)
answer_or_recover r now db none = recover_instrument now db >>= λ after.
    ok ((r.command_id, CommandStatus.succeeded), add_recovery r now after)

-- The answer is the id and the status of the command.
unfoldable pub instrument_recover : RecoverRequest → ℕ → Db → Result ((ℕ × CommandStatus) × Db)
unfolding answer_or_recover find_command
instrument_recover r now db =
    answer_or_recover r now db (find_command (CommandKey.api_recover r.idempotency_key) db)

-- A recovery that was answered is answered the same way, at any time, and then changes nothing: also
-- when the instrument has failed again since.
instrument_recover_retry :
    (r : RecoverRequest) (now later id : ℕ) (db : Db) (answer : (ℕ × CommandStatus) × Db)
    → instrument_recover r now db ≡ ok answer
    → instrument_recover (record r { command_id = id }) later answer.1 ≡ ok answer
unfolding instrument_recover answer_or_recover add_recovery recover_command find_command find_if
instrument_recover_retry r now later id db answer done =
    elim (Option-cases (find_command (CommandKey.api_recover r.idempotency_key) db)) [
      | inl fresh ↦
          let made = rw fresh at done in
          let (after, recovered, same) =
            first_line-ok (recover_instrument now db)
              (λ after. ok ((r.command_id, CommandStatus.succeeded), add_recovery r now after))
              made in
          rw (← ok_injective same, same_key_refl (CommandKey.api_recover r.idempotency_key)) refl
      | inr (c, found) ↦ let answers = rw found at done in rw (← ok_injective answers, found) refl
    ]
