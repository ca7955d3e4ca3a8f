-- ===== src/Api/Sequences/Create/Retry.antt =====
-- A sequence is created once for a key, as a request that its client can start.
use most_sprite.Prelude.{ℕ, ◌≡◌, ◌⊎◌, some, List, [], ◌∷◌}
use most_sprite.Domain.{SequenceStatus}
use most_sprite.Domain.Errors.{err, Result, ok}
use most_sprite.Devices.Contracts.{CommandKey}
use most_sprite.Store.{Command, Db, Sequence}
use most_sprite.Control.Validation.{ConfigSnapshot, exposures_of}
use most_sprite.Api.Sequences.{CommandAccepted, find_command}
use most_sprite.Api.Sequences.Create.{CreateRequest, find_created, create_sequence}

-- What a sequence is after its creation: one that can be started, with all its exposures to come.
pub record IsCreated (r : CreateRequest) (s : Sequence) : Type 0 where
  pub named : s.id ≡ r.sequence_id
  pub waits : s.status ≡ SequenceStatus.validated
  pub expected : s.expected_exposures ≡ exposures_of r.payload
  pub owned : s.created_by ≡ r.subject

-- The sequence that an answer names: the one that has the key, made by this request, or there
-- before, with nothing changed.
abbrev pub IsNamed : CreateRequest → Db → CommandAccepted × Db → Type 0
IsNamed r db answer =
    (s : Sequence) × (find_created r.idempotency_key answer.1 ≡ some s)
    × (answer.0.resource_id ≡ s.id)
    × (IsCreated r s ⊎ (answer.1 ≡ db))

-- The database after a creation: one that raises changes nothing.
unfoldable pub after : Result (CommandAccepted × Db) → Db → Db
after (ok a) db = a.1
after (err e) db = db

-- A creation by any client, with what it meets.
pub record Creation : Type 0 where
  pub minimum_free_bytes : ℕ
  pub free_bytes : ℕ
  pub snapshot : ConfigSnapshot
  pub now : ℕ
  pub request : CreateRequest

unfoldable pub run_creation : Creation → Db → Result (CommandAccepted × Db)
unfolding create_sequence
run_creation x db = create_sequence x.minimum_free_bytes x.free_bytes x.snapshot x.now x.request db

unfoldable pub later_creations : List Creation → Db → Db
unfolding after run_creation
later_creations [] db = db
later_creations (x ∷ xs) db = later_creations xs (after (run_creation x db) db)

-- The rows of a key.
record HasRows (key : ℕ) (s : Sequence) (c : Command) (db : Db) : Type 0 where
  created : find_created key db ≡ some s
  known : find_command (CommandKey.api_create key) db ≡ some c

row_answer : Sequence → Command → CommandAccepted
row_answer s c = record { command_id = c.id; resource_id = s.id; status = c.status }
