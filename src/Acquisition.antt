-- ===== src/Acquisition.antt =====
-- `commit_l0` of backend/src/most_sprite/acquisition/service.py, with the guards of
-- `write_l0_atomic` in acquisition/fits_contract.py. The contents of the FITS file are left out; so
-- is its conflict check, which compares values that this caller has read from the same file or that
-- do not change. The path of a file is that of its day and its exposure.
pub mod Leads
pub mod Commit
pub mod Recovery
mod Tests
use most_sprite.Prelude.{
  ℕ, ◌/◌, Bool, true, false, ◌&&◌, ◌==◌, Option, none, some, ◌∷◌, find_if, ltb, if◌then◌else◌,
}
use most_sprite.Domain.{ExposureStatus, CommandStatus}
use most_sprite.Domain.Errors.{Code, SpriteError, err}
use most_sprite.Devices.Contracts.{CommandKey}
use most_sprite.Store.{
  Settings, Db, Exposure, Command, CommandKind, RawFile, OutboxEvent, get_exposure, update_exposure,
  emit,
}
use most_sprite.Control.World.{
  L0File, World, Run, pure, fail_retryable, gets, the, write, fresh_id, ◌>>=◌, ◌>>◌,
}

-- `now.strftime("%Y%m%d")`
abbrev day_of : ℕ → ℕ
day_of now = now / 86400000

find_file : ℕ → ℕ → World → Option L0File
find_file day id w = find_if (λ f. (f.day == day) && (f.exposure_id == id)) w.files

-- A new file wants the space that is kept free.
create_file : Settings → L0File → Run (Unit {0})
create_file st f w =
    if ltb w.free_bytes st.minimum_free_bytes
    then fail_retryable Code.storage_unavailable w
    else pure tt (record w { files = f ∷ w.files })

-- `write_l0_atomic`: the file that is there already is kept.
write_l0 : Settings → Bool → L0File → Option L0File → Run (Unit {0})
unfolding create_file
write_l0 st true f found = fail_retryable Code.storage_unavailable
write_l0 st false f (some _) = pure tt
write_l0 st false f none = create_file st f

-- The ids that go into the row: those of the header, where the file is there already.
header_of : ℕ → ℕ → ℕ → Option ℕ → Option L0File → L0File
header_of day id raw command none = record {
  day = day;
  exposure_id = id;
  raw_file_id = raw;
  command_id = command;
}
header_of day id raw command (some f) = f

pub recovered_command : ℕ → ℕ → ℕ → Command
recovered_command id seq ended = record {
  id = id;
  idempotency_key = CommandKey.recovered_l0 id;
  sequence_id = some seq;
  kind = CommandKind.recovered_expose;
  status = CommandStatus.succeeded;
  completed_at = some ended;
  fencing_token = 0;
  error_code = none;
  result = none;
}

pub restored : ℕ → ℕ → ℕ → ℕ → Option Command → Db → Db
unfolding recovered_command update_exposure
restored id seq exposure ended (some _) db = db
restored id seq exposure ended none db =
    update_exposure exposure (λ e. record e { command_id = some id })
      (record db { commands = recovered_command id seq ended ∷ db.commands })

-- A command that the header names and the database has lost is added again.
pub restore_command : Option ℕ → ℕ → ℕ → ℕ → Db → Db
unfolding restored
restore_command none seq exposure ended db = db
restore_command (some id) seq exposure ended db =
    restored id seq exposure ended (find_if (λ c. c.id == id) db.commands) db

-- The row of the raw file, the exposure's commit, the product and the event.
register : L0File → Exposure → ℕ → Db → Db
unfolding update_exposure emit
register f e ended db = emit (OutboxEvent.raw_file_committed e.sequence_id e.id f.raw_file_id) (
    update_exposure e.id
      (λ x. record x {
        raw_file_id = some f.raw_file_id;
        status = ExposureStatus.committed;
        committed_at = some ended;
      })
      (record db {
        raw_files = record { id = f.raw_file_id; exposure_id = e.id } ∷ db.raw_files;
        products =
            record { sequence_id = e.sequence_id; exposure_id = e.id; raw_file_id = f.raw_file_id }
            ∷ db.products;
      }))

module _ (st : Settings) where
  commit_new : Bool → ℕ → Exposure → Run ℕ
  unfolding find_file header_of write_l0 restore_command register
  commit_new storage_fault ended e = do
    now ← gets (λ w. w.now)
    raw ← fresh_id
    found ← gets (find_file (day_of now) e.id)
    let f = header_of (day_of now) e.id raw e.command_id found
    write_l0 st storage_fault f found
    write (restore_command f.command_id e.sequence_id e.id ended)
    write (register f e ended)
    pure f.raw_file_id

  return_or_commit : Bool → ℕ → Exposure → Option RawFile → Run ℕ
  unfolding commit_new
  return_or_commit storage_fault ended e (some r) = pure r.id
  return_or_commit storage_fault ended e none = commit_new storage_fault ended e

  -- `commit_l0` of the exposure with this id, which ended at `ended`.
  unfoldable pub commit_l0 : Bool → ℕ → ℕ → Run ℕ
  unfolding return_or_commit
  commit_l0 storage_fault ended id = do
    exposure ← gets (λ w. get_exposure id w.db)
    e ← the exposure
    raw ← gets (λ w. find_if (λ r. r.exposure_id == e.id) w.db.raw_files)
    return_or_commit storage_fault ended e raw
