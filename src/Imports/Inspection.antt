-- ===== src/Imports/Inspection.antt =====
-- `inspect_import_directory` of backend/src/most_sprite/imports/service.py.
pub mod Outcome
use Prim.Native.String.{String}
use text.Mathlib.Text.{◌==◌ as str_eq}
use most_sprite.Prelude.{
  ℕ, Bool, true, false, not, ◌&&◌, ◌==◌, Option, none, some, List, [], ◌∷◌, if◌then◌else◌, find_if,
  update_if, length,
}
use most_sprite.Domain.{ImportStatus}
use most_sprite.Domain.Errors.{Code, SpriteError, Result, ok, err, raise, refuse_if, found_or}
use most_sprite.Domain.Errors
use most_sprite.Instruments.{InstrumentAdapter}
use most_sprite.Imports.Names.{FilePath, join, has_parent}
use most_sprite.Imports.Paths.{resolve_source, is_forbidden}
use most_sprite.Imports.Scan.{InventoryRecord, ScanResult, scan}
use most_sprite.Imports.State.{
  ImportInspection, ImportEvent, ImportDb, Archive, Environment, Import, pure, gets, lift, the,
  write, fail_if, fresh_id, ◌>>=◌, ◌>>◌,
}

-- The keyword arguments of a call.
pub record InspectionRequest : Type 0 where
  pub idempotency_key : ℕ
  pub root_id : ℕ
  pub relative_path : String
  pub instrument : ℕ
  pub created_by : ℕ

unfoldable pub new_inspection : ℕ → InspectionRequest → ImportInspection
new_inspection id r = record {
  id = id;
  idempotency_key = r.idempotency_key;
  root_id = r.root_id;
  relative_path = r.relative_path;
  instrument = r.instrument;
  status = ImportStatus.running;
  manifest_sha256 = none;
  inventory = [];
  groups = [];
  warnings = [];
  error_code = none;
  created_by = r.created_by;
}

unfoldable pub add_inspection : ImportInspection → ImportDb → ImportDb
add_inspection i db = record db { inspections = i ∷ db.inspections }

unfoldable pub update_inspection : ℕ → (ImportInspection → ImportInspection) → ImportDb → ImportDb
update_inspection id f db = record db { inspections = update_if (λ i. i.id == id) f db.inspections }

-- What becomes of the row.
unfoldable pub with_result : ScanResult → ImportInspection → ImportInspection
with_result result i = record i {
  status = ImportStatus.succeeded;
  manifest_sha256 = some result.manifest_sha256;
  inventory = result.inventory;
  groups = result.groups;
  warnings = result.warnings;
}

unfoldable pub with_error : SpriteError → ImportInspection → ImportInspection
with_error e i = record i { status = ImportStatus.failed; error_code = some e.code }

close_inspection : ℕ → Result ScanResult → ImportDb → ImportDb
unfolding update_inspection with_result with_error
close_inspection id (ok result) db =
    let closed = update_inspection id (with_result result) db in
    record closed {
      outbox = ImportEvent.inspection_completed id result.manifest_sha256 ∷ closed.outbox;
    }
close_inspection id (err e) db = update_inspection id (with_error e) db

module _ (env : Environment) where
  -- An instrument without an adapter is an exception that has no code.
  unfoldable pub scan_with : Option InstrumentAdapter → FilePath → FilePath → Result ScanResult
  scan_with none root source = raise Code.import_inspection_failed
  scan_with (some adapter) root source = scan env.fs adapter env.digest root source

  module _ (r : InspectionRequest) where
    is_same : ImportInspection → Bool
    is_same i =
        (i.root_id == r.root_id)
        && str_eq i.relative_path r.relative_path
        && (i.instrument == r.instrument)

    by_inspection_key : Option ImportInspection → Import ImportInspection
    unfolding is_same scan_with new_inspection add_inspection close_inspection
    by_inspection_key (some existing) = do
      fail_if (not (is_same existing)) Code.idempotency_conflict
      pure existing
    by_inspection_key none = do
      found ← lift (resolve_source env.fs env.import_roots r.root_id r.relative_path)
      id ← fresh_id
      write (add_inspection (new_inspection id r))
      write (close_inspection id (scan_with (env.adapters r.instrument) found.0 found.1))
      inspection ← gets (λ w. find_if (λ i. i.id == id) w.db.inspections)
      the inspection

    unfoldable pub inspect_import_directory : Import ImportInspection
    unfolding by_inspection_key
    inspect_import_directory = do
      existing ← gets (λ w. find_if (λ i. i.idempotency_key == r.idempotency_key) w.db.inspections)
      by_inspection_key existing
