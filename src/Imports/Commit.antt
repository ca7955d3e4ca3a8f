-- ===== src/Imports/Commit.antt =====
-- `commit_import` of backend/src/most_sprite/imports/service.py. What is written between
-- `begin_nested` and `savepoint.commit` is written as a whole or not at all; files stay.
pub mod Body
pub mod Outcome
pub mod Retry
pub mod Held
pub mod Verified
mod Tests
use Prim.Native.String.{String}
use text.Mathlib.Text.{◌==◌ as str_eq}
use most_sprite.Prelude.{
  ℕ, suc, ◌+◌, Bool, true, false, not, ◌&&◌, ◌||◌, ◌==◌, Option, none, some, List, [], ◌∷◌, ◌++◌,
  if◌then◌else◌, find_if, update_if, map, length,
}
use most_sprite.Domain.{ImportStatus, SequenceStatus, ExposureStatus}
use most_sprite.Domain.Errors.{Code, SpriteError, Result, ok, err}
use most_sprite.Instruments.{ScienceGroup}
use most_sprite.Instruments.Grouping.{Key, same_key}
use most_sprite.Imports.Names.{FilePath}
use most_sprite.Imports.Paths.{resolve_source}
use most_sprite.Imports.Scan.{InventoryRecord, manifest_digest}
use most_sprite.Imports.State.{
  ImportInspection, ImportBatch, ManagedPath, ImportedArtifact, ImportedSequence, ImportedGroup,
  ImportedExposure, ImportedRawFile, ImportedProduct, ImportEvent, ImportDb, Archive, Environment,
  Import, same_path, pure, fail, fail_if, gets, lift, the, write, fresh_id, ◌>>=◌, ◌>>◌,
}
use most_sprite.Imports.Copy.{copy_all, managed_records}
use most_sprite.Imports.Register.{register_artifacts, espadons_config, import_groups, some_row}

-- The keyword arguments of a call.
pub record CommitRequest : Type 0 where
  pub inspection_id : ℕ
  pub manifest_sha256 : String
  pub idempotency_key : ℕ
  pub created_by : ℕ

-- The body of the `try` block: copies, their description, and the rows.
pub import_all : Environment → FilePath → ℕ → CommitRequest → ImportInspection → Import (List ℕ)
unfolding copy_all managed_records manifest_digest register_artifacts espadons_config import_groups
import_all env root batch_id r inspection = do
  copied ← copy_all env root batch_id inspection.inventory []
  records ← managed_records env copied inspection.inventory
  fail_if (not (str_eq (manifest_digest env.digest records) r.manifest_sha256)) Code.source_changed
  artifact_ids ← register_artifacts batch_id copied records
  config ← espadons_config
  import_groups env batch_id r.manifest_sha256 r.created_by config artifact_ids records
      inspection.groups

unfoldable pub update_batch : ℕ → (ImportBatch → ImportBatch) → ImportDb → ImportDb
update_batch id f db = record db { batches = update_if (λ b. b.id == id) f db.batches }

-- The end of the `try` block, and its handler.
pub finish : ImportDb → ℕ → Result (List ℕ) × Archive → Archive
unfolding update_batch
finish saved id (ok ids, w) = record w {
  db =
      update_batch id (λ b. record b { sequence_ids = ids; status = ImportStatus.succeeded })
        (record w.db { outbox = ImportEvent.import_completed id ids ∷ w.db.outbox });
}
finish saved id (err e, w) = record w {
  db =
      update_batch id (λ b. record b { status = ImportStatus.failed; error_code = some e.code })
        saved;
}

pub in_savepoint : ℕ → Import (List ℕ) → Import (Unit {0})
unfolding finish
in_savepoint id body w = (ok tt, finish w.db id (body w))

pub new_batch : ℕ → CommitRequest → ImportBatch
new_batch id r = record {
  id = id;
  inspection_id = r.inspection_id;
  idempotency_key = r.idempotency_key;
  manifest_sha256 = r.manifest_sha256;
  status = ImportStatus.running;
  sequence_ids = [];
  error_code = none;
  created_by = r.created_by;
}

pub add_batch : ImportBatch → ImportDb → ImportDb
add_batch b db = record db { batches = b ∷ db.batches }

pub is_succeeded : ImportStatus → Bool
is_succeeded ImportStatus.succeeded = true
is_succeeded _ = false

pub same_manifest : Option String → String → Bool
same_manifest none manifest = false
same_manifest (some own) manifest = str_eq own manifest

module _ (env : Environment) (r : CommitRequest) where
  -- A batch of the same inspection is refused by the database, outside the `try` block.
  pub start : ImportInspection → Import ImportBatch
  unfolding import_all in_savepoint new_batch add_batch is_succeeded same_manifest resolve_source
      some_row
  start inspection = do
    fail_if (not (is_succeeded inspection.status)) Code.import_inspection_not_ready
    fail_if (not (same_manifest inspection.manifest_sha256 r.manifest_sha256)) Code.source_changed
    found ←
        lift (resolve_source env.fs env.import_roots inspection.root_id inspection.relative_path)
    id ← fresh_id
    other ← gets (λ w. find_if (λ b. b.inspection_id == r.inspection_id) w.db.batches)
    fail_if (some_row other) Code.integrity_error
    write (add_batch (new_batch id r))
    in_savepoint id (import_all env found.0 id r inspection)
    batch ← gets (λ w. find_if (λ b. b.id == id) w.db.batches)
    the batch

  pub by_inspection : Option ImportInspection → Import ImportBatch
  unfolding start
  by_inspection none = fail Code.import_inspection_not_found
  by_inspection (some inspection) = start inspection

  pub by_manifest : Option ImportBatch → Import ImportBatch
  unfolding by_inspection
  by_manifest (some batch) = pure batch
  by_manifest none = do
    inspection ← gets (λ w. find_if (λ i. i.id == r.inspection_id) w.db.inspections)
    by_inspection inspection

  pub has_manifest : ImportBatch → Bool
  unfolding is_succeeded
  has_manifest b = str_eq b.manifest_sha256 r.manifest_sha256 && is_succeeded b.status

  pub by_key : Option ImportBatch → Import ImportBatch
  unfolding by_manifest has_manifest
  by_key (some batch) = do
    fail_if
        (not (
          (batch.inspection_id == r.inspection_id)
          && str_eq batch.manifest_sha256 r.manifest_sha256))
        Code.idempotency_conflict
    pure batch
  by_key none = do found ← gets (λ w. find_if has_manifest w.db.batches); by_manifest found

  unfoldable pub commit_import : Import ImportBatch
  unfolding by_key
  commit_import = do
    found ← gets (λ w. find_if (λ b. b.idempotency_key == r.idempotency_key) w.db.batches)
    by_key found
