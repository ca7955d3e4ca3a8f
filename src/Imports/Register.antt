-- ===== src/Imports/Register.antt =====
-- The rows that `commit_import` of backend/src/most_sprite/imports/service.py adds: those of the
-- artifacts, and for each group a sequence with its modulation group, exposures, raw files and
-- products; `_espadons_config`. Times of exposures, checksums and the metadata of products are left
-- out.
pub mod Keeps
use Prim.Native.String.{String}
use text.Mathlib.Text.{◌==◌ as str_eq}
use most_sprite.Prelude.{
  ℕ, suc, ◌+◌, Bool, true, false, not, ◌&&◌, ◌||◌, ◌==◌, Option, none, some, List, [], ◌∷◌, ◌++◌,
  if◌then◌else◌, find_if, update_if, map, length,
}
use most_sprite.Domain.{ImportStatus, SequenceStatus, ExposureStatus}
use most_sprite.Domain.Errors.{Code, SpriteError, Result, ok, err}
use most_sprite.Instruments.{ScienceGroup}
use most_sprite.Instruments.Grouping.{Key, same_key}
use most_sprite.Imports.Names.{FilePath}
use most_sprite.Imports.Paths.{resolve_source}
use most_sprite.Imports.Scan.{InventoryRecord, manifest_digest}
use most_sprite.Imports.State.{
  ImportInspection, ImportBatch, ManagedPath, ImportedArtifact, ImportedSequence, ImportedGroup,
  ImportedExposure, ImportedRawFile, ImportedProduct, ImportEvent, ImportDb, Archive, Environment,
  Import, same_path, pure, fail, fail_if, gets, lift, the, write, fresh_id, ◌>>=◌, ◌>>◌,
}
use most_sprite.Imports.Copy.{find_file, lookup, copy_all, managed_records}

unfoldable pub some_row : {A : Type 0} → Option A → Bool
some_row none = false
some_row (some a) = true

-- The database refuses a row where one has the same value in a unique column.
unfoldable pub unique : {A : Type 0} → (A → Bool) → (ImportDb → List A) → Import (Unit {0})
unfolding some_row
unique test rows = do
  found ← gets (λ w. find_if test (rows w.db))
  fail_if (some_row found) Code.import_failed

unfoldable pub add_artifact : ImportedArtifact → ImportDb → ImportDb
add_artifact a db = record db { artifacts = a ∷ db.artifacts }

-- The loop that adds the artifacts. The copies are where the first loop put them.
unfoldable pub register_artifacts :
    ℕ → List (String × ManagedPath) → List InventoryRecord → Import (List (String × ℕ))
unfolding unique add_artifact lookup
register_artifacts batch_id copied [] = pure []
register_artifacts batch_id copied (item ∷ items) = do
  path ← the (lookup item.relative_path copied)
  id ← fresh_id
  unique (λ a. same_path a.managed_uri path) (λ db. db.artifacts)
  unique (λ a. (a.import_batch_id == batch_id) && str_eq a.relative_path item.relative_path)
      (λ db. db.artifacts)
  write (
      add_artifact (record {
        id = id;
        import_batch_id = batch_id;
        relative_path = item.relative_path;
        managed_uri = path;
        size = item.size;
        sha256 = item.sha256;
        artifact_role = item.role;
        detector = item.detector;
        sequence_id = none;
        exposure_id = none;
      }))
  rest ← register_artifacts batch_id copied items
  pure ((item.relative_path, id) ∷ rest)

or_else : {A : Type 0} → Option A → Option A → Option A
or_else (some later) here = some later
or_else none here = here

-- `table[key]` of a dictionary that a loop has filled: the last entry that was made.
last_where : {A : Type 0} → (A → Bool) → List A → Option A
unfolding or_else
last_where test [] = none
last_where test (x ∷ xs) = or_else (last_where test xs) (if test x then some x else none)

-- `_espadons_config`
unfoldable pub use_config : ℕ → Option ℕ → ImportDb → ImportDb
use_config id (some found) db = db
use_config id none db = record db { config = some id }

unfoldable pub espadons_config : Import ℕ
unfolding use_config
espadons_config = do
  id ← fresh_id
  found ← gets (λ w. w.db.config)
  write (use_config id found)
  config ← gets (λ w. w.db.config)
  the config

unfoldable pub add_exposure : ℕ → ℕ → ℕ → ℕ → ImportDb → ImportDb
add_exposure id sequence_id group_id sub_index db = record db {
  exposures =
      record {
        id = id;
        sequence_id = sequence_id;
        group_id = group_id;
        sub_index = sub_index;
        status = ExposureStatus.committed;
        raw_file_id = none;
      }
      ∷ db.exposures;
}

unfoldable pub assign_artifact : ℕ → ℕ → ℕ → ImportDb → ImportDb
assign_artifact artifact_id sequence_id exposure_id db = record db {
  artifacts =
      update_if (λ a. a.id == artifact_id)
        (λ a. record a { sequence_id = some sequence_id; exposure_id = some exposure_id })
        db.artifacts;
}

unfoldable pub add_raw : ImportedRawFile → ImportDb → ImportDb
add_raw raw db = record db {
  raw_files = raw ∷ db.raw_files;
  exposures =
      update_if (λ e. e.id == raw.exposure_id) (λ e. record e { raw_file_id = some raw.id })
        db.exposures;
}

unfoldable pub add_product : ImportedProduct → ImportDb → ImportDb
add_product p db = record db { products = p ∷ db.products }

key_of : ScienceGroup → Key
key_of group = record {
  prefix = record {
    night = group.observing_night;
    target = group.target_name;
    stokes = group.stokes;
  };
  number = group.sequence_number;
}

unfoldable pub add_sequence : ℕ → String → ℕ → ℕ → ScienceGroup → ImportDb → ImportDb
unfolding key_of
add_sequence id manifest created_by config group db = record db {
  sequences =
      record {
        id = id;
        manifest_sha256 = manifest;
        group_key = key_of group;
        mode = group.mode;
        exposure_time = group.exposure_time;
        expected_exposures = 4;
        completed_exposures = 4;
        status = SequenceStatus.succeeded;
        config_snapshot_id = config;
        created_by = created_by;
      }
      ∷ db.sequences;
}

unfoldable pub add_group : ℕ → ℕ → ScienceGroup → ImportDb → ImportDb
add_group id sequence_id group db = record db {
  groups =
      record {
        id = id;
        sequence_id = sequence_id;
        group_index = group.sequence_number;
        stokes = group.stokes;
      }
      ∷ db.groups;
}

module _ (env : Environment) (batch_id : ℕ) where
  -- One round of the loop over the artifacts of a group.
  pub import_exposure :
      List (String × ℕ) → List InventoryRecord → ℕ → ℕ → ℕ → String → Import (Unit {0})
  unfolding last_where unique add_exposure assign_artifact add_raw add_product find_file
  import_exposure artifact_ids records sequence_id group_id sub_index path = do
    item ← the (last_where (λ r. str_eq r.relative_path path) records)
    exposure_id ← fresh_id
    write (add_exposure exposure_id sequence_id group_id sub_index)
    model ← the (last_where (λ entry. str_eq entry.0 path) artifact_ids)
    let artifact_id = model.1
    write (assign_artifact artifact_id sequence_id exposure_id)
    found ← gets (λ w. find_if (λ a. a.id == artifact_id) w.db.artifacts)
    artifact ← the found
    raw_id ← fresh_id
    unique (λ r. str_eq r.sha256 artifact.sha256) (λ db. db.raw_files)
    unique (λ r. same_path r.uri artifact.managed_uri) (λ db. db.raw_files)
    write (
        add_raw (record {
          id = raw_id;
          exposure_id = exposure_id;
          uri = artifact.managed_uri;
          size = artifact.size;
          sha256 = artifact.sha256;
          imported_artifact_id = artifact.id;
        }))
    bytes ← gets (λ w. find_file artifact.managed_uri w.files)
    raw_bytes ← the bytes
    image ← lift (env.canonical_image raw_bytes)
    mode ← the item.mode
    lift (env.write_l0_atomic exposure_id image)
    product_id ← fresh_id
    write (
        add_product (record {
          id = product_id;
          sequence_id = sequence_id;
          exposure_id = exposure_id;
          mode = mode;
          source_sha256 = artifact.sha256;
          import_batch_id = batch_id;
          input_id = raw_id;
        }))

  pub import_exposures :
      List (String × ℕ) → List InventoryRecord → ℕ → ℕ → ℕ → List String → Import (Unit {0})
  unfolding import_exposure
  import_exposures artifact_ids records sequence_id group_id sub_index [] = pure tt
  import_exposures artifact_ids records sequence_id group_id sub_index (path ∷ paths) = do
    import_exposure artifact_ids records sequence_id group_id sub_index path
    import_exposures artifact_ids records sequence_id group_id (sub_index + 1) paths

  -- One round of the loop over the groups.
  pub import_group :
      String → ℕ → ℕ → List (String × ℕ) → List InventoryRecord → ScienceGroup → Import ℕ
  unfolding unique import_exposures key_of add_sequence add_group
  import_group manifest created_by config artifact_ids records group = do
    sequence_id ← fresh_id
    unique (λ s. str_eq s.manifest_sha256 manifest && same_key s.group_key (key_of group))
        (λ db. db.sequences)
    write (add_sequence sequence_id manifest created_by config group)
    group_id ← fresh_id
    write (add_group group_id sequence_id group)
    import_exposures artifact_ids records sequence_id group_id 1 group.artifacts
    pure sequence_id

  unfoldable pub import_groups :
      String
      → ℕ
      → ℕ
      → List (String × ℕ)
      → List InventoryRecord
      → List ScienceGroup
      → Import (List ℕ)
  unfolding import_group
  import_groups manifest created_by config artifact_ids records [] = pure []
  import_groups manifest created_by config artifact_ids records (group ∷ groups) = do
    id ← import_group manifest created_by config artifact_ids records group
    ids ← import_groups manifest created_by config artifact_ids records groups
    pure (id ∷ ids)
