-- ===== src/Imports/Commit/Tests.antt =====
-- Examples for the commit of an import.
use Prim.Native.String.{String}
use most_sprite.Prelude.{
  length, true, false, ◌≡◌, ◌≢◌, refl, none, some, [], ◌∷◌, find_if, update_if,
}
use most_sprite.Domain.{ImportStatus, DataMode}
use most_sprite.Domain.Errors.{Code, Result, ok, err}
use most_sprite.Imports.State.{
  ImportInspection, ImportBatch, ManagedPath, Archive, first_two, same_path, pure, fail, fail_if,
  gets, lift, the, write, fresh_id, continue, ◌>>=◌,
}
use most_sprite.Imports.Tests.{env, root, night_result}
use text.Mathlib.TextEquality.{eq_iff}
use most_sprite.Prelude.Sorting.{sort_by}
use most_sprite.Instruments.Espadons.{espadons, inspect}
use most_sprite.Instruments.Grouping.{group_science}
use most_sprite.Instruments.{Role, Stokes}
use text.Mathlib.Text.{◌==◌ as str_eq}
use most_sprite.Imports.Artifact.{resolve_inspection_artifact, resolve_inspection_artifact-IsBelow}
use most_sprite.Imports.Paths.Within.{IsBelow}
use most_sprite.Imports.Scan.{scan, InventoryRecord, manifest_digest, stable}
use most_sprite.Imports.Names.{
  is_fits, relative_to, as_posix, is_absolute, contains, parts, path_eq, join, has_parent, member,
  name, parents,
}
use most_sprite.Imports.Paths.{candidate_files, is_forbidden, is_inside, resolve_source}
use most_sprite.Imports.Register.{
  add_artifact, espadons_config, import_groups, register_artifacts, some_row, unique, use_config,
}
use most_sprite.Imports.Copy.{
  copy_verified, find_file, matches, copy_all, destination_of, lookup, managed_record,
  managed_records,
}
use most_sprite.Imports.Copy.Verified.{Holds, copy_verified_once}
use most_sprite.Imports.Inspection.{InspectionRequest, inspect_import_directory}
use most_sprite.Imports.Inspection.Outcome.{InspectionOutcome, inspect_import_directory_outcome}
use most_sprite.Imports.Commit.{
  CommitRequest, commit_import, has_manifest, by_key, by_manifest, by_inspection, start, finish,
  import_all, in_savepoint, is_succeeded, new_batch, add_batch, same_manifest, update_batch,
}
use most_sprite.Imports.Commit.Retry.{commit_import_retry}
use most_sprite.Imports.Commit.Held.{AreHeld}
use most_sprite.Imports.Commit.Verified.{commit_import-AreHeld}

abbrev inspected : ImportInspection
inspected = record {
  id = 1;
  idempotency_key = 1;
  root_id = 0;
  relative_path = "night";
  instrument = 0;
  status = ImportStatus.succeeded;
  manifest_sha256 = some "manifest";
  inventory = night_result.inventory;
  groups = night_result.groups;
  warnings = night_result.warnings;
  error_code = none;
  created_by = 3;
}

abbrev first_record : InventoryRecord
first_record = record {
  relative_path = "night/1o.fits";
  size = 7;
  sha256 = "11";
  role = Role.science;
  detector = "OLAPA";
  mode = some DataMode.pol_q;
  stokes = some Stokes.q;
  sub_index = some 1;
  exposure_time = 60000;
}

abbrev start_archive : Archive
start_archive = record {
  db = record {
    inspections = inspected ∷ [];
    batches = [];
    artifacts = [];
    sequences = [];
    groups = [];
    exposures = [];
    raw_files = [];
    products = [];
    config = none;
    outbox = [];
  };
  files = [];
  next_id = 10;
}

abbrev request : CommitRequest
request = record {
  inspection_id = 1;
  manifest_sha256 = "manifest";
  idempotency_key = 5;
  created_by = 3;
}

abbrev committed : Result ImportBatch × Archive
committed = commit_import env request start_archive

commit_import-AreHeld_example : AreHeld env committed.1
commit_import-AreHeld_example = commit_import-AreHeld env request start_archive tt

-- One frame that belongs to no group.
abbrev bias_record : InventoryRecord
bias_record = record {
  relative_path = "1b.fits";
  size = 7;
  sha256 = "11";
  role = Role.bias;
  detector = "OLAPA";
  mode = none;
  stokes = none;
  sub_index = none;
  exposure_time = 0;
}

abbrev small_archive : Archive
small_archive = record start_archive {
  db = record start_archive.db {
    inspections = record inspected { inventory = bias_record ∷ []; groups = [] } ∷ [];
  };
}

abbrev done_batch : ImportBatch
done_batch = record {
  id = 10;
  inspection_id = 1;
  idempotency_key = 5;
  manifest_sha256 = "manifest";
  status = ImportStatus.succeeded;
  sequence_ids = [];
  error_code = none;
  created_by = 3;
}

abbrev small_committed : Archive
small_committed = (commit_import env request small_archive).1

bias-committed : commit_import env request small_archive ≡ (ok done_batch, small_committed)
unfolding commit_import ◌>>=◌ continue gets find_if fail_if fail pure lift is_absolute contains
    parts path_eq join has_parent fresh_id write the by_key by_manifest by_inspection start finish
    import_all in_savepoint is_succeeded new_batch add_batch same_manifest update_batch update_if
    copy_all copy_verified destination_of find_file lookup managed_record managed_records matches
    first_two member name parents is_forbidden is_inside resolve_source add_artifact espadons_config
    import_groups register_artifacts some_row unique use_config manifest_digest stable has_manifest
    same_path
bias-committed = refl

commit_import_retry_example :
    commit_import env request small_committed ≡ (ok done_batch, small_committed)
commit_import_retry_example =
    commit_import_retry env request small_archive small_committed done_batch tt bias-committed

two-ne-one : ◌≢◌ {A = String} "22" "11"
two-ne-one e = let h = (eq_iff "22" "11").1 e in cc

abbrev place_1 : ManagedPath
place_1 = record { batch_id = 10; shard = "11"; name = "1o.fits" }

copy_verified_once_example :
    Holds env.sha256 place_1 "11" 1
      (copy_verified env.sha256 (b'1' ∷ []) place_1 "11" 1 start_archive).1
    × (copy_verified env.sha256 [] place_1 "11" 1
          (copy_verified env.sha256 (b'1' ∷ []) place_1 "11" 1 start_archive).1
        ≡ (ok tt, (copy_verified env.sha256 (b'1' ∷ []) place_1 "11" 1 start_archive).1))
    × (copy_verified env.sha256 [] place_1 "22" 1
          (copy_verified env.sha256 (b'1' ∷ []) place_1 "11" 1 start_archive).1
        ≡ (
          err (record { code = Code.import_immutable_conflict; retryable = false }),
          (copy_verified env.sha256 (b'1' ∷ []) place_1 "11" 1 start_archive).1,
        ))
unfolding copy_verified ◌>>=◌ continue gets find_file matches
copy_verified_once_example =
    copy_verified_once env.sha256 place_1 (b'1' ∷ []) [] "11" "22" 1 1 start_archive refl two-ne-one

abbrev inspection_request : InspectionRequest
inspection_request = record {
  idempotency_key = 1;
  root_id = 0;
  relative_path = "night";
  instrument = 0;
  created_by = 3;
}

abbrev empty_archive : Archive
empty_archive = record start_archive { db = record start_archive.db { inspections = [] } }

inspect_import_directory_outcome_example :
    InspectionOutcome env inspection_request empty_archive
      (inspect_import_directory env inspection_request empty_archive).0
      (inspect_import_directory env inspection_request empty_archive).1
inspect_import_directory_outcome_example =
    inspect_import_directory_outcome env inspection_request empty_archive tt

first_artifact :
    resolve_inspection_artifact env inspected "night/1o.fits"
    ≡ ok (first_record, "data" ∷ "night" ∷ "1o.fits" ∷ [])
unfolding resolve_inspection_artifact find_if is_forbidden is_absolute contains parts join
    has_parent member parents path_eq name scan candidate_files is_fits relative_to espadons inspect
    group_science sort_by as_posix
first_artifact = refl

resolve_inspection_artifact-IsBelow_example :
    IsBelow root ("data" ∷ "night" ∷ "1o.fits" ∷ [])
    × (env.fs.is_file ("data" ∷ "night" ∷ "1o.fits" ∷ []) ≡ true)
    × (length (env.fs.contents ("data" ∷ "night" ∷ "1o.fits" ∷ [])) ≡ first_record.size)
    × (first_record.relative_path ≡ "night/1o.fits")
    × (find_if (λ i. str_eq i.relative_path "night/1o.fits") inspected.inventory
        ≡ some first_record)
resolve_inspection_artifact-IsBelow_example =
    resolve_inspection_artifact-IsBelow env inspected "night/1o.fits" root root first_record
      ("data" ∷ "night" ∷ "1o.fits" ∷ []) refl refl first_artifact
