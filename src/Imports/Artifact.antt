-- ===== src/Imports/Artifact.antt =====
-- `resolve_inspection_artifact` of backend/src/most_sprite/imports/service.py, which gives the
-- preview of an inspected file its path.
use Prim.Native.String.{String}
use text.Mathlib.Text.{◌==◌ as str_eq}
use text.Mathlib.TextEquality.{eq_iff}
use most_sprite.Prelude.{true, not, ◌&&◌, ◌==◌, ◌≡◌, arith, some, find_if, find_if_passes, length}
use most_sprite.Domain.Errors.{Code, Result, ok, refuse_if, found_or, ◌>>=◌, ◌>>◌}
use most_sprite.Imports.Names.{FilePath, join, has_parent}
use most_sprite.Imports.Paths.{is_forbidden}
use most_sprite.Imports.Paths.Within.{IsBelow, has_parent→IsBelow}
use most_sprite.Imports.Scan.{InventoryRecord}
use most_sprite.Imports.State.{ImportInspection, Environment}

module _ (env : Environment) where
  unfoldable pub resolve_inspection_artifact :
      ImportInspection → String → Result (InventoryRecord × FilePath)
  resolve_inspection_artifact inspection relative_path = do
    item ←
        found_or Code.import_artifact_not_found
          (find_if (λ i. str_eq i.relative_path relative_path) inspection.inventory)
    configured ← found_or Code.import_root_not_found (env.import_roots inspection.root_id)
    refuse_if (is_forbidden relative_path) Code.import_path_forbidden
    root ← found_or Code.import_artifact_unavailable (env.fs.resolve configured)
    path ← found_or Code.import_artifact_unavailable (env.fs.resolve (join root relative_path))
    refuse_if (not (has_parent path root && env.fs.is_file path)) Code.import_path_forbidden
    refuse_if (not (length (env.fs.contents path) == item.size)) Code.source_changed
    ok (item, path)

  -- The path that is given for an inspected artifact is that of a file below the import root as it is
  -- resolved now, and the size of the file is the one that was recorded. The record is the first of
  -- the inspection with the path that was asked for.
  pub resolve_inspection_artifact-IsBelow :
      (inspection : ImportInspection) (relative_path : String) (configured root : FilePath)
      (item : InventoryRecord) (path : FilePath)
      → env.import_roots inspection.root_id ≡ some configured
      → env.fs.resolve configured ≡ some root
      → resolve_inspection_artifact inspection relative_path ≡ ok (item, path)
      → IsBelow root path
        × (env.fs.is_file path ≡ true)
        × (length (env.fs.contents path) ≡ item.size)
        × (item.relative_path ≡ relative_path)
        × (find_if (λ i. str_eq i.relative_path relative_path) inspection.inventory ≡ some item)
  unfolding resolve_inspection_artifact
  resolve_inspection_artifact-IsBelow inspection relative_path configured root item path known
        resolved h =
      let found : find_if (λ i. str_eq i.relative_path relative_path) inspection.inventory
          ≡ some item =
        ground arith in
      let passes =
        find_if_passes (λ i. str_eq i.relative_path relative_path) inspection.inventory found in
      let below : has_parent path root ≡ true = ground arith in
      (
        has_parent→IsBelow path root below,
        ground arith,
        ground arith,
        ground (arith, eq_iff item.relative_path relative_path),
        found,
      )
