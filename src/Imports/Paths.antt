-- ===== src/Imports/Paths.antt =====
-- backend/src/most_sprite/imports/service.py: `_resolve_source`, `_candidate_files` and
-- `resolve_inspection_artifact`. The file system is a parameter: what it answers is arbitrary.
pub mod Within
pub mod Containment
use Prim.Native.String.{String}
use text.Mathlib.Text.{◌==◌ as str_eq}
use most_sprite.Prelude.{
  ℕ, Bool, true, false, not, ◌&&◌, ◌||◌, ◌==◌, if◌then◌else◌, Option, none, some, List, [], ◌∷◌,
  ◌++◌,
}
use most_sprite.Domain.Errors.{Code, Result, ok, err, raise, refuse_if, found_or, ◌>>=◌, ◌>>◌}
use most_sprite.Imports.Names.{
  FilePath, parts, is_absolute, contains, as_posix, join, path_eq, has_parent, relative_to, name,
  is_fits,
}

-- What the code asks of the disk. `resolve` is `Path.resolve(strict=True)`, where `none` stands for
-- an OSError, and `resolve_loosely` is `Path.resolve()`; `rglob` is `sorted(path.rglob("*"))`, and
-- `contents` the bytes of a file.
pub record FileSystem : Type 0 where
  pub resolve : FilePath → Option FilePath
  pub resolve_loosely : FilePath → FilePath
  pub is_dir : FilePath → Bool
  pub is_file : FilePath → Bool
  pub is_symlink : FilePath → Bool
  pub rglob : FilePath → List FilePath
  pub contents : FilePath → List ℕ

-- `path == root or root in path.parents`
unfoldable pub is_inside : FilePath → FilePath → Bool
is_inside root path = path_eq path root || has_parent path root

unfoldable pub is_forbidden : String → Bool
is_forbidden relative_path = is_absolute relative_path || contains ".." (parts relative_path)

module _ (fs : FileSystem) (import_roots : ℕ → Option FilePath) where
  unfoldable pub resolve_source : ℕ → String → Result (FilePath × FilePath)
  unfolding is_inside is_forbidden
  resolve_source root_id relative_path = do
    configured ← found_or Code.import_root_not_found (import_roots root_id)
    refuse_if (is_forbidden relative_path) Code.import_path_forbidden
    root ← found_or Code.import_path_not_found (fs.resolve configured)
    source ← found_or Code.import_path_not_found (fs.resolve (join root relative_path))
    refuse_if (not (is_inside root source)) Code.import_path_forbidden
    refuse_if (not (fs.is_dir source)) Code.import_path_not_directory
    ok (root, source)

-- `if not result: raise ...`
some_files : List (FilePath × String) → Result (List (FilePath × String))
some_files [] = raise Code.import_empty
some_files (file ∷ files) = ok (file ∷ files)

module _ (fs : FileSystem) (root : FilePath) where
  -- A symbolic link has to lead to a place inside the root.
  check_link : FilePath → Result (Unit {0})
  unfolding is_inside
  check_link candidate = do
    resolved ← found_or Code.import_path_forbidden (fs.resolve candidate)
    refuse_if (not (is_inside root resolved)) Code.import_path_forbidden

  -- A path that is not below the root is a ValueError, which no handler turns into a code.
  recorded : FilePath → FilePath → Bool → Result (List (FilePath × String))
  recorded candidate resolved false = ok []
  recorded candidate resolved true = do
    relative ← found_or Code.import_inspection_failed (relative_to candidate root)
    ok ((resolved, as_posix relative) ∷ [])

  -- What one entry adds to the result.
  candidate_file : FilePath → Bool → Result (List (FilePath × String))
  unfolding recorded
  candidate_file candidate false = ok []
  candidate_file candidate true =
      let resolved = fs.resolve_loosely candidate in
      do
        refuse_if (not (has_parent resolved root)) Code.import_path_forbidden
        recorded candidate resolved (is_fits (name candidate))

  candidates : List FilePath → Result (List (FilePath × String))
  unfolding check_link candidate_file
  candidates [] = ok []
  candidates (candidate ∷ rest) = do
    if fs.is_symlink candidate then check_link candidate else ok tt
    file ← candidate_file candidate (fs.is_file (fs.resolve_loosely candidate))
    files ← candidates rest
    ok (file ++ files)

  unfoldable pub candidate_files : FilePath → Result (List (FilePath × String))
  unfolding candidates some_files
  candidate_files source = candidates (fs.rglob source) >>= some_files
