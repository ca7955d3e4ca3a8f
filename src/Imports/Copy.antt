-- ===== src/Imports/Copy.antt =====
-- `_copy_verified` of backend/src/most_sprite/imports/service.py, and the loops of `commit_import`
-- that copy the files of an inspection and describe the copies. A file appears under its name by one
-- `os.replace`, with all its bytes.
pub mod Kept
pub mod Verified
use Prim.Native.String.{String}
use text.Mathlib.Text.{◌==◌ as str_eq}
use most_sprite.Prelude.{
  ℕ, Bool, true, false, not, ◌&&◌, ◌==◌, Option, none, some, List, [], ◌∷◌, if◌then◌else◌, length,
  map,
}
use most_sprite.Domain.Errors.{Code, Result, ok, err}
use most_sprite.Imports.Names.{FilePath, parts, join, name, has_parent}
use most_sprite.Imports.Scan.{InventoryRecord}
use most_sprite.Imports.State.{
  ManagedPath, Archive, Environment, Import, same_path, first_two, pure, fail, fail_if, gets, lift,
  the, ◌>>=◌, ◌>>◌,
}

unfoldable pub find_file : ManagedPath → List (ManagedPath × List ℕ) → Option (List ℕ)
find_file path [] = none
find_file path ((other, bytes) ∷ files) =
    let rest = find_file path files in if same_path other path then some bytes else rest

-- The bytes have the size and the digest that were recorded.
unfoldable pub matches : (List ℕ → String) → String → ℕ → List ℕ → Bool
matches sha256 expected_sha256 expected_size bytes =
    (length bytes == expected_size) && str_eq (sha256 bytes) expected_sha256

pub add_file : ManagedPath → List ℕ → Import (Unit {0})
add_file path bytes w = (ok tt, record w { files = (path, bytes) ∷ w.files })

-- The destination, if it exists, and the bytes of the source.
pub place : ManagedPath → List ℕ → Bool → Option (List ℕ) → Bool → Import (Unit {0})
unfolding add_file
place destination bytes fits (some old) old_fits =
    fail_if (not old_fits) Code.import_immutable_conflict
place destination bytes false none old_fits = fail Code.source_changed
place destination bytes true none old_fits = add_file destination bytes

pub old_matches : (List ℕ → Bool) → Option (List ℕ) → Bool
old_matches test none = false
old_matches test (some old) = test old

unfoldable pub copy_verified :
    (List ℕ → String) → List ℕ → ManagedPath → String → ℕ → Import (Unit {0})
unfolding place old_matches
copy_verified sha256 bytes destination expected_sha256 expected_size = do
  old ← gets (λ w. find_file destination w.files)
  let test = matches sha256 expected_sha256 expected_size
  place destination bytes (test bytes) old (old_matches test old)

unfoldable pub destination_of : ℕ → InventoryRecord → ManagedPath
destination_of batch_id item = record {
  batch_id = batch_id;
  shard = first_two item.sha256;
  name = name (parts item.relative_path);
}

-- `copied[key]`: the last entry that was made.
unfoldable pub lookup : String → List (String × ManagedPath) → Option ManagedPath
lookup key [] = none
lookup key ((other, path) ∷ copied) =
    let rest = lookup key copied in if str_eq other key then some path else rest

module _ (env : Environment) where
  pub copy_record : FilePath → ℕ → InventoryRecord → Import (Unit {0})
  unfolding copy_verified destination_of
  copy_record root batch_id item = do
    source ← the (env.fs.resolve (join root item.relative_path))
    fail_if (not (has_parent source root)) Code.import_path_forbidden
    copy_verified env.sha256 (env.fs.contents source) (destination_of batch_id item) item.sha256
        item.size

  -- The first loop: the copies, by the paths that they are made for.
  unfoldable pub copy_all :
      FilePath
      → ℕ
      → List InventoryRecord
      → List (String × ManagedPath)
      → Import (List (String × ManagedPath))
  unfolding copy_record destination_of
  copy_all root batch_id [] copied = pure copied
  copy_all root batch_id (item ∷ items) copied = do
    copy_record root batch_id item
    copy_all root batch_id items ((item.relative_path, destination_of batch_id item) ∷ copied)

  unfoldable pub managed_record :
      List (String × ManagedPath) → InventoryRecord → Import InventoryRecord
  unfolding lookup find_file
  managed_record copied item = do
    path ← the (lookup item.relative_path copied)
    found ← gets (λ w. find_file path w.files)
    bytes ← the found
    pure (record item { size = length bytes; sha256 = env.sha256 bytes })

  -- The second loop: the records, with the sizes and digests of the copies.
  unfoldable pub managed_records :
      List (String × ManagedPath) → List InventoryRecord → Import (List InventoryRecord)
  unfolding managed_record
  managed_records copied [] = pure []
  managed_records copied (item ∷ items) = do
    managed ← managed_record copied item
    rest ← managed_records copied items
    pure (managed ∷ rest)
